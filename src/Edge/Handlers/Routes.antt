-- ===== src/Edge/Handlers/Routes.antt =====
-- Which hosts reach the tunnels.
use muxbridge.Base.{
  ◌≡◌, ◌≢◌, ◌↔◌, sym, ap, ◌∙◌, subst, Bool, true, false, List, Bytes, codes, arith, same_iff,
}
use muxbridge.Base.Result.{Result, ok}
use muxbridge.Hostnames.{normalize_host, normalize_domain, subdomain}
use muxbridge.Hostnames.Domains.{IsDomain}
use muxbridge.Hostnames.Names.{normalize_host-IsDomain, subdomain-IsDomain, subdomain-ne}
use muxbridge.Server.State.{Config, Server, assemble, new, host_in, has_public_host}
use muxbridge.Server.State.Construction.{new-eq-ok}
use muxbridge.Server.Routing.Reserved.{edge-IsLabel, reserved_hosts}
use muxbridge.Edge.Config.{Flags, Files, EdgeConfig, base_config, load_config, server_config}
use muxbridge.Edge.Config.Accepted.{load_config-eq-ok, with_flags-eq-ok, finish_config-eq-ok}
use muxbridge.Edge.Handlers.{Request, Target, to_public, to_status, https_handler}

-- The edge's own host stands below the domain.
load_config-edge_domain :
    (parse : Bool → List Bytes → Result Bytes Flags) (files : Files) (args : List Bytes)
    (getenv : Bytes → Bytes) (c : EdgeConfig)
    → load_config parse files args getenv ≡ ok c
    → c.edge_domain ≡ subdomain (codes "edge") c.public_domain
unfolding base_config
load_config-edge_domain parse files args getenv c e =
    let (flags, e1) = load_config-eq-ok parse files args getenv c e in
    let (n, m, e2) = with_flags-eq-ok files getenv flags c e1 in
    let (rows, valid, parsed, made) =
      finish_config-eq-ok getenv flags (base_config files getenv flags n m) c e2 in
    cc (ap (λ x. x.edge_domain) made, ap (λ x. x.public_domain) made)

new-public_domain :
    (cfg : Config) (srv : Server)
    → new cfg ≡ ok srv
    → srv.public_domain ≡ normalize_domain cfg.public_domain
unfolding assemble
new-public_domain cfg srv e =
    let (t, valid, rows, made) = new-eq-ok cfg srv e in ap (λ s. s.public_domain) made

module _ (srv : Server) (has_pprof : Bool) (edge : Bytes) (r : Request) where
  abbrev answer : Target
  answer = https_handler srv.public_domain edge (has_public_host srv) has_pprof r

  answer-public :
      host_in edge srv.public_hosts ≡ false
      → host_in srv.public_domain srv.public_hosts ≡ false
      → normalize_host edge ≡ edge
      → normalize_host srv.public_domain ≡ srv.public_domain
      → (answer ≡ to_public) ↔ (has_public_host srv (normalize_host r.host) ≡ true)
  unfolding https_handler has_public_host
  answer-public a b c d = ground (
    arith,
    same_iff (normalize_host r.host) edge,
    same_iff (normalize_host r.host) srv.public_domain,
    ap normalize_host c,
  )

  answer-status :
      edge ≢ srv.public_domain → (answer ≡ to_status) ↔ (normalize_host r.host ≡ srv.public_domain)
  unfolding https_handler
  answer-status n = ground (
    arith,
    same_iff (normalize_host r.host) edge,
    same_iff (normalize_host r.host) srv.public_domain,
  )

-- The users' hosts go to the tunnels, and the domain to the status page.
abbrev IsRouted : Server → Bool → Request → Bytes → Bytes → Type 0
IsRouted srv has_pprof r domain edge =
    ((https_handler domain edge (has_public_host srv) has_pprof r ≡ to_public)
      ↔ (has_public_host srv (normalize_host r.host) ≡ true))
    × ((https_handler domain edge (has_public_host srv) has_pprof r ≡ to_status)
        ↔ (normalize_host r.host ≡ domain))

-- With a configuration that was loaded and a domain that is valid as it stands, the hosts of the
-- users, and no others, are given to the tunnels, and the domain itself, and no other host, has the
-- status page: neither the edge's own host nor the status page ever takes the place of a user's host,
-- whatever the request's protocol and path, and with the profiler on or off.
pub https_handler_iff :
    (parse : Bool → List Bytes → Result Bytes Flags) (files : Files) (args : List Bytes)
    (getenv : Bytes → Bytes) (c : EdgeConfig) (srv : Server) (has_pprof : Bool) (r : Request)
    → load_config parse files args getenv ≡ ok c
    → new (server_config c) ≡ ok srv
    → IsDomain c.public_domain
    → ((https_handler c.public_domain c.edge_domain (has_public_host srv) has_pprof r ≡ to_public)
        ↔ (has_public_host srv (normalize_host r.host) ≡ true))
      × ((https_handler c.public_domain c.edge_domain (has_public_host srv) has_pprof r ≡ to_status)
          ↔ (normalize_host r.host ≡ c.public_domain))
unfolding server_config normalize_domain
https_handler_iff parse files args getenv c srv has_pprof r e n d =
    let domain : srv.public_domain ≡ c.public_domain =
      new-public_domain (server_config c) srv n ∙ normalize_host-IsDomain c.public_domain d in
    let valid = subst IsDomain (sym domain) d in
    let edge : c.edge_domain ≡ subdomain (codes "edge") srv.public_domain =
      load_config-edge_domain parse files args getenv c e
      ∙ ap (subdomain (codes "edge")) (sym domain) in
    let (not_edge, not_domain) = reserved_hosts (server_config c) srv n valid in
    let below = subdomain-IsDomain (codes "edge") srv.public_domain edge-IsLabel valid in
    let own = subdomain (codes "edge") srv.public_domain in
    let routed : IsRouted srv has_pprof r srv.public_domain own = (
      answer-public srv has_pprof own r not_edge not_domain (normalize_host-IsDomain own below)
          (normalize_host-IsDomain srv.public_domain valid),
      answer-status srv has_pprof own r
          (subdomain-ne (codes "edge") srv.public_domain edge-IsLabel valid),
    ) in
    subst (λ x. IsRouted srv has_pprof r x c.edge_domain) domain
      (subst (IsRouted srv has_pprof r srv.public_domain) (sym edge) routed)
