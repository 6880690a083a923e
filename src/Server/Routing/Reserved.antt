-- ===== src/Server/Routing/Reserved.antt =====
-- The hosts of a server are those of its users, and none of them is the edge's or the domain itself.
use muxbridge.Base.{
  ◌≡◌, ◌≢◌, refl, sym, ap, ◌∙◌, subst, false, List, [], ◌∷◌, arith, Bytes, codes, same, same_iff,
  bytes_eq, All,
}
use muxbridge.Base.Result.{ok}
use muxbridge.Hostnames.{normalize_domain, normalize_label, subdomain, validate_label}
use muxbridge.Hostnames.Labels.{IsLabel, validate_label_iff}
use muxbridge.Hostnames.Domains.{IsDomain}
use muxbridge.Hostnames.Names.{subdomain_inj, subdomain-ne}
use muxbridge.Server.State.{
  Config, Server, Tables, no_tables, add_user, add_users, assemble, new, host_in,
}
use muxbridge.Server.State.Construction.{new-eq-ok}
use muxbridge.Server.Routing.Hosts.{add_users-eq-ok}

-- The host of a user whose name is not reserved.
record IsUserHost (domain host : Bytes) : Type 0 where
  user : Bytes
  label : IsLabel user
  free : user ≢ codes "edge"
  named : host ≡ subdomain user domain

add_user-IsUserHost :
    (domain token raw : Bytes) (t t' : Tables)
    → add_user domain token raw t ≡ ok t'
    → All (IsUserHost domain) t.hosts
    → All (IsUserHost domain) t'.hosts
unfolding add_user
add_user-IsUserHost domain token raw t t' e h =
    let name = normalize_label raw in
    let hosts : t'.hosts ≡ subdomain name domain ∷ t.hosts = ground arith in
    subst (All (IsUserHost domain)) (sym hosts) (
      record {
        user = name;
        label = (validate_label_iff name).0 (ground arith);
        free = ground (arith, same_iff name (codes "edge"));
        named = refl;
      },
      h,
    )

add_users-IsUserHost :
    (domain : Bytes) (rows : List (Bytes × Bytes)) (t t' : Tables)
    → add_users domain rows t ≡ ok t'
    → All (IsUserHost domain) t.hosts
    → All (IsUserHost domain) t'.hosts
unfolding add_users
add_users-IsUserHost domain [] t t' e h = ground arith
add_users-IsUserHost domain ((token, raw) ∷ rows) t t' e h =
    let (u, one, rest) = add_users-eq-ok domain token raw rows t t' e in
    add_users-IsUserHost domain rows u t' rest (add_user-IsUserHost domain token raw t u one h)

host_in-reserved :
    (domain host : Bytes) (hosts : List Bytes)
    → ((h : Bytes) → IsUserHost domain h → h ≢ host)
    → All (IsUserHost domain) hosts
    → host_in host hosts ≡ false
unfolding host_in
host_in-reserved domain host [] f a = refl
host_in-reserved domain host (h ∷ hs) f a =
    ground (arith, same_iff h host, f h a.0, host_in-reserved domain host hs f a.1)

pub edge-IsLabel : IsLabel (codes "edge")
unfolding validate_label same
edge-IsLabel = (validate_label_iff (codes "edge")).0 refl

-- No user of a server has the edge's own host, nor the domain itself.
pub reserved_hosts :
    (cfg : Config) (srv : Server)
    → new cfg ≡ ok srv
    → IsDomain srv.public_domain
    → (host_in (subdomain (codes "edge") srv.public_domain) srv.public_hosts ≡ false)
      × (host_in srv.public_domain srv.public_hosts ≡ false)
unfolding assemble
reserved_hosts cfg srv e d =
    let (t, valid, rows, made) = new-eq-ok cfg srv e in
    let D = srv.public_domain in
    let domain : normalize_domain cfg.public_domain ≡ D = sym (ap (λ s. s.public_domain) made) in
    let hosts : srv.public_hosts ≡ t.hosts = ap (λ s. s.public_hosts) made in
    let named = subst (All (IsUserHost D)) (sym hosts) (
      subst (λ x. All (IsUserHost x) t.hosts) domain
        (add_users-IsUserHost (normalize_domain cfg.public_domain) cfg.token_users no_tables t rows
          tt)) in
    (
      host_in-reserved D (subdomain (codes "edge") D) srv.public_hosts
          (λ h u k.
            u.free (subdomain_inj u.user (codes "edge") D u.label edge-IsLabel d (sym u.named ∙ k)))
          named,
      host_in-reserved D D srv.public_hosts
          (λ h u k. subdomain-ne u.user D u.label d (sym u.named ∙ k)) named,
    )
