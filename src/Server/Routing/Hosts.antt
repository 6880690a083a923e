-- ===== src/Server/Routing/Hosts.antt =====
-- The hosts of a server, as `New` makes them from the users' tokens.
use muxbridge.Base.{
  ℕ, subst, ◌≡◌, ◌≢◌, refl, sym, ap, Bool, true, Option, none, some, List, [], ◌∷◌, arith, Bytes,
  same_iff, same_refl, bytes_eq, nat_eq, lookup, insert, lookup-insert, All, All-mono,
}
use muxbridge.Base.Result.{ok}
use muxbridge.Base.Text.{to_lower}
use muxbridge.Hostnames.{
  normalize_host, normalize_domain, normalize_label, subdomain, validate_label,
}
use muxbridge.Hostnames.Labels.{IsLabel, validate_label_iff}
use muxbridge.Hostnames.Domains.{IsDomain}
use muxbridge.Hostnames.Names.{
  subdomain-IsDomain, subdomain_inj, normalize_host-IsDomain, normalize_host_variants,
}
use muxbridge.Headers.{Headers}
use muxbridge.Server.Session.{Session}
use muxbridge.Server.State.{
  Config, Server, Tables, no_tables, add_user, add_users, assemble, new, host_in, has_public_host,
  get_session,
}
use muxbridge.Server.State.Construction.{new-eq-ok}
use muxbridge.Server.Routing.{Entry, no_tunnel, serve_entry, start_on, wants_websocket}
use muxbridge.Server.Routing.Starts.{IsStarted, start_on-IsStarted}

insert-All :
    (P : Bytes × Bytes → Type 0) (k v : Bytes) (m : List (Bytes × Bytes))
    → All P m
    → P (k, v)
    → All P (insert k v m)
unfolding insert
insert-All P k v [] h p = (p, tt)
insert-All P k v ((j, w) ∷ m) h p = ground (arith, insert-All P k v m h.1 p)

lookup-All :
    (P : Bytes × Bytes → Type 0) (k v : Bytes) (m : List (Bytes × Bytes))
    → All P m
    → lookup k m ≡ some v
    → P (k, v)
unfolding lookup
lookup-All P k v [] h x = cc
lookup-All P k v ((j, w) ∷ m) h x = ground (arith, same_iff j k, lookup-All P k v m h.1)

-- A token's user has a valid name, a public host, and no other token.
record IsEntered (domain : Bytes) (t : Tables) (entry : Bytes × Bytes) : Type 0 where
  label : IsLabel entry.1
  public : host_in (subdomain entry.1 domain) t.hosts ≡ true
  only : lookup entry.1 t.tokens ≡ some entry.0

IsEntered-grown :
    (domain token username : Bytes) (t t' : Tables) (entry : Bytes × Bytes)
    → t'.hosts ≡ subdomain username domain ∷ t.hosts
    → t'.tokens ≡ insert username token t.tokens
    → lookup username t.tokens ≡ none
    → IsEntered domain t entry
    → IsEntered domain t' entry
unfolding host_in
IsEntered-grown domain token username t t' entry h k n p = record {
  label = p.label;
  public = ground arith;
  only = ground (arith, same_iff username entry.1, lookup-insert username entry.1 token t.tokens);
}

-- What a row that is accepted adds.
add_user-eq-ok :
    (domain token raw : Bytes) (t t' : Tables)
    → add_user domain token raw t ≡ ok t'
    → (validate_label (normalize_label raw) ≡ none)
      × (lookup (normalize_label raw) t.tokens ≡ none)
      × (t' ≡ record {
        users = insert token (normalize_label raw) t.users;
        hosts = subdomain (normalize_label raw) domain ∷ t.hosts;
        tokens = insert (normalize_label raw) token t.tokens;
      })
unfolding add_user
add_user-eq-ok domain token raw t t' e = ground arith

add_user-IsEntered :
    (domain token raw : Bytes) (t t' : Tables)
    → add_user domain token raw t ≡ ok t'
    → All (IsEntered domain t) t.users
    → All (IsEntered domain t') t'.users
unfolding host_in
add_user-IsEntered domain token raw t t' e h =
    let name = normalize_label raw in
    let made = add_user-eq-ok domain token raw t t' e in
    let (hosts, tokens) : (t'.hosts ≡ subdomain name domain ∷ t.hosts)
        × (t'.tokens ≡ insert name token t.tokens) =
      (ground arith, ground arith) in
    let users : t'.users ≡ insert token name t.users = ground arith in
    subst (All (IsEntered domain t')) (sym users) (
      insert-All (IsEntered domain t') token name t.users
        (All-mono t.users
          (λ entry p. IsEntered-grown domain token name t t' entry hosts tokens made.1 p) h)
        (record {
          label = (validate_label_iff name).0 made.0;
          public = ground (arith, same_refl (subdomain name domain));
          only = ground (arith, same_refl name, lookup-insert name name token t.tokens);
        }))

pub add_users-eq-ok :
    (domain token raw : Bytes) (rows : List (Bytes × Bytes)) (t t' : Tables)
    → add_users domain ((token, raw) ∷ rows) t ≡ ok t'
    → (u : Tables) × (add_user domain token raw t ≡ ok u) × (add_users domain rows u ≡ ok t')
unfolding add_users
add_users-eq-ok domain token raw rows t t' e = ground arith

add_users-IsEntered :
    (domain : Bytes) (rows : List (Bytes × Bytes)) (t t' : Tables)
    → add_users domain rows t ≡ ok t'
    → All (IsEntered domain t) t.users
    → All (IsEntered domain t') t'.users
unfolding add_users
add_users-IsEntered domain [] t t' e h = ground arith
add_users-IsEntered domain ((token, raw) ∷ rows) t t' e h =
    let (u, one, rest) = add_users-eq-ok domain token raw rows t t' e in
    add_users-IsEntered domain rows u t' rest (add_user-IsEntered domain token raw t u one h)

-- The users of a new server.
new-IsEntered :
    (cfg : Config) (srv : Server)
    → new cfg ≡ ok srv
    → (t : Tables) × All (IsEntered (normalize_domain cfg.public_domain) t) t.users
      × (srv.token_users ≡ t.users)
      × (srv.public_hosts ≡ t.hosts)
      × (srv.public_domain ≡ normalize_domain cfg.public_domain)
unfolding assemble
new-IsEntered cfg srv e =
    let (t, valid, rows, made) = new-eq-ok cfg srv e in
    let entered =
      add_users-IsEntered (normalize_domain cfg.public_domain) cfg.token_users no_tables t rows
        tt in
    (
      t,
      entered,
      ap (λ s. s.token_users) made,
      ap (λ s. s.public_hosts) made,
      ap (λ s. s.public_domain) made,
    )

-- On a server whose public domain is a valid domain once normalized, two tokens never share a host.
pub token_host_inj :
    (cfg : Config) (srv : Server) (token other username name : Bytes)
    → IsDomain (normalize_domain cfg.public_domain)
    → new cfg ≡ ok srv
    → lookup token srv.token_users ≡ some username
    → lookup other srv.token_users ≡ some name
    → token ≢ other
    → subdomain username srv.public_domain ≢ subdomain name srv.public_domain
token_host_inj cfg srv token other username name d e l m distinct h =
    let (t, entered, users, hosts, domain) = new-IsEntered cfg srv e in
    let D = normalize_domain cfg.public_domain in
    let p = lookup-All (IsEntered D t) token username t.users entered (rw users at l) in
    let q = lookup-All (IsEntered D t) other name t.users entered (rw users at m) in
    let names = subdomain_inj username name D p.label q.label d (rw domain at h) in
    distinct (cc (p.only, q.only, names))

-- What becomes of a request for a host, by the route that the host has.
abbrev pub IsServed : Bool → Option ℕ → Server → Entry × Server → Type 0
IsServed ws none srv r = r ≡ (no_tunnel, srv)
IsServed ws (some sid) srv r =
    (s : Session) × (lookup sid srv.objects ≡ some s) × IsStarted ws sid s srv r

route-IsServed :
    (ws : Bool) (o : Option ℕ) (srv : Server)
    → ((sid : ℕ) → o ≡ some sid → (s : Session) × (lookup sid srv.objects ≡ some s))
    → IsServed ws o srv (elim o [ none ↦ (no_tunnel, srv) | some sid ↦ start_on ws sid srv ])
route-IsServed ws none srv known = refl
route-IsServed ws (some sid) srv known =
    let (s, g) = known sid refl in (s, g, start_on-IsStarted ws sid s srv g)

serve_entry-route :
    (raw host : Bytes) (h : Headers) (srv : Server)
    → normalize_host raw ≡ host
    → normalize_host host ≡ host
    → host_in host srv.public_hosts ≡ true
    → serve_entry raw h srv ≡ (elim (get_session host srv) [
      | none ↦ (no_tunnel, srv)
      | some sid ↦ start_on (wants_websocket h) sid srv
    ])
unfolding serve_entry has_public_host
serve_entry-route raw host h srv normal again public = rw (normal, again, public)

-- On a server whose public domain is a valid domain once normalized, and in any state that has the
-- hosts of the new server and in which the host's route, if any, leads to a session, a request for
-- the host of a configured user, spelled in any case, is never turned away as unknown. While the
-- host has no tunnel it is refused for that. Where its tunnel is a session it is refused for the
-- server's limit if that is set and met; else for the session's if that is set and met; and else it
-- is started on that session under the next id, as a socket if it asks for one: it is one more in
-- flight, and the session has its id, among its sockets' too if it is one.
pub serve_entry_lem :
    (cfg : Config) (first srv : Server) (token username raw : Bytes) (h : Headers)
    → IsDomain (normalize_domain cfg.public_domain)
    → new cfg ≡ ok first
    → lookup token first.token_users ≡ some username
    → srv.public_hosts ≡ first.public_hosts
    → to_lower raw ≡ subdomain username first.public_domain
    → ((sid : ℕ)
        → get_session (subdomain username first.public_domain) srv ≡ some sid
        → (s : Session) × (lookup sid srv.objects ≡ some s))
    → IsServed
        (wants_websocket h)
        (get_session (subdomain username first.public_domain) srv)
        srv
        (serve_entry raw h srv)
serve_entry_lem cfg first srv token username raw h d e l same_hosts spelled known =
    let (t, entered, users, hosts, domain) = new-IsEntered cfg first e in
    let D = normalize_domain cfg.public_domain in
    let p = lookup-All (IsEntered D t) token username t.users entered (rw users at l) in
    let valid : IsDomain (subdomain username first.public_domain) =
      subst (λ x. IsDomain (subdomain username x)) (sym domain)
        (subdomain-IsDomain username D p.label d) in
    let normal =
      (normalize_host_variants raw (subdomain username first.public_domain) [] valid spelled
        tt).0 in
    let again = normalize_host-IsDomain (subdomain username first.public_domain) valid in
    let public : host_in (subdomain username first.public_domain) srv.public_hosts ≡ true =
      cc (p.public, same_hosts, hosts, domain) in
    subst
      (IsServed (wants_websocket h) (get_session (subdomain username first.public_domain) srv) srv)
      (sym
        (serve_entry-route raw (subdomain username first.public_domain) h srv normal again public))
      (route-IsServed (wants_websocket h) (get_session (subdomain username first.public_domain) srv)
        srv known)
