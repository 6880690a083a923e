-- ===== src/Edge/Config/Accepted.antt =====
-- A configuration that is accepted makes a server.
use muxbridge.Base.{
  ℕ, ◌≡◌, ◌≢◌, ◌⊎◌, refl, sym, ap, ◌∙◌, subst, Bool, none, List, [], ◌∷◌, ◌++◌, arith, Bytes, codes,
  All, same_iff, bytes_eq, lookup, insert, lookup-insert, inl, inr,
}
use muxbridge.Base.Result.{Result, ok, err}
use muxbridge.Base.Text.{trim_space}
use muxbridge.Hostnames.{normalize_domain, validate_domain, subdomain}
use muxbridge.Hostnames.Labels.{validate_label_iff}
use muxbridge.Hostnames.Domains.{IsDomain, validate_domain_iff}
use muxbridge.Hostnames.Names.{normalize_host-IsDomain, normalize_label-IsLabel}
use muxbridge.Server.State.{Config, Server, Tables, no_tables, add_user, add_users, assemble, new}
use muxbridge.Edge.Config.{
  Credentials, no_credentials, add_entries, parse_credentials, Flags, Files, EdgeConfig,
  finish_config, with_flags, load_config, server_config, base_config, env_entries,
  resolve_positive_env_int, parse_bool_string,
}
use muxbridge.Edge.Config.Rows.{IsRow, Separate, add_entries-IsSound, no_credentials-IsSound}

add_user-ok :
    (domain token username : Bytes) (t : Tables)
    → IsRow (token, username)
    → lookup username t.tokens ≡ none
    → add_user domain token username t
      ≡ ok (record {
        users = insert token username t.users;
        hosts = subdomain username domain ∷ t.hosts;
        tokens = insert username token t.tokens;
      })
unfolding add_user
add_user-ok domain token username t row n = ground (
  arith,
  normalize_label-IsLabel username row.label,
  (validate_label_iff username).1 row.label,
  same_iff token [],
  same_iff username (codes "edge"),
)

fresh_rows :
    (username token : Bytes) (rows tokens : List (Bytes × Bytes))
    → All (λ row. row.1 ≢ username) rows
    → All (λ row. lookup row.1 tokens ≡ none) rows
    → All (λ row. lookup row.1 (insert username token tokens) ≡ none) rows
fresh_rows username token [] tokens f n = tt
fresh_rows username token ((t, u) ∷ rows) tokens f n = (
  ground (arith, f.0, n.0, same_iff username u, lookup-insert username u token tokens),
  fresh_rows username token rows tokens f.1 n.1,
)

add_users-ok :
    (domain : Bytes) (rows : List (Bytes × Bytes)) (t : Tables)
    → All IsRow rows
    → Separate rows
    → All (λ row. lookup row.1 t.tokens ≡ none) rows
    → (t' : Tables) × (add_users domain rows t ≡ ok t')
unfolding add_users
add_users-ok domain [] t r s f = (t, refl)
add_users-ok domain ((token, username) ∷ rows) t r s f =
    let next : Tables = record {
      users = insert token username t.users;
      hosts = subdomain username domain ∷ t.hosts;
      tokens = insert username token t.tokens;
    } in
    let (t', e) =
      add_users-ok domain rows next r.1 s.1 (fresh_rows username token rows t.tokens s.0 f.1) in
    (t', rw (add_user-ok domain token username t r.0 f.0, add_users) e)

no_users : (rows : List (Bytes × Bytes)) → All (λ row. lookup row.1 no_tables.tokens ≡ none) rows
unfolding lookup
no_users [] = tt
no_users (row ∷ rows) = (refl, no_users rows)

parse_credentials-eq-ok :
    (env_value : Bytes) (cli_values : List Bytes) (rows : List (Bytes × Bytes))
    → parse_credentials env_value cli_values ≡ ok rows
    → (c : Credentials) × (add_entries
          (env_entries (trim_space env_value) ++ cli_values)
          no_credentials
        ≡ ok c)
      × (c.users ≡ rows)
unfolding parse_credentials
parse_credentials-eq-ok env_value cli_values rows e = ground arith

pub finish_config-eq-ok :
    (getenv : Bytes → Bytes) (flags : Flags) (base c : EdgeConfig)
    → finish_config getenv flags base ≡ ok c
    → (rows : List (Bytes × Bytes)) × (validate_domain base.public_domain ≡ none)
      × (parse_credentials (getenv (codes "MUXBRIDGE_CLIENT_CREDENTIALS")) flags.client_credentials
          ≡ ok rows)
      × (c ≡ record base { client_credentials = rows })
unfolding finish_config
finish_config-eq-ok getenv flags base c e = ground arith

Result-cases {ℓ κ} :
    {E : Type ℓ} {A : Type κ} (r : Result E A) → ((e : E) × (r ≡ err e)) ⊎ ((x : A) × (r ≡ ok x))
Result-cases (err e) = inl (e, refl)
Result-cases (ok x) = inr (x, refl)

pub with_flags-eq-ok :
    (files : Files) (getenv : Bytes → Bytes) (flags : Flags) (c : EdgeConfig)
    → with_flags files getenv flags ≡ ok c
    → (max_inflight : ℕ) × (max_total : ℕ) × (finish_config getenv flags
          (base_config files getenv flags max_inflight max_total)
        ≡ ok c)
unfolding with_flags
with_flags-eq-ok files getenv flags c e =
    elim (Result-cases
      (resolve_positive_env_int getenv (codes "MUXBRIDGE_MAX_INFLIGHT_PER_SESSION"))) [
        | inl (x, g) ↦ absurd (ground arith)
        | inr (n, g) ↦
            (elim (Result-cases
              (resolve_positive_env_int getenv (codes "MUXBRIDGE_MAX_TOTAL_INFLIGHT"))) [
                | inl (y, h) ↦ absurd (ground arith)
                | inr (m, h) ↦ (n, m, ground arith)
              ])
      ]

pub load_config-eq-ok :
    (parse : Bool → List Bytes → Result Bytes Flags) (files : Files) (args : List Bytes)
    (getenv : Bytes → Bytes) (c : EdgeConfig)
    → load_config parse files args getenv ≡ ok c
    → (flags : Flags) × (with_flags files getenv flags ≡ ok c)
unfolding load_config
load_config-eq-ok parse files args getenv c e =
    elim (Result-cases (parse (parse_bool_string (getenv (codes "MUXBRIDGE_DEBUG"))) args)) [
      | inl (x, g) ↦ absurd (ground arith)
      | inr (flags, g) ↦ (flags, ground arith)
    ]

valid_again :
    (raw : Bytes) → validate_domain raw ≡ none → validate_domain (normalize_domain raw) ≡ none
unfolding normalize_domain
valid_again raw v =
    let d = (validate_domain_iff raw).0 v in
    (validate_domain_iff (normalize_domain raw)).1
      (subst IsDomain (sym (normalize_host-IsDomain (normalize_domain raw) d)) d)

new-ok :
    (cfg : Config) (t : Tables)
    → validate_domain (normalize_domain cfg.public_domain) ≡ none
    → add_users (normalize_domain cfg.public_domain) cfg.token_users no_tables ≡ ok t
    → (srv : Server) × (new cfg ≡ ok srv)
unfolding new
new-ok cfg t v u = (assemble cfg (normalize_domain cfg.public_domain) t, rw (v, u, new) refl)

-- A configuration that was loaded makes a server: whatever the flags, the files and the environment,
-- `New` cannot refuse the domain and the credentials that `loadConfig` has accepted.
pub load_config-new :
    (parse : Bool → List Bytes → Result Bytes Flags) (files : Files) (args : List Bytes)
    (getenv : Bytes → Bytes) (c : EdgeConfig)
    → load_config parse files args getenv ≡ ok c
    → (srv : Server) × (new (server_config c) ≡ ok srv)
unfolding server_config
load_config-new parse files args getenv c e =
    let (flags, e1) = load_config-eq-ok parse files args getenv c e in
    let (n, m, e2) = with_flags-eq-ok files getenv flags c e1 in
    let base = base_config files getenv flags n m in
    let (rows, valid, parsed, made) = finish_config-eq-ok getenv flags base c e2 in
    let (creds, added, users) =
      parse_credentials-eq-ok (getenv (codes "MUXBRIDGE_CLIENT_CREDENTIALS"))
        flags.client_credentials rows parsed in
    let sound = add_entries-IsSound _ no_credentials creds added no_credentials-IsSound in
    let same_rows : creds.users ≡ c.client_credentials =
      users ∙ sym (ap (λ x. x.client_credentials) made) in
    let domain : validate_domain c.public_domain ≡ none =
      ap (λ x. validate_domain x.public_domain) made ∙ valid in
    let (t, accepted) =
      add_users-ok (normalize_domain c.public_domain) c.client_credentials no_tables
        (subst (All IsRow) same_rows sound.rows) (subst Separate same_rows sound.separate)
        (no_users c.client_credentials) in
    new-ok (server_config c) t (valid_again c.public_domain domain) accepted
