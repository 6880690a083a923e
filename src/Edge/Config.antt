-- ===== src/Edge/Config.antt =====
-- cmd/edge/config.go: the configuration of the edge, from its flags and its environment.
mod Rows
pub mod Accepted
pub mod Tests
use muxbridge.Base.{
  ℕ, ◌+◌, ◌*◌, ◌-◌, ◌^◌, Bool, true, false, not, ◌&&◌, ◌||◌, Option, none, some, List, [], ◌∷◌,
  ◌++◌, ltb, leb, ◌==◌, if◌then◌else◌, map, Bytes, codes, same, lookup, insert, bytes_eq,
}
use muxbridge.Base.Result.{Result, ok, err}
use muxbridge.Base.Text.{trim_space, to_lower, split, cut}
use muxbridge.Hostnames.{
  normalize_domain, validate_domain, normalize_label, validate_label, subdomain,
}
use muxbridge.Server.State.{Config, Signed, natural, negative}

pub data LoadError : Type 0 where
  flag_error : Bytes → LoadError
  not_a_number not_positive : Bytes → LoadError
  invalid_domain : LoadError
  lone_tls_file : LoadError
  empty_entry no_separator empty_token invalid_username reserved_username : LoadError
  duplicate_token duplicate_username : Bytes → LoadError

unfoldable pub check_credential : Bytes → Bytes → Result LoadError (Bytes × Bytes)
check_credential token username =
    if same token [] then err empty_token else elim (validate_label username) [
      | some e ↦ err invalid_username
      | none ↦ if same username (codes "edge") then err reserved_username else ok (token, username)
    ]

unfoldable pub parse_entry : Bytes → Result LoadError (Bytes × Bytes)
unfolding check_credential
parse_entry entry = if same entry [] then err empty_entry else (elim (cut b'=' entry) [
  | none ↦ err no_separator
  | some (token, username) ↦ check_credential (trim_space token) (normalize_label username)
])

unfoldable pub parse_credential : Bytes → Result LoadError (Bytes × Bytes)
unfolding parse_entry
parse_credential entry = parse_entry (trim_space entry)

-- `credentials` and `userTokens`
pub record Credentials : Type 0 where
  pub users : List (Bytes × Bytes)
  pub tokens : List (Bytes × Bytes)

abbrev pub no_credentials : Credentials
no_credentials = record { users = []; tokens = [] }

unfoldable pub add_credential : Bytes → Bytes → Credentials → Result LoadError Credentials
add_credential token username c = elim (lookup token c.users) [
  | some previous ↦ err (duplicate_token token)
  | none ↦ (elim (lookup username c.tokens) [
    | some previous ↦ err (duplicate_username username)
    | none ↦
        ok (record {
          users = insert token username c.users;
          tokens = insert username token c.tokens;
        })
  ])
]

unfoldable pub add_entry : Bytes → Credentials → Result LoadError Credentials
add_entry entry c = elim (parse_credential entry) [
  | err e ↦ err e
  | ok (token, username) ↦ add_credential token username c
]

unfoldable pub add_entries : List Bytes → Credentials → Result LoadError Credentials
add_entries [] c = ok c
add_entries (entry ∷ entries) c = elim (add_entry entry c) [
  | err e ↦ err e
  | ok c' ↦ add_entries entries c'
]

unfoldable pub split_credential_env : Bytes → List Bytes
split_credential_env value = map trim_space (split b',' value)

env_entries : Bytes → List Bytes
env_entries trimmed = if same trimmed [] then [] else split_credential_env trimmed

unfoldable pub parse_credentials : Bytes → List Bytes → Result LoadError (List (Bytes × Bytes))
unfolding env_entries
parse_credentials env_value cli_values =
    elim (add_entries (env_entries (trim_space env_value) ++ cli_values) no_credentials) [
      | err e ↦ err e
      | ok c ↦ ok c.users
    ]

-- `strconv.Atoi` of a text in decimal, with a sign or none; `none` is its error.
digits : ℕ → Bytes → Option ℕ
digits n [] = some n
digits n (b ∷ bs) =
    let rest = digits (10 * n + (b - b'0')) bs in if leb b'0' b && leb b b'9' then rest else none

some_digits : Bytes → Option ℕ
unfolding digits
some_digits [] = none
some_digits (b ∷ bs) = digits 0 (b ∷ bs)

in_range : Option ℕ → Option Signed
in_range none = none
in_range (some n) = if ltb n (2 ^ 63) then some (natural n) else none

-- A number below zero, `negative n` being `- (n + 1)`.
below_zero : Option ℕ → Option Signed
below_zero none = none
below_zero (some n) =
    if n == 0 then some (natural 0) else if leb n (2 ^ 63) then some (negative (n - 1)) else none

unfoldable pub atoi : Bytes → Option Signed
unfolding some_digits in_range below_zero
atoi [] = none
atoi (b ∷ bs) =
    if b == b'-'
    then below_zero (some_digits bs)
    else in_range (some_digits (if b == b'+' then bs else b ∷ bs))

positive : Bytes → Option Signed → Result LoadError ℕ
positive key none = err (not_a_number key)
positive key (some (negative n)) = err (not_positive key)
positive key (some (natural n)) = if n == 0 then err (not_positive key) else ok n

-- The value of the environment's `key`; 0 where it is not set.
unfoldable pub resolve_positive_env_int : (Bytes → Bytes) → Bytes → Result LoadError ℕ
unfolding positive
resolve_positive_env_int getenv key =
    let value = trim_space (getenv key) in if same value [] then ok 0 else positive key (atoi value)

unfoldable pub parse_bool_string : Bytes → Bool
parse_bool_string value =
    let v = to_lower (trim_space value) in
    same v (codes "1")
    || same v (codes "t")
    || same v (codes "true")
    || same v (codes "y")
    || same v (codes "yes")
    || same v (codes "on")

-- `filepath.Clean`, `filepath.Join` of a home directory with the names below it, and
-- `os.UserHomeDir`, whose error is `none`.
pub record Files : Type 0 where
  pub clean : Bytes → Bytes
  pub join_home : Bytes → Bytes
  pub home : Option Bytes

home_dir : Files → Option Bytes → Bytes
home_dir files none = files.clean (codes "muxbridge-data")
home_dir files (some home) =
    if same (trim_space home) [] then files.clean (codes "muxbridge-data") else files.join_home home

unfoldable pub resolve_data_dir : Files → (Bytes → Bytes) → Bytes
unfolding home_dir
resolve_data_dir files getenv =
    let first = trim_space (getenv (codes "MUXBRIDGH_DATA")) in
    let second = trim_space (getenv (codes "MUXBRIDGE_DATA")) in
    if not (same first [])
    then files.clean first
    else if not (same second [])
    then files.clean second
    else home_dir files files.home

-- The flags, as `flag` reads them from the arguments with a default for `debug`.
pub record Flags : Type 0 where
  pub public_domain : Bytes
  pub tls_cert_file : Bytes
  pub tls_key_file : Bytes
  pub debug : Bool
  pub client_credentials : List Bytes

pub record EdgeConfig : Type 0 where
  pub public_domain : Bytes
  pub edge_domain : Bytes
  pub client_credentials : List (Bytes × Bytes)
  pub tls_cert_file : Bytes
  pub tls_key_file : Bytes
  pub debug : Bool
  pub data_dir : Bytes
  pub max_inflight_per_session : ℕ
  pub max_total_inflight : ℕ

-- The key of the environment for a flag that is not given.
given_or : Bytes → Bytes → Bytes
given_or given other = if same given [] then other else given

-- The configuration without its credentials.
unfoldable pub base_config : Files → (Bytes → Bytes) → Flags → ℕ → ℕ → EdgeConfig
unfolding given_or
base_config files getenv flags max_inflight max_total =
    let domain =
      normalize_domain (given_or flags.public_domain (getenv (codes "MUXBRIDGE_PUBLIC_DOMAIN"))) in
    record {
      public_domain = domain;
      edge_domain = subdomain (codes "edge") domain;
      client_credentials = [];
      tls_cert_file =
          given_or flags.tls_cert_file (trim_space (getenv (codes "MUXBRIDGE_TLS_CERT_FILE")));
      tls_key_file =
          given_or flags.tls_key_file (trim_space (getenv (codes "MUXBRIDGE_TLS_KEY_FILE")));
      debug = flags.debug;
      data_dir = resolve_data_dir files getenv;
      max_inflight_per_session = max_inflight;
      max_total_inflight = max_total;
    }

same_test : Bool → Bool → Bool
same_test true b = b
same_test false b = not b

-- The checks behind the numbers, and the credentials.
unfoldable pub finish_config : (Bytes → Bytes) → Flags → EdgeConfig → Result LoadError EdgeConfig
unfolding same_test
finish_config getenv flags c = elim (validate_domain c.public_domain) [
  | some e ↦ err invalid_domain
  | none ↦
      if same_test (same c.tls_cert_file []) (same c.tls_key_file [])
      then (elim (parse_credentials (getenv (codes "MUXBRIDGE_CLIENT_CREDENTIALS"))
          flags.client_credentials) [
            | err e ↦ err e
            | ok credentials ↦ ok (record c { client_credentials = credentials })
          ])
      else err lone_tls_file
]

unfoldable pub with_flags : Files → (Bytes → Bytes) → Flags → Result LoadError EdgeConfig
with_flags files getenv flags =
    elim (resolve_positive_env_int getenv (codes "MUXBRIDGE_MAX_INFLIGHT_PER_SESSION")) [
      | err e ↦ err e
      | ok max_inflight ↦
          (elim (resolve_positive_env_int getenv (codes "MUXBRIDGE_MAX_TOTAL_INFLIGHT")) [
            | err e ↦ err e
            | ok max_total ↦
                finish_config getenv flags (base_config files getenv flags max_inflight max_total)
          ])
    ]

-- `loadConfig`; `parse` is `flag`, from the default of `debug` and the arguments.
unfoldable pub load_config :
    (Bool → List Bytes → Result Bytes Flags)
    → Files
    → List Bytes
    → (Bytes → Bytes)
    → Result LoadError EdgeConfig
load_config parse files args getenv =
    elim (parse (parse_bool_string (getenv (codes "MUXBRIDGE_DEBUG"))) args) [
      | err e ↦ err (flag_error e)
      | ok flags ↦ with_flags files getenv flags
    ]

-- The order of Go strings: byte by byte.
unfoldable pub before_or_same : Bytes → Bytes → Bool
before_or_same [] t = true
before_or_same (b ∷ bs) [] = false
before_or_same (b ∷ bs) (c ∷ cs) = ltb b c || b == c && before_or_same bs cs

insert_sorted : Bytes → List Bytes → List Bytes
insert_sorted x [] = x ∷ []
insert_sorted x (y ∷ ys) = if before_or_same x y then x ∷ y ∷ ys else y ∷ insert_sorted x ys

-- `sort.Strings`
unfoldable pub sort_strings : List Bytes → List Bytes
unfolding insert_sorted
sort_strings [] = []
sort_strings (x ∷ xs) = insert_sorted x (sort_strings xs)

users_of : List (Bytes × Bytes) → List Bytes
users_of [] = []
users_of ((token, username) ∷ rest) = username ∷ users_of rest

unfoldable pub sorted_users : EdgeConfig → List Bytes
unfolding users_of
sorted_users c = sort_strings (users_of c.client_credentials)

unfoldable pub managed_hosts : EdgeConfig → List Bytes
managed_hosts c =
    c.public_domain
    ∷ c.edge_domain
    ∷ map (λ username. subdomain username c.public_domain) (sorted_users c)

-- cmd/edge/main.go: what the edge makes its server with.
unfoldable pub server_config : EdgeConfig → Config
server_config c = record {
  public_domain = c.public_domain;
  token_users = c.client_credentials;
  heartbeat_interval = natural 0;
  max_inflight_per_session = natural c.max_inflight_per_session;
  max_total_inflight = natural c.max_total_inflight;
}
