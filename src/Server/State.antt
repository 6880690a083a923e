-- ===== src/Server/State.antt =====
-- server/server.go, `Server`: its construction, the slot counter and the table of sessions. A session
-- object is known by its id, and `objects` holds every object that was made. The counters are
-- unsigned 64-bit words; the slot counter never falls below 0 (Admission/Accounting).
pub mod Construction
use muxbridge.Base.{
  ℕ, zero, suc, ◌+◌, ◌-◌, ◌%◌, ◌^◌, Bool, true, false, not, ◌&&◌, ◌||◌, Option, none, some, List,
  [], ◌∷◌, ◌++◌, map, ltb, leb, ◌==◌, if◌then◌else◌, length, Bytes, codes, same, lookup, insert,
  delete, nat_eq, bytes_eq,
}
use muxbridge.Base.Result.{Result, ok, err}
use muxbridge.Hostnames.{
  LabelError, DomainError, normalize_domain, normalize_host, normalize_label, subdomain,
  validate_domain, validate_label,
}
use muxbridge.Server.Session.{Session, try_start, del, shutdown}

abbrev pub default_max_inflight_per_session : ℕ
default_max_inflight_per_session = 128

abbrev pub default_max_total_inflight : ℕ
default_max_total_inflight = 512

-- Ten seconds, in nanoseconds.
abbrev pub default_heartbeat : ℕ
default_heartbeat = 10_000_000_000

-- A Go integer: `negative n` is -(n + 1).
pub data Signed : Type 0 where
  natural : ℕ → Signed
  negative : ℕ → Signed

pub record Config : Type 0 where
  pub public_domain : Bytes
  pub token_users : List (Bytes × Bytes)
  pub heartbeat_interval : Signed
  pub max_inflight_per_session : Signed
  pub max_total_inflight : Signed

pub record Server : Type 0 where
  pub public_domain : Bytes
  pub token_users : List (Bytes × Bytes)
  pub public_hosts : List Bytes
  pub heartbeat : ℕ
  pub max_inflight : ℕ
  pub max_total_inflight : ℕ
  pub total_inflight : ℕ
  pub sessions : List (Bytes × ℕ)
  pub next_session_id : ℕ
  pub next_request_id : ℕ
  pub objects : List (ℕ × Session)

pub data ConfigError : Type 0 where
  invalid_domain : DomainError → ConfigError
  empty_token reserved_username duplicate_username : ConfigError
  invalid_username : LabelError → ConfigError

-- The tables that `New` fills: tokens to users, public hosts, users to tokens.
pub record Tables : Type 0 where
  pub users : List (Bytes × Bytes)
  pub hosts : List Bytes
  pub tokens : List (Bytes × Bytes)

abbrev pub no_tables : Tables
no_tables = record { users = []; hosts = []; tokens = [] }

-- One round of the loop of `New`.
unfoldable pub add_user : Bytes → Bytes → Bytes → Tables → Result ConfigError Tables
add_user domain token raw t =
    if same token []
    then err empty_token
    else let username = normalize_label raw in
      elim (validate_label username) [
        | some e ↦ err (invalid_username e)
        | none ↦
            if same username (codes "edge")
            then err reserved_username
            else (elim (lookup username t.tokens) [
              | some previous ↦ err duplicate_username
              | none ↦ ok (record {
                users = insert token username t.users;
                hosts = subdomain username domain ∷ t.hosts;
                tokens = insert username token t.tokens;
              })
            ])
      ]

unfoldable pub add_users : Bytes → List (Bytes × Bytes) → Tables → Result ConfigError Tables
add_users domain [] t = ok t
add_users domain ((token, username) ∷ rest) t = elim (add_user domain token username t) [
  | err e ↦ err e
  | ok t' ↦ add_users domain rest t'
]

-- `if v <= 0 { v = d }`
unfoldable pub positive_or : Signed → ℕ → ℕ
positive_or (natural zero) d = d
positive_or (natural (suc n)) d = suc n
positive_or (negative n) d = d

unfoldable pub assemble : Config → Bytes → Tables → Server
assemble cfg domain t = record {
  public_domain = domain;
  token_users = t.users;
  public_hosts = t.hosts;
  heartbeat = positive_or cfg.heartbeat_interval default_heartbeat;
  max_inflight = positive_or cfg.max_inflight_per_session default_max_inflight_per_session;
  max_total_inflight = positive_or cfg.max_total_inflight default_max_total_inflight;
  total_inflight = 0;
  sessions = [];
  next_session_id = 0;
  next_request_id = 0;
  objects = [];
}

-- `New`
unfoldable pub new : Config → Result ConfigError Server
new cfg =
    let domain = normalize_domain cfg.public_domain in
    elim (validate_domain domain) [
      | some e ↦ err (invalid_domain e)
      | none ↦ (elim (add_users domain cfg.token_users no_tables) [
        | err e ↦ err e
        | ok t ↦ ok (assemble cfg domain t)
      ])
    ]

unfoldable pub host_in : Bytes → List Bytes → Bool
host_in host [] = false
host_in host (h ∷ hs) = same h host || host_in host hs

unfoldable pub has_public_host : Server → Bytes → Bool
has_public_host srv host = host_in (normalize_host host) srv.public_hosts

-- `Add(1)` of an `atomic.Uint64`
unfoldable pub increment : ℕ → ℕ
increment n = (n + 1) % 2 ^ 64

-- `none` is a refusal. The compare-and-swap loop is one atomic step.
unfoldable pub try_reserve_global_slot : Server → Option Server
try_reserve_global_slot srv =
    if srv.max_total_inflight == 0
    then some (record srv { total_inflight = srv.total_inflight + 1 })
    else if leb srv.max_total_inflight srv.total_inflight
    then none
    else some (record srv { total_inflight = srv.total_inflight + 1 })

unfoldable pub release_global_slots : ℕ → Server → Server
release_global_slots count srv =
    if count == 0 then srv else record srv { total_inflight = srv.total_inflight - count }

pub data InflightLimit : Type 0 where
  inflight_limit_none inflight_limit_per_session inflight_limit_total : InflightLimit

-- The session object with the id `sid` replaced.
unfoldable pub store : ℕ → Session → Server → Server
store sid s srv = record srv { objects = insert sid s srv.objects }

-- What follows `s.tryReserveGlobalSlot()`: the request object is made where there is no limit met.
unfoldable pub start_reserved : ℕ → ℕ → Option Session → Server → InflightLimit × Server
start_reserved sid id none srv = (inflight_limit_per_session, release_global_slots 1 srv)
start_reserved sid id (some s) srv = elim (try_start id srv.max_inflight s) [
  | none ↦ (inflight_limit_per_session, release_global_slots 1 srv)
  | some s' ↦ (inflight_limit_none, store sid s' srv)
]

unfoldable pub try_start_request : ℕ → ℕ → Server → InflightLimit × Server
unfolding start_reserved
try_start_request sid id srv = elim (try_reserve_global_slot srv) [
  | none ↦ (inflight_limit_total, srv)
  | some reserved ↦ start_reserved sid id (lookup sid reserved.objects) reserved
]

unfoldable pub finish_started : ℕ → Session × Bool → Server → Server
finish_started sid (s, true) srv = release_global_slots 1 (store sid s srv)
finish_started sid (s, false) srv = srv

unfoldable pub finish_request : ℕ → ℕ → Server → Server
unfolding finish_started
finish_request sid id srv = elim (lookup sid srv.objects) [
  | none ↦ srv
  | some s ↦ finish_started sid (del id s) srv
]

-- `s.releaseGlobalSlots(session.shutdown(err))`
unfoldable pub shut_session : ℕ → Option Bytes → Server → Server
shut_session sid e srv = elim (lookup sid srv.objects) [
  | none ↦ srv
  | some s ↦ let (s', released) = shutdown e s in release_global_slots released (store sid s' srv)
]

abbrev pub err_session_closed : Bytes
err_session_closed = codes "tunnel session closed"

abbrev pub err_session_replaced : Bytes
err_session_replaced = codes "tunnel session replaced by a newer connection"

unfoldable pub get_session : Bytes → Server → Option ℕ
get_session host srv = lookup host srv.sessions

unfoldable pub replace_session : Option ℕ → ℕ → Server → Server
replace_session none sid srv = srv
replace_session (some old) sid srv =
    if old == sid then srv else shut_session old (some err_session_replaced) srv

unfoldable pub put_session : Bytes → ℕ → Server → Server
unfolding replace_session
put_session host sid srv =
    replace_session (lookup host srv.sessions) sid
      (record srv { sessions = insert host sid srv.sessions })

unfoldable pub remove_found : Bytes → ℕ → Option ℕ → Server → Server
remove_found host sid none srv = srv
remove_found host sid (some current) srv =
    if current == sid then record srv { sessions = delete host srv.sessions } else srv

unfoldable pub remove_session : Bytes → ℕ → Server → Server
unfolding remove_found
remove_session host sid srv = remove_found host sid (lookup host srv.sessions) srv
