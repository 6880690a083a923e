-- ===== src/Perf/Options.antt =====
-- cmd/perf-client/main.go, `loadConfig`: the configuration of the load generator. Times are in
-- nanoseconds.
pub mod Accepted
pub mod Tests
use muxbridge.Base.{
  ℕ, Bool, true, false, Option, none, some, List, [], ◌∷◌, ◌++◌, if◌then◌else◌, Bytes, codes, same,
}
use muxbridge.Base.Text.{trim_space, to_lower}
use muxbridge.Base.Result.{Result, ok, err}
use muxbridge.Hostnames.{normalize_host, normalize_domain, validate_domain, subdomain}
use muxbridge.Server.State.{Signed, natural, negative}
use muxbridge.Edge.Config.{parse_bool_string}
use muxbridge.Perf.Scenario.{load_scenario}

pub record PerfConfig : Type 0 where
  pub public_host : Bytes
  pub public_domain : Bytes
  pub edge_addr : Bytes
  pub token : Bytes
  pub scenario : Bytes
  pub connections : Signed
  pub duration : Signed
  pub request_timeout : Signed
  pub ready_timeout : Signed
  pub debug : Bool

pub data ConfigError : Type 0 where
  flag_error : Bytes → ConfigError
  no_public_host invalid_public_host no_public_domain invalid_public_domain : ConfigError
  no_connections no_duration no_request_timeout no_ready_timeout : ConfigError
  unknown_scenario : Bytes → ConfigError

unfoldable pub default_string : Bytes → Bytes → Bytes
default_string value fallback = if same value [] then fallback else value

unfoldable pub is_positive : Signed → Bool
is_positive (natural ℕ.zero) = false
is_positive (natural (ℕ.suc n)) = true
is_positive (negative n) = false

-- The configuration before the flags.
unfoldable pub default_config : (Bytes → Bytes) → PerfConfig
unfolding default_string
default_config getenv = record {
  public_host = getenv (codes "MUXBRIDGE_PUBLIC_HOST");
  public_domain = getenv (codes "MUXBRIDGE_PUBLIC_DOMAIN");
  edge_addr = getenv (codes "MUXBRIDGE_EDGE_ADDR");
  token = default_string (getenv (codes "MUXBRIDGE_CLIENT_TOKEN")) (codes "perf-token");
  scenario = codes "mixed";
  connections = natural 1000;
  duration = natural 30_000_000_000;
  request_timeout = natural 10_000_000_000;
  ready_timeout = natural 30_000_000_000;
  debug = parse_bool_string (getenv (codes "MUXBRIDGE_DEBUG"));
}

unfoldable pub normalize_config : PerfConfig → PerfConfig
normalize_config c = record c {
  public_host = normalize_host c.public_host;
  public_domain = normalize_domain c.public_domain;
  edge_addr = trim_space c.edge_addr;
  token = trim_space c.token;
  scenario = to_lower (trim_space c.scenario);
}

-- The edge's address, from the domain where none is given.
unfoldable pub resolve_edge : PerfConfig → Result ConfigError PerfConfig
resolve_edge c =
    if same c.edge_addr []
    then (if same c.public_domain []
        then err no_public_domain
        else (elim (validate_domain c.public_domain) [
          | some e ↦ err invalid_public_domain
          | none ↦
              ok (record c { edge_addr = subdomain (codes "edge") c.public_domain ++ codes ":443" })
        ]))
    else ok c

unfoldable pub check_numbers : PerfConfig → Result ConfigError PerfConfig
unfolding is_positive
check_numbers c =
    if is_positive c.connections
    then (if is_positive c.duration
        then (if is_positive c.request_timeout
            then (if is_positive c.ready_timeout
                then (elim (load_scenario c.scenario) [
                  | err name ↦ err (unknown_scenario name)
                  | ok s ↦ ok c
                ])
                else err no_ready_timeout)
            else err no_request_timeout)
        else err no_duration)
    else err no_connections

unfoldable pub check_config : PerfConfig → Result ConfigError PerfConfig
check_config c =
    if same c.public_host [] then err no_public_host else (elim (validate_domain c.public_host) [
      | some e ↦ err invalid_public_host
      | none ↦ (elim (resolve_edge c) [ err e ↦ err e | ok c' ↦ check_numbers c' ])
    ])

-- `loadConfig`; `parse` is `flag`, from the configuration with the defaults and the arguments.
unfoldable pub load_config :
    (PerfConfig → List Bytes → Result Bytes PerfConfig)
    → List Bytes
    → (Bytes → Bytes)
    → Result ConfigError PerfConfig
load_config parse args getenv = elim (parse (default_config getenv) args) [
  | err e ↦ err (flag_error e)
  | ok c ↦ check_config (normalize_config c)
]

unfoldable pub public_base_url : PerfConfig → Bytes
public_base_url c = codes "https://" ++ c.public_host
