-- ===== src/Perf/Options/Accepted.antt =====
-- What an accepted configuration is good for.
use muxbridge.Base.{
  ◌≡◌, ◌≢◌, sym, ap, ◌∙◌, subst, true, none, List, [], ◌∷◌, ◌++◌, arith, Bytes, codes, same_iff,
}
use muxbridge.Base.Result.{Result, ok, err, then-eq-ok}
use muxbridge.Hostnames.{validate_domain, subdomain}
use muxbridge.Perf.Scenario.{Scenario, load_scenario}
use muxbridge.Perf.Options.{
  PerfConfig, ConfigError, flag_error, is_positive, default_config, normalize_config, resolve_edge,
  check_numbers, check_config, load_config,
}

abbrev pub IsRunnable : PerfConfig → Type 0
IsRunnable c =
    (validate_domain c.public_host ≡ none)
    × (c.edge_addr ≢ [])
    × (is_positive c.connections ≡ true)
    × (is_positive c.duration ≡ true)
    × (is_positive c.request_timeout ≡ true)
    × (is_positive c.ready_timeout ≡ true)
    × ((s : Scenario) × (load_scenario c.scenario ≡ ok s))

check_numbers-eq-ok :
    (c c' : PerfConfig)
    → check_numbers c ≡ ok c'
    → (c' ≡ c)
      × (is_positive c.connections ≡ true)
      × (is_positive c.duration ≡ true)
      × (is_positive c.request_timeout ≡ true)
      × (is_positive c.ready_timeout ≡ true)
      × ((s : Scenario) × (load_scenario c.scenario ≡ ok s))
unfolding check_numbers
check_numbers-eq-ok c c' g = ground arith

append-IsNotEmpty : (a b : Bytes) → b ≢ [] → a ++ b ≢ []
append-IsNotEmpty [] b n e = n e
append-IsNotEmpty (x ∷ a) b n e = cc

resolve_edge-eq-ok :
    (c c' : PerfConfig)
    → resolve_edge c ≡ ok c'
    → (c'.public_host ≡ c.public_host) × (c'.edge_addr ≢ [])
unfolding resolve_edge
resolve_edge-eq-ok c c' g = ground (
  arith,
  same_iff c.edge_addr [],
  append-IsNotEmpty (subdomain (codes "edge") c.public_domain) (codes ":443") (λ e. cc),
)

check_config-cases :
    (c c' : PerfConfig)
    → check_config c ≡ ok c'
    → (validate_domain c.public_host ≡ none)
      × ((e : PerfConfig) × (resolve_edge c ≡ ok e) × (check_numbers e ≡ ok c'))
unfolding check_config
check_config-cases c c' g =
    let valid : (validate_domain c.public_host ≡ none)
        × ((elim (resolve_edge c) as (λ x. Result ConfigError PerfConfig) [
          | err e ↦ err e
          | ok e ↦ check_numbers e
        ])
            ≡ ok c') =
      ground arith in
    (valid.0, then-eq-ok (resolve_edge c) check_numbers (λ e. e) c' valid.1)

check_config-eq-ok : (c c' : PerfConfig) → check_config c ≡ ok c' → IsRunnable c'
check_config-eq-ok c c' g =
    let (host, (e, edge, numbers)) = check_config-cases c c' g in
    let (same_host, some_edge) = resolve_edge-eq-ok c e edge in
    let (same_config, connections, duration, request, ready, scenario) =
      check_numbers-eq-ok e c' numbers in
    subst IsRunnable (sym same_config) (
      ap validate_domain same_host ∙ host,
      some_edge,
      connections,
      duration,
      request,
      ready,
      scenario,
    )

load_config-cases :
    (parse : PerfConfig → List Bytes → Result Bytes PerfConfig) (args : List Bytes)
    (getenv : Bytes → Bytes) (c : PerfConfig)
    → load_config parse args getenv ≡ ok c
    → (given : PerfConfig) × (parse (default_config getenv) args ≡ ok given)
      × (check_config (normalize_config given) ≡ ok c)
unfolding load_config
load_config-cases parse args getenv c g =
    then-eq-ok (parse (default_config getenv) args) (λ x. check_config (normalize_config x))
      flag_error c g

-- Whatever the arguments, the environment and the values that the flags give: a configuration that is
-- accepted has a valid host name to probe, an address of the edge, positive numbers of connections and
-- times, and the name of a scenario.
pub load_config-IsRunnable :
    (parse : PerfConfig → List Bytes → Result Bytes PerfConfig) (args : List Bytes)
    (getenv : Bytes → Bytes) (c : PerfConfig)
    → load_config parse args getenv ≡ ok c
    → IsRunnable c
load_config-IsRunnable parse args getenv c g =
    let (given, e, checked) = load_config-cases parse args getenv c g in
    check_config-eq-ok (normalize_config given) c checked
