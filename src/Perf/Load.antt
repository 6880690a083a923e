-- ===== src/Perf/Load.antt =====
-- cmd/perf-client/main.go: `runLoad` up to its clients, one request of a worker, the waits for the public
-- host and for the tunnel client, and `run`, which puts them together.
pub mod Waits
pub mod Tests
use muxbridge.Base.{
  ℕ, zero, suc, ◌+◌, ◌-◌, Bool, true, false, Option, none, some, List, [], ◌∷◌, ◌++◌, ◌==◌,
  if◌then◌else◌, Bytes, codes, same,
}
use muxbridge.Base.Result.{Result, ok, err}
use muxbridge.Server.State.{Signed, natural, negative}
use muxbridge.Perf.Options.{ConfigError, PerfConfig, is_positive}
use muxbridge.Perf.Scenario.{Scenario, load_scenario}
use muxbridge.Perf.Summary.{RequestResult}

pub data LoadError : Type 0 where
  no_connections no_duration no_factory : LoadError
  nil_client : ℕ → LoadError

-- The clients that the workers get, and those whose idle connections were closed on the way out. A
-- client is known by a number; `factory` gives none for nil.
pub record Clients : Type 0 where
  pub made : List ℕ
  pub closed : List ℕ
  pub failed : Option LoadError

unfoldable pub make_clients : (ℕ → Option ℕ) → ℕ → ℕ → List ℕ → Clients
make_clients factory worker zero made = record { made = made; closed = []; failed = none }
make_clients factory worker (suc n) made = elim (factory worker) [
  | none ↦ record { made = []; closed = made; failed = some (nil_client worker) }
  | some client ↦ make_clients factory (worker + 1) n (made ++ client ∷ [])
]

no_clients : LoadError → Clients
no_clients e = record { made = []; closed = []; failed = some e }

start_clients : (ℕ → Option ℕ) → Signed → Clients
unfolding make_clients
start_clients factory (natural n) = make_clients factory 0 n []
start_clients factory (negative n) = record { made = []; closed = []; failed = some no_connections }

-- The checks of `runLoad` and its clients; `factory` is none where it is nil.
unfoldable pub run_load_clients : Signed → Signed → Option (ℕ → Option ℕ) → Clients
unfolding no_clients start_clients
run_load_clients connections duration factory =
    if is_positive connections
    then (if is_positive duration
        then (elim factory [
          | none ↦ no_clients no_factory
          | some make ↦ start_clients make connections
        ])
        else no_clients no_duration)
    else no_clients no_connections

-- What `net/http` makes of a request: it is not valid, it gets no response, or its response has a
-- status, a number of bytes that were read, and an error of the read, if any.
pub data Fetched : Type 0 where
  bad_request no_response : Bytes → Fetched
  responded : ℕ → ℕ → Option Bytes → Fetched

unfoldable pub do_request : Fetched → ℕ → RequestResult
do_request (bad_request e) latency = record {
  status_code = 0;
  bytes = 0;
  latency = latency;
  err = some e;
}
do_request (no_response e) latency = record {
  status_code = 0;
  bytes = 0;
  latency = latency;
  err = some e;
}
do_request (responded status bytes e) latency = record {
  status_code = status;
  bytes = bytes;
  latency = latency;
  err = e;
}

-- The case that the wait between two probes takes; the tunnel client has exited with an error or none.
pub data Wake : Type 0 where
  wake_context : Bytes → Wake
  wake_tunnel : Option Bytes → Wake
  wake_timer : Wake

-- A probe of the public host: its request is not valid, or it has a status, if it has a response.
pub data Probe : Type 0 where
  invalid : Bytes → Probe
  probed : Option ℕ → Wake → Probe

pub data ReadyError : Type 0 where
  request_error context_error tunnel_exited : Bytes → ReadyError
  tunnel_exited_cleanly : ReadyError

abbrev pub status_ok : ℕ
status_ok = 200

unfoldable pub is_ok_status : Option ℕ → Bool
is_ok_status none = false
is_ok_status (some status) = status == status_ok

-- How `waitForReady` ends on its probes; `still_waits`: it goes on behind them.
pub data Readiness : Type 0 where
  is_ready still_waits : Readiness
  not_ready : ReadyError → Readiness

-- What follows a probe without the status 200: the wait, or `later`.
unfoldable pub on_wake : Wake → Readiness → Readiness
on_wake (wake_context e) later = not_ready (context_error e)
on_wake (wake_tunnel none) later = not_ready tunnel_exited_cleanly
on_wake (wake_tunnel (some e)) later = not_ready (tunnel_exited e)
on_wake wake_timer later = later

unfoldable pub wait_for_ready : List Probe → Readiness
wait_for_ready [] = still_waits
wait_for_ready (invalid e ∷ rest) = not_ready (request_error e)
wait_for_ready (probed status wake ∷ rest) =
    let later = wait_for_ready rest in if is_ok_status status then is_ready else on_wake wake later

-- How a tunnel client exits within the time: with no error, one that is not `context.Canceled`, or
-- that one; `none` is the time that ran out.
pub data Exit : Type 0 where
  exits_cleanly exits_canceled : Exit
  exits_with : Bytes → Exit

unfoldable pub wait_for_client_exit : Option Exit → Option Bytes
wait_for_client_exit none = none
wait_for_client_exit (some exits_cleanly) = none
wait_for_client_exit (some exits_canceled) = none
wait_for_client_exit (some (exits_with e)) = some e

pub data RunError : Type 0 where
  config_refused : ConfigError → RunError
  scenario_refused client_refused : Bytes → RunError
  host_not_ready : Bytes → ReadyError → RunError
  load_refused : Bytes → RunError

-- The end of `run`: its error, whether it has printed its summary, and how often it closed the client.
pub record RunEnd : Type 0 where
  pub error : Option RunError
  pub printed : Bool
  pub closes : ℕ

ended : RunError → ℕ → RunEnd
ended e closes = record { error = some e; printed = false; closes = closes }

after_load : Result Bytes Bytes → RunEnd
unfolding ended
after_load (err e) = ended (load_refused e) 1
after_load (ok summary) = record { error = none; printed = true; closes = 1 }

-- Behind the client's start; `ready` is the end of the wait, which has one.
after_start : PerfConfig → Option ReadyError → Result Bytes Bytes → RunEnd
unfolding ended after_load
after_start c (some e) load = ended (host_not_ready c.public_host e) 1
after_start c none load = after_load load

with_scenario :
    PerfConfig
    → Result Bytes Scenario
    → Option Bytes
    → Option ReadyError
    → Result Bytes Bytes
    → RunEnd
unfolding ended after_start
with_scenario c (err name) client ready load = ended (scenario_refused name) 0
with_scenario c (ok s) (some e) ready load = ended (client_refused e) 0
with_scenario c (ok s) none ready load = after_start c ready load

-- `run`, from the configuration: the error of the new client, if any, the end of the wait for the
-- public host and that of the load.
unfoldable pub run :
    Result ConfigError PerfConfig → Option Bytes → Option ReadyError → Result Bytes Bytes → RunEnd
unfolding ended with_scenario
run (err e) client ready load = ended (config_refused e) 0
run (ok c) client ready load = with_scenario c (load_scenario c.scenario) client ready load
