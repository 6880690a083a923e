-- ===== src/Perf/Scenario.antt =====
-- cmd/perf-client/main.go: the scenarios, and which request a worker sends.
pub mod Windows
pub mod Tests
use muxbridge.Base.{
  ℕ, zero, suc, ◌+◌, ◌-◌, ◌%◌, ◌^◌, Bool, true, false, ◌||◌, Option, none, some, List, [], ◌∷◌,
  ◌++◌, ltb, ◌==◌, if◌then◌else◌, length, Bytes, codes, same,
}
use muxbridge.Base.Text.{trim_space, to_lower}
use muxbridge.Base.Result.{Result, ok, err}

-- A request is known by its path.
pub record Scenario : Type 0 where
  pub name : Bytes
  pub requests : List Bytes

unfoldable pub repeat : ℕ → Bytes → List Bytes
repeat zero path = []
repeat (suc n) path = path ∷ repeat n path

abbrev pub mixed_requests : List Bytes
unfolding repeat
mixed_requests = repeat 16 (codes "/fast") ++ (repeat 3 (codes "/bytes") ++ codes "/stream" ∷ [])

unfoldable pub load_scenario : Bytes → Result Bytes Scenario
load_scenario name =
    let v = to_lower (trim_space name) in
    if same v (codes "fast")
    then ok (record { name = codes "fast"; requests = codes "/fast" ∷ [] })
    else if same v (codes "stream")
    then ok (record { name = codes "stream"; requests = codes "/stream" ∷ [] })
    else if same v [] || same v (codes "mixed")
    then ok (record { name = codes "mixed"; requests = mixed_requests })
    else err name

-- `requests[index]`
unfoldable pub nth : ℕ → List Bytes → Option Bytes
nth index [] = none
nth zero (x ∷ xs) = some x
nth (suc index) (x ∷ xs) = nth index xs

-- The request of a worker's iteration, both below `2 ^ 63`. A sum from `2 ^ 63` on is a negative number
-- in Go, whose remainder is negative or 0; `none` is the panic of an index out of range.
unfoldable pub request_for : Scenario → ℕ → ℕ → Option Bytes
unfolding nth
request_for s worker iteration =
    let n = length s.requests in
    let sum = worker + iteration in
    if n == 0
    then some (codes "/fast")
    else if ltb sum (2 ^ 63)
    then nth (sum % n) s.requests
    else if (2 ^ 64 - sum) % n == 0
    then nth 0 s.requests
    else none
