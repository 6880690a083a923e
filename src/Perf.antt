-- ===== src/Perf.antt =====
-- cmd/perf-client/main.go, the load generator: its configuration is in `Options`, the requests of a
-- scenario in `Scenario`, the report of the latencies in `Histogram` and that of the load in `Summary`.
pub mod Options
pub mod Scenario
pub mod Histogram
pub mod Summary
pub mod Load
