-- ===== src/Perf/Options/Tests.antt =====
-- A configuration from the environment, with no flags.
use muxbridge.Base.{◌≡◌, refl, false, List, [], Bytes, codes, same, if◌then◌else◌}
use muxbridge.Base.Result.{Result, ok}
use muxbridge.Base.Text.{trim_space, to_lower, trim_suffix, split_host_port, split}
use muxbridge.Hostnames.{normalize_host, validate_domain, validate_label, subdomain}
use muxbridge.Edge.Config.{parse_bool_string}
use muxbridge.Perf.Scenario.{load_scenario}
use muxbridge.Server.State.{natural}
use muxbridge.Perf.Options.{
  PerfConfig, default_config, load_config, check_config, normalize_config, resolve_edge,
  check_numbers, is_positive,
}
use muxbridge.Perf.Options.Accepted.{IsRunnable, load_config-IsRunnable}

abbrev keep_defaults : PerfConfig → List Bytes → Result Bytes PerfConfig
keep_defaults c args = ok c

abbrev sample_env : Bytes → Bytes
sample_env key =
    if same key (codes "MUXBRIDGE_PUBLIC_HOST")
    then codes "Perf.Example.com."
    else if same key (codes "MUXBRIDGE_PUBLIC_DOMAIN")
    then codes "example.com"
    else []

abbrev pub sample : PerfConfig
sample = record {
  public_host = codes "perf.example.com";
  public_domain = codes "example.com";
  edge_addr = codes "edge.example.com:443";
  token = codes "perf-token";
  scenario = codes "mixed";
  connections = natural 1000;
  duration = natural 30_000_000_000;
  request_timeout = natural 10_000_000_000;
  ready_timeout = natural 30_000_000_000;
  debug = false;
}

sample-ok : load_config keep_defaults [] sample_env ≡ ok sample
unfolding load_config default_config check_config normalize_config resolve_edge check_numbers
    is_positive same normalize_host trim_suffix split_host_port trim_space to_lower validate_domain
    split validate_label load_scenario subdomain parse_bool_string
sample-ok = refl

load_config-IsRunnable_example : IsRunnable sample
load_config-IsRunnable_example = load_config-IsRunnable keep_defaults [] sample_env sample sample-ok
