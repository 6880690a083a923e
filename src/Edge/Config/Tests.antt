-- ===== src/Edge/Config/Tests.antt =====
-- An edge with two users, one from the environment and one from the flags.
use muxbridge.Base.{
  ◌≡◌, refl, Bool, false, none, List, [], ◌∷◌, Bytes, codes, same, lookup, insert, bytes_eq,
  if◌then◌else◌,
}
use muxbridge.Base.Result.{Result, ok}
use muxbridge.Base.Text.{trim_space, to_lower, split, cut, trim_suffix, split_host_port}
use muxbridge.Hostnames.{
  normalize_domain, normalize_host, validate_domain, normalize_label, validate_label, subdomain,
}
use muxbridge.Server.State.{Server, new}
use muxbridge.Edge.Config.{
  Flags, Files, EdgeConfig, load_config, with_flags, base_config, finish_config, parse_credentials,
  add_entries, add_entry, parse_credential, parse_entry, check_credential, add_credential,
  split_credential_env, resolve_positive_env_int, resolve_data_dir, parse_bool_string,
  server_config, atoi, managed_hosts, sorted_users, sort_strings, before_or_same,
}
use muxbridge.Edge.Config.Accepted.{load_config-new}

abbrev pub sample_flags : Flags
sample_flags = record {
  public_domain = codes "Example.com.";
  tls_cert_file = [];
  tls_key_file = [];
  debug = false;
  client_credentials = codes "t2=zoe" ∷ [];
}

abbrev pub sample_parse : Bool → List Bytes → Result Bytes Flags
sample_parse debug args = ok sample_flags

abbrev pub sample_files : Files
sample_files = record { clean = λ path. path; join_home = λ home. home; home = none }

abbrev pub sample_env : Bytes → Bytes
sample_env key =
    if same key (codes "MUXBRIDGE_CLIENT_CREDENTIALS")
    then codes "t1 = Demo"
    else if same key (codes "MUXBRIDGE_MAX_TOTAL_INFLIGHT")
    then codes "+64"
    else []

abbrev pub sample_edge : EdgeConfig
sample_edge = record {
  public_domain = codes "example.com";
  edge_domain = codes "edge.example.com";
  client_credentials = (codes "t1", codes "demo") ∷ (codes "t2", codes "zoe") ∷ [];
  tls_cert_file = [];
  tls_key_file = [];
  debug = false;
  data_dir = codes "muxbridge-data";
  max_inflight_per_session = 0;
  max_total_inflight = 64;
}

pub sample_load : load_config sample_parse sample_files [] sample_env ≡ ok sample_edge
unfolding load_config with_flags base_config finish_config parse_credentials add_entries add_entry
    parse_credential parse_entry check_credential add_credential split_credential_env
    resolve_positive_env_int resolve_data_dir parse_bool_string atoi normalize_domain normalize_host
    validate_domain normalize_label validate_label subdomain trim_space to_lower split cut
    trim_suffix split_host_port same lookup insert
sample_load = refl

sorted_hosts :
    managed_hosts sample_edge
    ≡ codes "example.com"
      ∷ codes "edge.example.com"
      ∷ codes "demo.example.com"
      ∷ codes "zoe.example.com"
      ∷ []
unfolding managed_hosts sorted_users sort_strings before_or_same subdomain normalize_host trim_space
    to_lower trim_suffix split_host_port
sorted_hosts = refl

load_config-new_example : (srv : Server) × (new (server_config sample_edge) ≡ ok srv)
load_config-new_example =
    load_config-new sample_parse sample_files [] sample_env sample_edge sample_load
