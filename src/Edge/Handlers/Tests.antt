-- ===== src/Edge/Handlers/Tests.antt =====
-- Requests on the edge of two users.
use muxbridge.Base.{
  ◌≡◌, ◌↔◌, refl, true, none, some, [], ◌∷◌, Bytes, codes, same, lookup, insert, bytes_eq,
}
use muxbridge.Base.Result.{ok}
use muxbridge.Base.Text.{has_prefix, split, trim_space, to_lower, trim_suffix, split_host_port}
use muxbridge.Hostnames.{
  normalize_host, normalize_domain, normalize_label, validate_label, validate_domain, subdomain,
}
use muxbridge.Hostnames.Tests.{example_com-IsDomain}
use muxbridge.Headers.{header_get, header_values}
use muxbridge.Server.State.{
  Server, new, add_user, add_users, assemble, positive_or, has_public_host, host_in,
}
use muxbridge.Edge.Config.{server_config}
use muxbridge.Edge.Config.Tests.{sample_files, sample_parse, sample_env, sample_edge, sample_load}
use muxbridge.Edge.Handlers.{
  Request, to_grpc, to_public, to_status, https_handler, is_grpc_request, is_pprof_path,
  pprof_handler, trim_prefix, serves, redirect_target, server_closed, other_error, shutdown_servers,
  shutdown_from, serve_once,
}
use muxbridge.Edge.Handlers.Routes.{https_handler_iff}

abbrev made : Server
made = record {
  public_domain = codes "example.com";
  token_users = (codes "t1", codes "demo") ∷ (codes "t2", codes "zoe") ∷ [];
  public_hosts = codes "zoe.example.com" ∷ codes "demo.example.com" ∷ [];
  heartbeat = 10_000_000_000;
  max_inflight = 128;
  max_total_inflight = 64;
  total_inflight = 0;
  sessions = [];
  next_session_id = 0;
  next_request_id = 0;
  objects = [];
}

made-ok : new (server_config sample_edge) ≡ ok made
unfolding server_config new assemble positive_or add_user add_users validate_domain validate_label
    normalize_domain normalize_host normalize_label subdomain split trim_space to_lower trim_suffix
    split_host_port same lookup insert
made-ok = refl

abbrev browse : Bytes → Bytes → Request
browse host path = record {
  host = host;
  proto_major = 2;
  path = path;
  uri = path;
  header = (codes "Content-Type", codes "application/grpc" ∷ []) ∷ [];
}

grpc_at_user :
    https_handler sample_edge.public_domain sample_edge.edge_domain
      (has_public_host made)
      true
      (browse (codes "Demo.example.com:443") (codes "/pprof/heap"))
    ≡ to_public
unfolding https_handler is_grpc_request is_pprof_path has_public_host host_in normalize_host
    trim_space to_lower trim_suffix split_host_port same has_prefix header_get header_values lookup
grpc_at_user = refl

grpc_at_edge :
    https_handler sample_edge.public_domain sample_edge.edge_domain
      (has_public_host made)
      true
      (browse (codes "edge.example.com") (codes "/pprof/heap"))
    ≡ to_grpc
unfolding https_handler is_grpc_request is_pprof_path has_public_host host_in normalize_host
    trim_space to_lower trim_suffix split_host_port same has_prefix header_get header_values lookup
grpc_at_edge = refl

heap_profile : pprof_handler (codes "/pprof/heap") ≡ serves (codes "/debug/pprof/heap")
unfolding pprof_handler trim_prefix has_prefix same
heap_profile = refl

redirected :
    redirect_target (browse (codes "Demo.example.com:80") (codes "/a?b=c"))
    ≡ codes "https://demo.example.com/a?b=c"
unfolding redirect_target normalize_host trim_space to_lower trim_suffix split_host_port
redirected = refl

first_failure :
    shutdown_servers
      (some (some server_closed) ∷ none ∷ some (some (other_error (codes "late"))) ∷ some none ∷ [])
    ≡ some (codes "late")
unfolding shutdown_servers shutdown_from serve_once
first_failure = refl

https_handler_iff_example :
    ((https_handler sample_edge.public_domain sample_edge.edge_domain
          (has_public_host made)
          true
          (browse (codes "Demo.example.com") (codes "/"))
        ≡ to_public)
      ↔ (has_public_host made (normalize_host (codes "Demo.example.com")) ≡ true))
    × ((https_handler sample_edge.public_domain sample_edge.edge_domain
            (has_public_host made)
            true
            (browse (codes "Demo.example.com") (codes "/"))
          ≡ to_status)
        ↔ (normalize_host (codes "Demo.example.com") ≡ codes "example.com"))
https_handler_iff_example =
    https_handler_iff sample_parse sample_files [] sample_env sample_edge made true
      (browse (codes "Demo.example.com") (codes "/")) sample_load made-ok example_com-IsDomain
