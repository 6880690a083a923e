-- ===== src/Server/Admission/Tests.antt =====
-- Two requests on an edge that admits one request for each tunnel.
use muxbridge.Base.{
  ◌+◌, ◌≤◌, ◌≡◌, refl, [], ◌∷◌, Bytes, codes, arith, same, length, lookup, insert, nat_eq, bytes_eq,
}
use muxbridge.Base.Text.{split, trim_space, to_lower, trim_suffix, split_host_port}
use muxbridge.Base.Result.{ok}
use muxbridge.Hostnames.{
  normalize_host, normalize_domain, normalize_label, validate_label, validate_domain, subdomain,
}
use muxbridge.Server.Session.{Session, try_start, has, include}
use muxbridge.Server.Response.{new_response_state}
use muxbridge.Server.State.{
  Config, Server, natural, negative, new, add_user, add_users, assemble, positive_or, store,
  increment, try_reserve_global_slot,
}
use muxbridge.Server.Admission.{
  World, here, Reach, stay, next, arrive, reserve, enter, connect, initial, take_request_id,
  allocate_session, new_session,
}
use muxbridge.Server.Admission.Weights.{weigh, in_flight, total}
use muxbridge.Server.Admission.Accounting.{places}
use muxbridge.Server.Admission.Limits.{
  IsWithin, inflight_limits, total_inflight_exact, request_id_unique,
}

abbrev pub sample_config : Config
sample_config = record {
  public_domain = codes "example.com";
  token_users = (codes "demo-token", codes "demo") ∷ [];
  heartbeat_interval = natural 0;
  max_inflight_per_session = natural 1;
  max_total_inflight = negative 0;
}

abbrev pub sample_server : Server
sample_server = record {
  public_domain = codes "example.com";
  token_users = (codes "demo-token", codes "demo") ∷ [];
  public_hosts = codes "demo.example.com" ∷ [];
  heartbeat = 10_000_000_000;
  max_inflight = 1;
  max_total_inflight = 512;
  total_inflight = 0;
  sessions = [];
  next_session_id = 0;
  next_request_id = 0;
  objects = [];
}

pub sample_new : new sample_config ≡ ok sample_server
unfolding new assemble positive_or add_user add_users validate_domain validate_label
    normalize_domain normalize_host normalize_label subdomain split trim_space to_lower trim_suffix
    split_host_port same lookup insert
sample_new = refl

-- A tunnel connects, a request arrives, takes a slot and enters the session.
abbrev pub sample_host : Bytes
sample_host = codes "demo.example.com"

abbrev connected : Server
connected = (allocate_session sample_host (codes "demo") sample_server).0

abbrev started : Session
started = record (new_session 1 sample_host (codes "demo")) {
  inflight = 1 ∷ [];
  responses = (1, new_response_state) ∷ [];
}

abbrev entered : World
entered = record (initial sample_server) {
  server = store 1 started (record (take_request_id connected).0 { total_inflight = 1 });
}

entered-Reach : Reach (initial sample_server) entered
unfolding initial store allocate_session take_request_id increment try_reserve_global_slot try_start
    new_session new_response_state has insert lookup include
entered-Reach =
    next
      (next (next (next stay (connect sample_host (codes "demo"))) (arrive 1 (omega arith)))
        (reserve (1, 1) [] (record (take_request_id connected).0 { total_inflight = 1 }) here refl))
      (enter 1 1 [] (new_session 1 sample_host (codes "demo")) started here refl refl)

inflight_limits_example : (entered.server.total_inflight ≤ 512) × IsWithin 1 entered.server.objects
inflight_limits_example =
    inflight_limits sample_config sample_server entered sample_new entered-Reach

total_inflight_exact_example :
    entered.server.total_inflight
    ≡ weigh in_flight entered.server.objects + length entered.reserved + total entered.releasing
total_inflight_exact_example =
    total_inflight_exact sample_config sample_server entered sample_new entered-Reach

request_id_unique_example : places entered 1 ≤ 1
request_id_unique_example =
    request_id_unique sample_config sample_server entered 1 sample_new entered-Reach
