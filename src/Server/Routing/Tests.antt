-- ===== src/Server/Routing/Tests.antt =====
-- A tunnel for `demo.example.com` and its successor.
use muxbridge.Base.{
  ℕ, ◌≡◌, ◌≢◌, ==_iff, refl, true, ◌&&◌, none, some, [], ◌∷◌, Bytes, codes, arith, same, lookup,
  insert, nat_eq, bytes_eq, if◌then◌else◌,
}
use muxbridge.Base.Result.{ok}
use muxbridge.Base.Text.{trim_space, to_lower, trim_suffix, split, split_host_port}
use muxbridge.Hostnames.{
  normalize_host, normalize_domain, normalize_label, subdomain, validate_domain, validate_label,
}
use muxbridge.Hostnames.Domains.{IsDomain}
use muxbridge.Hostnames.Tests.{example_com-IsDomain}
use muxbridge.Wire.{ClientFrame, register}
use muxbridge.Server.Response.{new_response_state, fail}
use muxbridge.Server.Session.{Session, get, has}
use muxbridge.Server.State.{
  Config, Server, new, assemble, positive_or, add_user, add_users, get_session, put_session,
  replace_session, err_session_replaced, increment,
}
use muxbridge.Server.Admission.{new_session, allocate_session}
use muxbridge.Server.Admission.Tests.{sample_config, sample_server, sample_new, sample_host}
use muxbridge.Server.Routing.{open_session, admit_user, close_session, serve_entry, wants_websocket}
use muxbridge.Server.Routing.Tunnels.{
  routes_to, open_session-get_session, put_session_replaces, close_session-get_session,
}
use muxbridge.Server.Routing.Hosts.{IsServed, token_host_inj, serve_entry_lem}

abbrev hello : ClientFrame
hello = register (codes "t1") (codes "demo-token")

-- The server with its first tunnel, which has the session `s`.
abbrev routed : Session → Server
routed s = record sample_server {
  sessions = (sample_host, 1) ∷ [];
  next_session_id = 1;
  objects = (1, s) ∷ [];
}

abbrev idle : Session
unfolding new_session
idle = new_session 1 sample_host (codes "demo")

abbrev busy : Session
unfolding new_session new_response_state
busy = record (new_session 1 sample_host (codes "demo")) {
  inflight = 7 ∷ [];
  responses = (7, new_response_state) ∷ [];
}

hello-ok : open_session hello sample_server ≡ ok (routed idle, 1)
unfolding open_session admit_user allocate_session put_session replace_session new_session increment
    subdomain normalize_host trim_space to_lower trim_suffix split_host_port same lookup insert
hello-ok = refl

open_session-get_session_example :
    (tunnel_id : Bytes) × (token : Bytes) × (username : Bytes) × (hello ≡ register tunnel_id token)
    × (lookup token sample_server.token_users ≡ some username)
    × (get_session sample_host (routed idle)
        ≡ (if same (subdomain username (codes "example.com")) sample_host then some 1 else none))
unfolding get_session lookup
open_session-get_session_example =
    open_session-get_session hello sample_host 1 sample_server (routed idle) hello-ok

put_session_replaces_example :
    (s' : Session) × (lookup 1 (put_session sample_host 2 (routed busy)).objects ≡ some s')
    × (s'.done ≡ true)
    × (s'.inflight ≡ [])
    × (lookup 7 s'.responses ≡ some (fail (some err_session_replaced) new_response_state))
    × ((put_session sample_host 2 (routed busy)).total_inflight ≡ 0)
unfolding get_session get has lookup same new_session busy
put_session_replaces_example =
    put_session_replaces sample_host 2 1 7 busy new_response_state (routed busy) refl (omega arith)
      refl refl refl

close_session-get_session_example : get_session sample_host (close_session 1 none (routed idle)) ≡ (
    if same sample_host sample_host && routes_to 1 (get_session sample_host (routed idle))
    then none
    else get_session sample_host (routed idle))
unfolding lookup new_session
close_session-get_session_example =
    close_session-get_session 1 none idle sample_host (routed idle) refl

example-IsDomain : IsDomain (normalize_domain (codes "example.com"))
unfolding normalize_domain normalize_host trim_space to_lower trim_suffix split_host_port
example-IsDomain = example_com-IsDomain

abbrev two_config : Config
two_config = record sample_config {
  token_users = (codes "demo-token", codes "demo") ∷ (codes "other-token", codes "other") ∷ [];
}

abbrev two_users : Server
two_users = record sample_server {
  token_users = (codes "demo-token", codes "demo") ∷ (codes "other-token", codes "other") ∷ [];
  public_hosts = codes "other.example.com" ∷ codes "demo.example.com" ∷ [];
}

two_new : new two_config ≡ ok two_users
unfolding new assemble positive_or add_user add_users validate_domain validate_label
    normalize_domain normalize_host normalize_label subdomain split trim_space to_lower trim_suffix
    split_host_port same lookup insert
two_new = refl

token_host_inj_example :
    subdomain (codes "demo") (codes "example.com") ≢ subdomain (codes "other") (codes "example.com")
unfolding lookup same
token_host_inj_example =
    token_host_inj two_config two_users (codes "demo-token") (codes "other-token") (codes "demo")
      (codes "other") example-IsDomain two_new refl refl (ground arith)

routed-known :
    (sid : ℕ)
    → get_session (subdomain (codes "demo") (codes "example.com")) (routed idle) ≡ some sid
    → (s : Session) × (lookup sid (routed idle).objects ≡ some s)
unfolding get_session lookup same subdomain normalize_host trim_space to_lower trim_suffix
    split_host_port
routed-known sid e = (idle, ground (arith, ==_iff 1 sid))

serve_entry_lem_example :
    IsServed
      (wants_websocket [])
      (get_session (subdomain (codes "demo") (codes "example.com")) (routed idle))
      (routed idle)
      (serve_entry (codes "DEMO.example.com") [] (routed idle))
unfolding lookup same to_lower subdomain normalize_host trim_space trim_suffix split_host_port
serve_entry_lem_example =
    serve_entry_lem sample_config sample_server (routed idle) (codes "demo-token") (codes "demo")
      (codes "DEMO.example.com") [] example-IsDomain sample_new refl refl refl routed-known
