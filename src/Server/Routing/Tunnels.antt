-- ===== src/Server/Routing/Tunnels.antt =====
-- Which tunnel a host has, and what happens to the tunnel that lost it.
use muxbridge.Base.{
  ℕ, ◌-◌, ◌≡◌, ◌≢◌, refl, Bool, true, false, ◌&&◌, Option, none, some, List, [], ◌∷◌, arith, Bytes,
  same, bytes_eq, nat_eq, lookup, insert, lookup-insert, lookup-delete, if◌then◌else◌, ◌==◌, ==_iff,
  length, Option-cases, inl, inr,
}
use muxbridge.Base.Result.{ok}
use muxbridge.Hostnames.{subdomain}
use muxbridge.Wire.{ClientFrame, register}
use muxbridge.Server.Response.{ResponseState, fail}
use muxbridge.Server.Session.{Session, has, get, fail_each, fail_all, shutdown}
use muxbridge.Server.State.{
  Server, get_session, put_session, replace_session, remove_session, remove_found, shut_session,
  store, release_global_slots, err_session_replaced,
}
use muxbridge.Server.Admission.{allocate_session}
use muxbridge.Server.Routing.{open_session, admit_user, close_session, shutdown_error}

lookup-fail_each :
    (e : Option Bytes) (ids : List ℕ) (id : ℕ) (r : ResponseState) (m : List (ℕ × ResponseState))
    → lookup id m ≡ some r
    → has id ids ≡ true
    → lookup id (fail_each e ids m) ≡ some (fail e r)
unfolding lookup fail_each
lookup-fail_each e ids id r [] l h = cc
lookup-fail_each e ids id r ((j, x) ∷ m) l h =
    ground (arith, ==_iff j id, lookup-fail_each e ids id r m)

-- A route to the session `sid`.
unfoldable pub routes_to : ℕ → Option ℕ → Bool
routes_to sid none = false
routes_to sid (some j) = j == sid

-- Ending a session leaves the routes alone.
shut_session-sessions :
    (sid : ℕ) (e : Option Bytes) (srv : Server) → (shut_session sid e srv).sessions ≡ srv.sessions
unfolding shut_session store release_global_slots
shut_session-sessions sid e srv = ground arith

replace_session-sessions :
    (old : Option ℕ) (sid : ℕ) (srv : Server)
    → (replace_session old sid srv).sessions ≡ srv.sessions
unfolding replace_session
replace_session-sessions none sid srv = refl
replace_session-sessions (some old) sid srv =
    ground (arith, shut_session-sessions old (some err_session_replaced) srv)

put_session-sessions :
    (host : Bytes) (sid : ℕ) (srv : Server)
    → (put_session host sid srv).sessions ≡ insert host sid srv.sessions
unfolding put_session
put_session-sessions host sid srv =
    replace_session-sessions (lookup host srv.sessions) sid
      (record srv { sessions = insert host sid srv.sessions })

admit_user-get_session :
    (username host : Bytes) (srv : Server)
    → get_session host (admit_user username srv).0 ≡ (
        if same (subdomain username srv.public_domain) host
        then some (admit_user username srv).1
        else get_session host srv)
unfolding admit_user get_session allocate_session
admit_user-get_session username host srv =
    rw
      (put_session-sessions (subdomain username srv.public_domain)
        (allocate_session (subdomain username srv.public_domain) username srv).1
        (allocate_session (subdomain username srv.public_domain) username srv).0)
      (lookup-insert (subdomain username srv.public_domain) host
        (allocate_session (subdomain username srv.public_domain) username srv).1 srv.sessions)

-- A tunnel that is let in has presented a token of the server; right behind the handshake its
-- user's host is routed to the new session, and every other host has the route that it had before.
pub open_session-get_session :
    (first : ClientFrame) (host : Bytes) (sid : ℕ) (srv srv' : Server)
    → open_session first srv ≡ ok (srv', sid)
    → (tunnel_id : Bytes) × (token : Bytes) × (username : Bytes) × (first
        ≡ register tunnel_id token)
      × (lookup token srv.token_users ≡ some username)
      × (get_session host srv' ≡ (
          if same (subdomain username srv.public_domain) host
          then some sid
          else get_session host srv))
unfolding open_session
open_session-get_session (register tunnel_id token) host sid srv srv' e =
    elim (Option-cases (lookup token srv.token_users)) [
      | inl n ↦ absurd (ground arith)
      | inr (username, g) ↦ (
        tunnel_id,
        token,
        username,
        refl,
        g,
        ground (arith, admit_user-get_session username host srv),
      )
    ]
open_session-get_session _ host sid srv srv' e = cc

-- A host that gets a new tunnel loses the old one at once: the old session is done and has no
-- request, its slots are given back, and each request that was in flight on it, taken as `id` and
-- `r`, fails for that reason.
pub put_session_replaces :
    (host : Bytes) (sid old id : ℕ) (s : Session) (r : ResponseState) (srv : Server)
    → get_session host srv ≡ some old
    → old ≢ sid
    → lookup old srv.objects ≡ some s
    → s.once ≡ false
    → get id s ≡ some r
    → (s' : Session) × (lookup old (put_session host sid srv).objects ≡ some s')
      × (s'.done ≡ true)
      × (s'.inflight ≡ [])
      × (lookup id s'.responses ≡ some (fail (some err_session_replaced) r))
      × ((put_session host sid srv).total_inflight ≡ srv.total_inflight - length s.inflight)
unfolding put_session get_session replace_session shut_session shutdown fail_all
    release_global_slots store get
put_session_replaces host sid old id s r srv g n l o q = (
  (shutdown (some err_session_replaced) s).0,
  ground (
    arith,
    ==_iff old sid,
    lookup-insert old old (shutdown (some err_session_replaced) s).0 srv.objects,
  ),
  ground arith,
  ground arith,
  ground (arith, lookup-fail_each (some err_session_replaced) s.inflight id r s.responses),
  ground (arith, ==_iff old sid),
)

remove_session-get_session :
    (own host : Bytes) (sid : ℕ) (srv : Server)
    → get_session host (remove_session own sid srv) ≡ (
        if same own host && routes_to sid (get_session own srv) then none else get_session host srv)
unfolding get_session remove_session remove_found routes_to
remove_session-get_session own host sid srv = ground (arith, lookup-delete own host srv.sessions)

-- The end of a tunnel takes its host's route only where the route is still its own; the route of a
-- newer tunnel for that host, and every other route, stays.
pub close_session-get_session :
    (sid : ℕ) (e : Option Bytes) (s : Session) (host : Bytes) (srv : Server)
    → lookup sid srv.objects ≡ some s
    → get_session host (close_session sid e srv) ≡ (
        if same s.public_host host && routes_to sid (get_session s.public_host srv)
        then none
        else get_session host srv)
unfolding close_session get_session
close_session-get_session sid e s host srv l =
    let shut = shut_session sid (some (shutdown_error e)) srv in
    let table = shut_session-sessions sid (some (shutdown_error e)) srv in
    let removed = remove_session-get_session s.public_host host sid shut in ground arith
