-- ===== src/Server/Routing/Starts.antt =====
-- What becomes of a request that has found its tunnel.
use muxbridge.Base.{
  ℕ, ◌+◌, ◌<◌, ◌≤◌, subst, ◌≡◌, ◌≢◌, refl, sym, ap, ◌∙◌, Bool, true, false, none, some, List, arith,
  length, ==_iff, nat_eq, lookup, lookup-insert, if◌then◌else◌, Option-cases, inl, inr,
}
use muxbridge.Server.Response.{new_ws_state}
use muxbridge.Server.Session.{Session, has, include, try_start, put, put_ws}
use muxbridge.Server.State.{
  Server, InflightLimit, inflight_limit_none, inflight_limit_total, inflight_limit_per_session,
  increment, try_reserve_global_slot, try_start_request, start_reserved, release_global_slots,
  store,
}
use muxbridge.Server.Admission.{take_request_id}
use muxbridge.Server.Routing.{Entry, over_limit, started, started_ws, start_on, entered, put_socket}

-- The server has no slot left, and the session none.
abbrev pub IsFull : Server → Type 0
IsFull srv = (srv.max_total_inflight ≢ 0) × (srv.max_total_inflight ≤ srv.total_inflight)

abbrev pub IsSessionFull : Server → Session → Type 0
IsSessionFull srv s = (0 < srv.max_inflight) × (srv.max_inflight ≤ length s.inflight)

-- What becomes of a request for the session `sid`, which is `s`.
abbrev pub IsStarted : Bool → ℕ → Session → Server → Entry × Server → Type 0
IsStarted ws sid s srv (entry, srv') =
    let id = increment srv.next_request_id in
    (IsFull srv
      → (entry ≡ over_limit inflight_limit_total) × (srv'.total_inflight ≡ srv.total_inflight))
    × (¬ IsFull srv
        → IsSessionFull srv s
        → (entry ≡ over_limit inflight_limit_per_session)
          × (srv'.total_inflight ≡ srv.total_inflight))
    × (¬ IsFull srv
        → ¬ IsSessionFull srv s
        → (entry ≡ (if ws then started_ws sid id else started sid id))
          × (srv'.total_inflight ≡ srv.total_inflight + 1)
          × ((s' : Session) × (lookup sid srv'.objects ≡ some s')
              × (has id s'.inflight ≡ true)
              × (ws ≡ true → has id s'.ws_map ≡ true)))

has-include : (id : ℕ) (ids : List ℕ) → has id (include id ids) ≡ true
unfolding include has
has-include id ids = ground (arith, ==_iff id id)

reserve-none : (srv : Server) → try_reserve_global_slot srv ≡ none → IsFull srv
unfolding try_reserve_global_slot
reserve-none srv e = ground arith

reserve-some :
    (srv srv' : Server)
    → try_reserve_global_slot srv ≡ some srv'
    → (¬ IsFull srv) × (srv' ≡ record srv { total_inflight = srv.total_inflight + 1 })
unfolding try_reserve_global_slot
reserve-some srv srv' e = (λ full. ground arith, ground arith)

start-none :
    (id max_inflight : ℕ) (s : Session)
    → try_start id max_inflight s ≡ none
    → (0 < max_inflight) × (max_inflight ≤ length s.inflight)
unfolding try_start
start-none id max_inflight s e = ground arith

start-some :
    (id max_inflight : ℕ) (s s' : Session)
    → try_start id max_inflight s ≡ some s'
    → (¬ ((0 < max_inflight) × (max_inflight ≤ length s.inflight)))
      × (s'.inflight ≡ include id s.inflight)
unfolding try_start put
start-some id max_inflight s s' e = (λ full. ground arith, ground arith)

lookup-store :
    (sid : ℕ) (s : Session) (srv : Server) → lookup sid (store sid s srv).objects ≡ some s
unfolding store
lookup-store sid s srv = ground (arith, ==_iff sid sid, lookup-insert sid sid s srv.objects)

try_start-full :
    (sid id : ℕ) (srv : Server)
    → try_reserve_global_slot srv ≡ none
    → try_start_request sid id srv ≡ (inflight_limit_total, srv)
unfolding try_start_request
try_start-full sid id srv e = rw (e, try_start_request) refl

try_start-reserved :
    (sid id : ℕ) (s : Session) (srv r : Server)
    → try_reserve_global_slot srv ≡ some r
    → lookup sid r.objects ≡ some s
    → try_start_request sid id srv ≡ start_reserved sid id (some s) r
unfolding try_start_request
try_start-reserved sid id s srv r e g =
    rw (e, try_start_request) (ap (λ o. start_reserved sid id o r) g)

reserved-full :
    (sid id : ℕ) (s : Session) (r : Server)
    → try_start id r.max_inflight s ≡ none
    → start_reserved sid id (some s) r ≡ (inflight_limit_per_session, release_global_slots 1 r)
unfolding start_reserved
reserved-full sid id s r e = rw (e, start_reserved) refl

reserved-free :
    (sid id : ℕ) (s s' : Session) (r : Server)
    → try_start id r.max_inflight s ≡ some s'
    → start_reserved sid id (some s) r ≡ (inflight_limit_none, store sid s' r)
unfolding start_reserved
reserved-free sid id s s' r e = rw (e, start_reserved) refl

put_socket-found :
    (sid id : ℕ) (s : Session) (srv : Server)
    → lookup sid srv.objects ≡ some s
    → put_socket sid id srv ≡ store sid (put_ws id new_ws_state s) srv
unfolding put_socket
put_socket-found sid id s srv g = rw (g, put_socket) refl

put_ws-inflight :
    (id : ℕ) (s : Session)
    → has id s.inflight ≡ true
    → has id (put_ws id new_ws_state s).inflight ≡ true
unfolding put_ws
put_ws-inflight id s h = h

put_ws-has : (id : ℕ) (s : Session) → has id (put_ws id new_ws_state s).ws_map ≡ true
unfolding put_ws
put_ws-has id s = has-include id s.ws_map

-- The entry of a request that has its slot and its place in the session.
entered-lem :
    (ws : Bool) (sid id : ℕ) (s : Session) (srv : Server)
    → has id s.inflight ≡ true
    → ((entered ws sid id (inflight_limit_none, store sid s srv)).0
        ≡ (if ws then started_ws sid id else started sid id))
      × ((entered ws sid id (inflight_limit_none, store sid s srv)).1.total_inflight
          ≡ srv.total_inflight)
      × ((s' : Session) × (lookup sid
              (entered ws sid id (inflight_limit_none, store sid s srv)).1.objects
            ≡ some s')
          × (has id s'.inflight ≡ true)
          × (ws ≡ true → has id s'.ws_map ≡ true))
unfolding entered store
entered-lem false sid id s srv h = (refl, refl, (s, lookup-store sid s srv, h, λ e. cc))
entered-lem true sid id s srv h =
    let both : put_socket sid id (store sid s srv)
        ≡ store sid (put_ws id new_ws_state s) (store sid s srv) =
      put_socket-found sid id s (store sid s srv) (lookup-store sid s srv) in
    rw both (
      refl,
      refl,
      (
        put_ws id new_ws_state s,
        lookup-store sid (put_ws id new_ws_state s) (store sid s srv),
        put_ws-inflight id s h,
        λ e. put_ws-has id s,
      ),
    )

entered-made :
    (ws : Bool) (sid id : ℕ) (s : Session) (srv r : Server)
    → r.total_inflight ≡ srv.total_inflight + 1
    → has id s.inflight ≡ true
    → ((entered ws sid id (inflight_limit_none, store sid s r)).0
        ≡ (if ws then started_ws sid id else started sid id))
      × ((entered ws sid id (inflight_limit_none, store sid s r)).1.total_inflight
          ≡ srv.total_inflight + 1)
      × ((s' : Session) × (lookup sid
              (entered ws sid id (inflight_limit_none, store sid s r)).1.objects
            ≡ some s')
          × (has id s'.inflight ≡ true)
          × (ws ≡ true → has id s'.ws_map ≡ true))
entered-made ws sid id s srv r e h =
    let (entry, total, session) = entered-lem ws sid id s r h in (entry, total ∙ e, session)

release-total :
    (r srv : Server)
    → r.total_inflight ≡ srv.total_inflight + 1
    → (release_global_slots 1 r).total_inflight ≡ srv.total_inflight
unfolding release_global_slots
release-total r srv e = ground arith

-- The limit `m` of a session is met.
abbrev IsMet : Session → ℕ → Type 0
IsMet s m = (0 < m) × (m ≤ length s.inflight)

pub start_on-IsStarted :
    (ws : Bool) (sid : ℕ) (s : Session) (srv : Server)
    → lookup sid srv.objects ≡ some s
    → IsStarted ws sid s srv (start_on ws sid srv)
unfolding start_on take_request_id entered
start_on-IsStarted ws sid s srv g =
    let id = increment srv.next_request_id in
    let asked : Server = (take_request_id srv).0 in
    let P = λ (x : InflightLimit × Server). IsStarted ws sid s srv (entered ws sid id x) in
    elim (Option-cases (try_reserve_global_slot asked)) [
      | inl none_left ↦
          let full = reserve-none asked none_left in
          subst P (sym (try_start-full sid id asked none_left))
            (λ f. (refl, refl), λ n f. absurd (n full), λ n f. absurd (n full))
      | inr (r, e) ↦
          let (free, made) = reserve-some asked r e in
          let known : lookup sid r.objects ≡ some s = ap (λ x. lookup sid x.objects) made ∙ g in
          let bound : r.max_inflight ≡ srv.max_inflight = ap (λ x. x.max_inflight) made in
          let start = try_start-reserved sid id s asked r e known in
          elim (Option-cases (try_start id r.max_inflight s)) [
            | inl n ↦
                let session_full = start-none id r.max_inflight s n in
                subst P (sym (start ∙ reserved-full sid id s r n)) (
                  λ f. absurd (free f),
                  λ no f. (refl, release-total r srv (ap (λ x. x.total_inflight) made)),
                  λ no f. absurd (f (subst (IsMet s) bound session_full)),
                )
            | inr (s', t) ↦
                let (room, there) = start-some id r.max_inflight s s' t in
                subst P (sym (start ∙ reserved-free sid id s s' r t)) (
                  λ f. absurd (free f),
                  λ no f. absurd (room (subst (IsMet s) (sym bound) f)),
                  λ no f.
                      entered-made ws sid id s' srv r (ap (λ x. x.total_inflight) made)
                        (rw there (has-include id s.inflight)),
                )
          ]
    ]
