-- ===== src/Server/Admission/Limits.antt =====
-- The limits on requests in flight, and what a server at rest looks like.
use muxbridge.Base.{
  ℕ, zero, suc, ◌+◌, ◌≤◌, ◌<◌, ◌≡◌, refl, true, some, List, [], ◌∷◌, arith, Bytes, lookup, insert,
  nat_eq, bytes_eq, length, All,
}
use muxbridge.Base.Result.{ok}
use muxbridge.Hostnames.{normalize_domain}
use muxbridge.Server.Session.{Session, try_start, include, del, shutdown}
use muxbridge.Server.State.{
  Config, Server, try_reserve_global_slot, release_global_slots, store, new, assemble, positive_or,
  Tables, Signed, natural, negative,
}
use muxbridge.Server.State.Construction.{new-eq-ok}
use muxbridge.Server.Admission.{
  World, Step, Reach, stay, next, arrive, reserve, refuse_total, enter, refuse_session, leave, shut,
  release, connect, route, exchange, allocate_session, take_request_id, new_session, initial,
}
use muxbridge.Server.Admission.Weights.{
  weigh, in_flight, total, shutdown-effect, del-effect, length-remove,
}
use muxbridge.Server.Admission.Accounting.{IsNew, Reach-Inv, places}

-- A server before its first tunnel, with its limits set.
pub record IsReady (srv : Server) : Type 0 where
  pub new_server : IsNew srv
  pub total_limited : 0 < srv.max_total_inflight
  pub session_limited : 0 < srv.max_inflight

positive_or-pos : (v : Signed) (d : ℕ) → 0 < d → 0 < positive_or v d
unfolding positive_or
positive_or-pos (natural zero) d h = h
positive_or-pos (natural (suc n)) d h = omega arith
positive_or-pos (negative n) d h = h

assemble-IsReady : (cfg : Config) (domain : Bytes) (t : Tables) → IsReady (assemble cfg domain t)
unfolding assemble
assemble-IsReady cfg domain t = record {
  new_server = record { no_objects = refl; no_slots = refl };
  total_limited = positive_or-pos cfg.max_total_inflight 512 (omega arith);
  session_limited = positive_or-pos cfg.max_inflight_per_session 128 (omega arith);
}

-- A server that `New` makes is ready.
pub new-IsReady : (cfg : Config) (srv : Server) → new cfg ≡ ok srv → IsReady srv
new-IsReady cfg srv e =
    let (t, _, _, made) = new-eq-ok cfg srv e in
    rw made (assemble-IsReady cfg (normalize_domain cfg.public_domain) t)

abbrev pub IsWithin : ℕ → List (ℕ × Session) → Type 0
IsWithin m = All (λ o. length o.1.inflight ≤ m)

IsWithin-lookup :
    (m sid : ℕ) (s : Session) (objects : List (ℕ × Session))
    → IsWithin m objects
    → lookup sid objects ≡ some s
    → length s.inflight ≤ m
unfolding lookup
IsWithin-lookup m sid s [] h e = cc
IsWithin-lookup m sid s ((j, t) ∷ objects) h e = ground (arith, IsWithin-lookup m sid s objects h.1)

IsWithin-insert :
    (m sid : ℕ) (s : Session) (objects : List (ℕ × Session))
    → IsWithin m objects
    → length s.inflight ≤ m
    → IsWithin m (insert sid s objects)
unfolding insert
IsWithin-insert m sid s [] h e = (e, tt)
IsWithin-insert m sid s ((j, t) ∷ objects) h e = ground (arith, IsWithin-insert m sid s objects h.1)

-- The limits of the server `srv` hold, and are still those of the server.
record Limits (srv : Server) (w : World) : Type 0 where
  same_total : w.server.max_total_inflight ≡ srv.max_total_inflight
  same_session : w.server.max_inflight ≡ srv.max_inflight
  within_total : w.server.total_inflight ≤ srv.max_total_inflight
  within_session : IsWithin srv.max_inflight w.server.objects

del-le : (id : ℕ) (s s' : Session) → del id s ≡ (s', true) → length s'.inflight ≤ length s.inflight
del-le id s s' e = rw ((del-effect id s s' e).0) (omega (arith, length-remove id s.inflight))

module _ (srv : Server) (ready : IsReady srv) where
  store-Limits :
      (w : World) (sid : ℕ) (s' : Session) (reserved : List (ℕ × ℕ)) (releasing : List ℕ)
      → length s'.inflight ≤ srv.max_inflight
      → Limits srv w
      → Limits srv
          (record w { server = store sid s' w.server; reserved = reserved; releasing = releasing })
  unfolding store
  store-Limits w sid s' reserved releasing h l = record {
    same_total = l.same_total;
    same_session = l.same_session;
    within_total = l.within_total;
    within_session = IsWithin-insert srv.max_inflight sid s' w.server.objects l.within_session h;
  }

  try_start-bound :
      (id m : ℕ) (s s' : Session) → 0 < m → try_start id m s ≡ some s' → length s'.inflight ≤ m
  unfolding try_start include
  try_start-bound id m s s' p e = ground arith

  reserve-Limits :
      (w : World) (h : ℕ × ℕ) (rest : List (ℕ × ℕ)) (next_server : Server)
      → try_reserve_global_slot w.server ≡ some next_server
      → Limits srv w
      → Limits srv (record w { server = next_server; waiting = rest; reserved = h ∷ w.reserved })
  unfolding try_reserve_global_slot
  reserve-Limits w h rest next_server e l = ground (arith, ready.total_limited)

  release-Limits :
      (w : World) (n : ℕ) (rest : List ℕ)
      → Limits srv w
      → Limits srv (record w { server = release_global_slots n w.server; releasing = rest })
  unfolding release_global_slots
  release-Limits w n rest l = ground arith

  shrunk :
      (w : World) (sid : ℕ) (s s' : Session)
      → lookup sid w.server.objects ≡ some s
      → length s'.inflight ≤ length s.inflight
      → Limits srv w
      → length s'.inflight ≤ srv.max_inflight
  shrunk w sid s s' e h l =
      omega (arith, IsWithin-lookup srv.max_inflight sid s w.server.objects l.within_session e)

  Step-Limits : {w u : World} → Step w u → Limits srv w → Limits srv u
  unfolding take_request_id allocate_session new_session
  Step-Limits {w} (arrive sid h) l = ground arith
  Step-Limits {w} (reserve h rest s t e) l = reserve-Limits w h rest s e l
  Step-Limits {w} (refuse_total h rest t e) l = ground arith
  Step-Limits {w} (enter sid id rest s s' t e g) l =
      store-Limits w sid s' rest w.releasing
        (rw (← l.same_session) (
          try_start-bound id w.server.max_inflight s s' (rw l.same_session ready.session_limited)
            g))
        l
  Step-Limits {w} (refuse_session sid id rest s t e g) l = ground arith
  Step-Limits {w} (leave sid id s s' e g) l =
      store-Limits w sid s' w.reserved (1 ∷ w.releasing) (shrunk w sid s s' e (del-le id s s' g) l)
        l
  Step-Limits {w} (shut sid e s g) l =
      store-Limits w sid (shutdown e s).0 w.reserved ((shutdown e s).1 ∷ w.releasing)
        (shrunk w sid s (shutdown e s).0 g (omega (arith, (shutdown-effect e s).0)) l) l
  Step-Limits {w} (release n rest t) l = release-Limits w n rest l
  Step-Limits {w} (connect host username) l = ground arith
  Step-Limits {w} (route table) l = ground arith
  Step-Limits {w} (exchange sid s s' e g) l =
      store-Limits w sid s' w.reserved w.releasing (shrunk w sid s s' e (rw g (omega arith)) l) l

  Reach-Limits : {w : World} → Reach (initial srv) w → Limits srv w
  unfolding initial
  Reach-Limits stay = ground (arith, ready.new_server)
  Reach-Limits (next r st) = Step-Limits st (Reach-Limits r)

-- In every state that the handlers of a new server reach, at most `max_total_inflight` slots are
-- taken, and no session has more than `max_inflight` requests in flight.
pub inflight_limits :
    (cfg : Config) (srv : Server) (w : World)
    → new cfg ≡ ok srv
    → Reach (initial srv) w
    → (w.server.total_inflight ≤ srv.max_total_inflight)
      × IsWithin srv.max_inflight w.server.objects
inflight_limits cfg srv w e r =
    let l = Reach-Limits srv (new-IsReady cfg srv e) r in (l.within_total, l.within_session)

-- In every such state the slot counter is the number of requests in flight in all sessions, of the
-- handlers that hold a slot and have not entered a session, and of the slots about to be given back.
pub total_inflight_exact :
    (cfg : Config) (srv : Server) (w : World)
    → new cfg ≡ ok srv
    → Reach (initial srv) w
    → w.server.total_inflight
      ≡ weigh in_flight w.server.objects + length w.reserved + total w.releasing
total_inflight_exact cfg srv w e r = (Reach-Inv srv (new-IsReady cfg srv e).new_server r).exact

-- In every such state a request id belongs to one handler or one session entry at most.
pub request_id_unique :
    (cfg : Config) (srv : Server) (w : World) (id : ℕ)
    → new cfg ≡ ok srv
    → Reach (initial srv) w
    → places w id ≤ 1
request_id_unique cfg srv w id e r =
    (Reach-Inv srv (new-IsReady cfg srv e).new_server r).one_place id
