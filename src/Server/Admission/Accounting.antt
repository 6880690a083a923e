-- ===== src/Server/Admission/Accounting.antt =====
-- The slot counter is exact.
use muxbridge.Base.{
  ℕ, ◌+◌, ◌%◌, ◌^◌, ◌≤◌, ◌<◌, ◌≡◌, true, some, List, [], ◌∷◌, arith, lookup, nat_eq, length,
}
use muxbridge.Server.Session.{Session, try_start, remove, del, shutdown}
use muxbridge.Server.State.{Server, increment, try_reserve_global_slot, release_global_slots, store}
use muxbridge.Server.Admission.{
  World, Takes, Step, Reach, stay, next, arrive, reserve, refuse_total, enter, refuse_session,
  leave, shut, release, connect, route, exchange, allocate_session, take_request_id, new_session,
  initial,
}
use muxbridge.Server.Admission.Weights.{
  weigh, weigh-insert, weigh-ge, count, count_handlers, total, length-Takes, total-Takes,
  count_handlers-Takes, in_session, in_flight, remove-count, length-remove, try_start-effect,
  del-effect, shutdown-effect,
}

-- Where the request with the id `id` is: waiting, with a slot, or in a session.
abbrev pub places : World → ℕ → ℕ
places w id =
    count_handlers id w.waiting
    + count_handlers id w.reserved
    + weigh (in_session id) w.server.objects

pub record Inv (w : World) : Type 0 where
  pub exact :
      w.server.total_inflight
      ≡ weigh in_flight w.server.objects + length w.reserved + total w.releasing
  pub one_place : (id : ℕ) → places w id ≤ 1
  pub fresh : (id : ℕ) → w.server.next_request_id < id → places w id ≡ 0

arrive-Inv :
    (w : World) (sid : ℕ)
    → w.server.next_request_id + 1 < 2 ^ 64
    → Inv w
    → Inv (record w {
      server = (take_request_id w.server).0;
      waiting = (sid, (take_request_id w.server).1) ∷ w.waiting;
    })
unfolding take_request_id increment
arrive-Inv w sid h v =
    let n : ℕ = w.server.next_request_id in
    let e : (n + 1) % 2 ^ 64 ≡ n + 1 = omega arith in
    record {
      exact = v.exact;
      one_place = λ i. ground (arith, e, v.one_place i, v.fresh i);
      fresh = λ i g. ground (arith, e, v.fresh i);
    }

enter-Inv :
    (w : World) (sid id : ℕ) (rest : List (ℕ × ℕ)) (s s' : Session)
    → Takes (sid, id) w.reserved rest
    → lookup sid w.server.objects ≡ some s
    → try_start id w.server.max_inflight s ≡ some s'
    → Inv w
    → Inv (record w { server = store sid s' w.server; reserved = rest })
unfolding store
enter-Inv w sid id rest s s' t l e v = record {
  exact =
      ground (arith, effect, v.exact, length-Takes t, weigh-insert in_flight sid s s' objects l);
  one_place = λ i. ground (
    arith,
    effect,
    v.one_place i,
    count_handlers-Takes i sid id t,
    weigh-insert (in_session i) sid s s' objects l,
  );
  fresh = λ i g. ground (
    arith,
    effect,
    v.fresh i,
    count_handlers-Takes i sid id t,
    weigh-insert (in_session i) sid s s' objects l,
  );
}
  where
    open w use {server.{objects}}

    absent : count id s.inflight ≡ 0
    absent = ground (
      arith,
      v.one_place id,
      count_handlers-Takes id sid id t,
      weigh-ge (in_session id) sid s objects l,
    )

    effect : s'.inflight ≡ id ∷ s.inflight
    effect = try_start-effect id w.server.max_inflight s s' e absent

reserve-Inv :
    (w : World) (h : ℕ × ℕ) (rest : List (ℕ × ℕ)) (srv : Server)
    → Takes h w.waiting rest
    → try_reserve_global_slot w.server ≡ some srv
    → Inv w
    → Inv (record w { server = srv; waiting = rest; reserved = h ∷ w.reserved })
unfolding try_reserve_global_slot
reserve-Inv w (sid, id) rest srv t e v = record {
  exact = ground (arith, v.exact);
  one_place = λ i. ground (arith, v.one_place i, count_handlers-Takes i sid id t);
  fresh = λ i g. ground (arith, v.fresh i, count_handlers-Takes i sid id t);
}

refuse_total-Inv :
    (w : World) (h : ℕ × ℕ) (rest : List (ℕ × ℕ))
    → Takes h w.waiting rest
    → Inv w
    → Inv (record w { waiting = rest })
refuse_total-Inv w (sid, id) rest t v = record {
  exact = v.exact;
  one_place = λ i. ground (arith, v.one_place i, count_handlers-Takes i sid id t);
  fresh = λ i g. ground (arith, v.fresh i, count_handlers-Takes i sid id t);
}

refuse_session-Inv :
    (w : World) (sid id : ℕ) (rest : List (ℕ × ℕ))
    → Takes (sid, id) w.reserved rest
    → Inv w
    → Inv (record w { reserved = rest; releasing = 1 ∷ w.releasing })
refuse_session-Inv w sid id rest t v = record {
  exact = omega (arith, v.exact, length-Takes t);
  one_place = λ i. ground (arith, v.one_place i, count_handlers-Takes i sid id t);
  fresh = λ i g. ground (arith, v.fresh i, count_handlers-Takes i sid id t);
}

-- A session object is replaced by one with no more requests, and the difference is given back.
shrink-Inv :
    (w : World) (sid n : ℕ) (s s' : Session)
    → lookup sid w.server.objects ≡ some s
    → length s'.inflight + n ≡ length s.inflight
    → ((i : ℕ) → count i s'.inflight ≤ count i s.inflight)
    → Inv w
    → Inv (record w { server = store sid s' w.server; releasing = n ∷ w.releasing })
unfolding store
shrink-Inv w sid n s s' l size part v = record {
  exact = omega (arith, v.exact, size, weigh-insert in_flight sid s s' objects l);
  one_place =
      λ i. omega (arith, v.one_place i, part i, weigh-insert (in_session i) sid s s' objects l);
  fresh = λ i g. omega (arith, v.fresh i g, part i, weigh-insert (in_session i) sid s s' objects l);
}
  where
    open w use {server.{objects}}

leave-Inv :
    (w : World) (sid id : ℕ) (s s' : Session)
    → lookup sid w.server.objects ≡ some s
    → del id s ≡ (s', true)
    → Inv w
    → Inv (record w { server = store sid s' w.server; releasing = 1 ∷ w.releasing })
leave-Inv w sid id s s' l e v =
    shrink-Inv w sid 1 s s' l
      (rw (effect.0) (omega (arith, length-remove id s.inflight, effect.1, single)))
      (λ i. rw (effect.0, remove-count i id s.inflight) (ground arith)) v
  where
    effect : (s'.inflight ≡ remove id s.inflight) × (1 ≤ count id s.inflight)
    effect = del-effect id s s' e

    single : count id s.inflight ≤ 1
    single = omega (arith, v.one_place id, weigh-ge (in_session id) sid s w.server.objects l)

exchange-Inv :
    (w : World) (sid : ℕ) (s s' : Session)
    → lookup sid w.server.objects ≡ some s
    → s'.inflight ≡ s.inflight
    → Inv w
    → Inv (record w { server = store sid s' w.server })
unfolding store
exchange-Inv w sid s s' l e v = record {
  exact = ground (arith, v.exact, weigh-insert in_flight sid s s' objects l);
  one_place = λ i. ground (arith, v.one_place i, weigh-insert (in_session i) sid s s' objects l);
  fresh = λ i g. ground (arith, v.fresh i, weigh-insert (in_session i) sid s s' objects l);
}
  where
    open w use {server.{objects}}

release-Inv :
    (w : World) (n : ℕ) (rest : List ℕ)
    → Takes n w.releasing rest
    → Inv w
    → Inv (record w { server = release_global_slots n w.server; releasing = rest })
unfolding release_global_slots
release-Inv w n rest t v = record {
  exact = ground (arith, v.exact, total-Takes t);
  one_place = λ i. ground (arith, v.one_place i);
  fresh = λ i g. ground (arith, v.fresh i);
}

pub Step-Inv : {w u : World} → Step w u → Inv w → Inv u
unfolding allocate_session new_session
Step-Inv {w} (arrive sid h) v = arrive-Inv w sid h v
Step-Inv {w} (reserve h rest srv t e) v = reserve-Inv w h rest srv t e v
Step-Inv {w} (refuse_total h rest t e) v = refuse_total-Inv w h rest t v
Step-Inv {w} (enter sid id rest s s' t l e) v = enter-Inv w sid id rest s s' t l e v
Step-Inv {w} (refuse_session sid id rest s t l e) v = refuse_session-Inv w sid id rest t v
Step-Inv {w} (leave sid id s s' l e) v = leave-Inv w sid id s s' l e v
Step-Inv {w} (shut sid e s l) v =
    shrink-Inv w sid (shutdown e s).1 s (shutdown e s).0 l (shutdown-effect e s).0
      (shutdown-effect e s).1 v
Step-Inv {w} (release n rest t) v = release-Inv w n rest t v
Step-Inv {w} (connect host username) v = record {
  exact = omega (arith, v.exact);
  one_place = λ i. omega (arith, v.one_place i);
  fresh = λ i g. omega (arith, v.fresh i g);
}
Step-Inv {w} (route table) v = record { exact = v.exact; one_place = v.one_place; fresh = v.fresh }
Step-Inv {w} (exchange sid s s' l e) v = exchange-Inv w sid s s' l e v

-- A server with no session objects and no slot taken.
pub record IsNew (srv : Server) : Type 0 where
  pub no_objects : srv.objects ≡ []
  pub no_slots : srv.total_inflight ≡ 0

initial-Inv : (srv : Server) → IsNew srv → Inv (initial srv)
unfolding initial
initial-Inv srv n = record {
  exact = ground (arith, n.no_slots);
  one_place = λ i. ground (arith, n.no_objects);
  fresh = λ i g. ground (arith, n.no_objects);
}

pub Reach-Inv : (srv : Server) {w : World} → IsNew srv → Reach (initial srv) w → Inv w
Reach-Inv srv n stay = initial-Inv srv n
Reach-Inv srv n (next r st) = Step-Inv st (Reach-Inv srv n r)
