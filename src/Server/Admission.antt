-- ===== src/Server/Admission.antt =====
-- server/server.go, the handlers of `Server` as concurrent threads. Each step is one atomic operation
-- or one region under a mutex of `ServeHTTP`, `serveWebSocket`, `tryStartRequest`, `finishRequest`,
-- `Connect`, `putSession` and `removeSession`, in any order that the scheduler takes.
mod Weights
pub mod Accounting
pub mod Limits
pub mod Tests
use muxbridge.Base.{
  ℕ, suc, ◌+◌, ◌^◌, ◌<◌, ◌≡◌, Bool, true, false, Option, none, some, List, [], ◌∷◌, ◌++◌, Bytes,
  lookup, insert, nat_eq,
}
use muxbridge.Wire.{ServerFrame}
use muxbridge.Server.Session.{Session, try_start, del, shutdown}
use muxbridge.Server.State.{Server, increment, try_reserve_global_slot, release_global_slots, store}

-- The request handlers that have taken an id and wait for a slot; those that hold a slot and have
-- not yet entered their session; and the slots that a thread has freed and not yet given back.
-- A handler is its session's id with its request's id.
pub record World : Type 0 where
  pub server : Server
  pub waiting : List (ℕ × ℕ)
  pub reserved : List (ℕ × ℕ)
  pub releasing : List ℕ

-- `Takes x xs ys`: without one `x`, `xs` is `ys`.
pub data Takes {A : Type 0} (x : A) : List A → List A → Type 0 where
  here : {xs : List A} → Takes x (x ∷ xs) xs
  there : {y : A} {xs ys : List A} → Takes x xs ys → Takes x (y ∷ xs) (y ∷ ys)

-- A session object as `Connect` makes it.
unfoldable pub new_session : ℕ → Bytes → Bytes → Session
new_session id host username = record {
  id = id;
  public_host = host;
  username = username;
  outbound = [];
  done = false;
  once = false;
  inflight = [];
  ws_map = [];
  responses = [];
  sockets = [];
}

-- The allocation in `Connect`, without the table of sessions.
unfoldable pub allocate_session : Bytes → Bytes → Server → Server × ℕ
allocate_session host username srv =
    let id = increment srv.next_session_id in
    (
      record srv {
        next_session_id = id;
        objects = (id, new_session id host username) ∷ srv.objects;
      },
      id,
    )

unfoldable pub take_request_id : Server → Server × ℕ
take_request_id srv =
    let id = increment srv.next_request_id in (record srv { next_request_id = id }, id)

pub data Step (w : World) : World → Type 0 where
  -- `s.nextRequestID.Add(1)`; the counter has not wrapped around
  arrive :
      (sid : ℕ)
      → w.server.next_request_id + 1 < 2 ^ 64
      → Step w (record w {
        server = (take_request_id w.server).0;
        waiting = (sid, (take_request_id w.server).1) ∷ w.waiting;
      })
  -- `s.tryReserveGlobalSlot()`
  reserve :
      (h : ℕ × ℕ) (rest : List (ℕ × ℕ)) (srv : Server)
      → Takes h w.waiting rest
      → try_reserve_global_slot w.server ≡ some srv
      → Step w (record w { server = srv; waiting = rest; reserved = h ∷ w.reserved })
  refuse_total :
      (h : ℕ × ℕ) (rest : List (ℕ × ℕ))
      → Takes h w.waiting rest
      → try_reserve_global_slot w.server ≡ none
      → Step w (record w { waiting = rest })
  -- `sess.tryStart(id, s.maxInflight)`
  enter :
      (sid id : ℕ) (rest : List (ℕ × ℕ)) (s s' : Session)
      → Takes (sid, id) w.reserved rest
      → lookup sid w.server.objects ≡ some s
      → try_start id w.server.max_inflight s ≡ some s'
      → Step w (record w { server = store sid s' w.server; reserved = rest })
  refuse_session :
      (sid id : ℕ) (rest : List (ℕ × ℕ)) (s : Session)
      → Takes (sid, id) w.reserved rest
      → lookup sid w.server.objects ≡ some s
      → try_start id w.server.max_inflight s ≡ none
      → Step w (record w { reserved = rest; releasing = 1 ∷ w.releasing })
  -- `sess.del(id)` of `finishRequest`
  leave :
      (sid id : ℕ) (s s' : Session)
      → lookup sid w.server.objects ≡ some s
      → del id s ≡ (s', true)
      → Step w (record w { server = store sid s' w.server; releasing = 1 ∷ w.releasing })
  -- `session.shutdown(err)`
  shut :
      (sid : ℕ) (e : Option Bytes) (s : Session)
      → lookup sid w.server.objects ≡ some s
      → Step w (record w {
        server = store sid (shutdown e s).0 w.server;
        releasing = (shutdown e s).1 ∷ w.releasing;
      })
  -- `s.releaseGlobalSlots(n)`
  release :
      (n : ℕ) (rest : List ℕ)
      → Takes n w.releasing rest
      → Step w (record w { server = release_global_slots n w.server; releasing = rest })
  -- a new tunnel
  connect :
      (host username : Bytes)
      → Step w (record w { server = (allocate_session host username w.server).0 })
  -- the table of sessions
  route :
      (table : List (Bytes × ℕ))
      → Step w (record w { server = record w.server { sessions = table } })
  -- frames, queues and sockets of one session
  exchange :
      (sid : ℕ) (s s' : Session)
      → lookup sid w.server.objects ≡ some s
      → s'.inflight ≡ s.inflight
      → Step w (record w { server = store sid s' w.server })

pub data Reach (w : World) : World → Type 0 where
  stay : Reach w w
  next : {u v : World} → Reach w u → Step u v → Reach w v

-- A server as `New` makes it, and nobody there.
unfoldable pub initial : Server → World
initial srv = record { server = srv; waiting = []; reserved = []; releasing = [] }
