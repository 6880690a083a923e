-- ===== src/Server/Socket/Payloads.antt =====
-- What the browser receives of the payloads that the client sent.
use muxbridge.Base.{
  ℕ, ◌≡◌, ◌⊎◌, inl, inr, refl, sym, ap, ◌∙◌, subst, Bool, true, false, some, List, [], ◌∷◌, ◌++◌,
  arith, Bytes, append_assoc, append-nil, Option-cases, some_inj,
}
use muxbridge.Server.Response.{WsState, close_ws, send_or_done, new_ws_state}
use muxbridge.Server.Exchange.{receive_ws_data}
use muxbridge.Server.Relay.Frames.{joined, reassoc, queue_flow}
use muxbridge.Server.Socket.{
  Link, Socket, live, over, opened, hang_up, take_payload, take_close, write_payload,
  drain_buffered, read_payload, read_end, Relay, RelayStep, gets, gets_close, writes, ends, loses,
  leaves, drains, reads, reads_end, RelayReach, stay, next,
}

-- A socket just opened, with the payloads of its client and its close still to come.
abbrev pub with_client : List Bytes → Relay
unfolding opened
with_client payloads = record { socket = live opened; incoming = payloads; closing = true }

-- The bytes that the browser got.
unfoldable pub received : Socket → Bytes
received (live l) = l.written
received (over l) = l.written

-- The bytes that the browser got, that wait, and that are on their way begin the whole; nothing is on
-- its way behind the end of the socket.
abbrev Flows : Bytes → Socket → List Bytes → Type 0
Flows all (live l) incoming =
    ((rest : Bytes) × (l.written ++ (joined l.ws.from_client ++ (joined incoming ++ rest)) ≡ all))
    × ((l.ws.done ≡ false) ⊎ (incoming ≡ []))
Flows all (over l) incoming = (rest : Bytes) × (l.written ++ rest ≡ all)

close_ws-from_client : (ws : WsState) → (close_ws ws).from_client ≡ ws.from_client
unfolding close_ws
close_ws-from_client ws = ground arith

-- The socket is over: the browser has a beginning of the whole.
over_flow :
    (all : Bytes) (s : Socket) (incoming : List Bytes)
    → Flows all s incoming
    → (rest : Bytes) × (received s ++ rest ≡ all)
unfolding received
over_flow all (live l) incoming ((rest, e), d) =
    (joined l.ws.from_client ++ (joined incoming ++ rest), e)
over_flow all (over l) incoming h = h

-- What was on its way is lost, or was nothing.
take_close-Flows :
    (all : Bytes) (s : Socket) (incoming : List Bytes)
    → Flows all s incoming
    → Flows all (take_close s) []
unfolding take_close
take_close-Flows all (over l) incoming h = h
take_close-Flows all (live l) incoming ((rest, e), d) = (
  (
    joined incoming ++ rest,
    ap (λ q. l.written ++ (joined q ++ (joined incoming ++ rest))) (close_ws-from_client l.ws) ∙ e,
  ),
  inr refl,
)

hang_up-Flows :
    (all : Bytes) (l : Link) (incoming : List Bytes)
    → Flows all (live l) incoming
    → Flows all (hang_up l) incoming
unfolding hang_up
hang_up-Flows all l incoming ((rest, e), d) =
    (joined l.ws.from_client ++ (joined incoming ++ rest), e)

receive_ws_data-open :
    (drop : Bool) (payload : Bytes) (ws ws' : WsState)
    → ws.done ≡ false
    → receive_ws_data drop payload ws ≡ some ws'
    → (ws'.from_client ≡ ws.from_client ++ payload ∷ []) × (ws'.done ≡ false)
unfolding receive_ws_data send_or_done
receive_ws_data-open drop payload ws ws' d g = ground arith

take_payload-Flows :
    (all : Bytes) (drop : Bool) (payload : Bytes) (s s' : Socket) (incoming : List Bytes)
    → take_payload drop payload s ≡ some s'
    → Flows all s (payload ∷ incoming)
    → Flows all s' incoming
unfolding take_payload
take_payload-Flows all drop payload (over l) s' incoming g h =
    subst (λ x. Flows all x incoming) (some_inj g) h
take_payload-Flows all drop payload (live l) s' incoming g ((rest, e), inr bad) = cc
take_payload-Flows all drop payload (live l) s' incoming g ((rest, e), inl d) =
    elim (Option-cases (receive_ws_data drop payload l.ws)) [
      | inl waits ↦ cc (rw (waits, take_payload) at g)
      | inr (ws, q) ↦
          let took = receive_ws_data-open drop payload l.ws ws d q in
          subst (λ x. Flows all x incoming) (some_inj (rw (q, take_payload) at g))
            (
              (
                rest,
                ap (λ x. l.written ++ (joined x ++ (joined incoming ++ rest))) took.0
                    ∙ queue_flow l.written l.ws.from_client payload (joined incoming ++ rest)
                    ∙ ap (λ x. l.written ++ (joined l.ws.from_client ++ x))
                        (sym (append_assoc payload (joined incoming) rest))
                    ∙ e,
              ),
              inl took.1,
            )
    ]

write_queued-Flows :
    (all : Bytes) (fine : Bool) (l : Link) (s : Socket) (incoming q : List Bytes)
    → l.ws.from_client ≡ q
    → write_payload fine l ≡ some s
    → Flows all (live l) incoming
    → Flows all s incoming
unfolding write_payload hang_up
write_queued-Flows all fine l s incoming [] q g h = cc (rw q at g)
write_queued-Flows all true l s incoming (p ∷ ps) q g ((rest, e), d) =
    subst (λ x. Flows all x incoming) (some_inj (rw q at g))
      ((rest, sym (reassoc l.written p (joined ps) (joined incoming ++ rest)) ∙ rw q at e), d)
write_queued-Flows all false l s incoming (p ∷ ps) q g ((rest, e), d) =
    subst (λ x. Flows all x incoming) (some_inj (rw q at g))
      (joined l.ws.from_client ++ (joined incoming ++ rest), e)

read_payload-Flows :
    (all : Bytes) (id : ℕ) (payload : Bytes) (taken : Bool) (l : Link) (incoming : List Bytes)
    → Flows all (live l) incoming
    → Flows all (live (read_payload id payload taken l)) incoming
unfolding read_payload
read_payload-Flows all id payload true l incoming h = h
read_payload-Flows all id payload false l incoming h = h

drain_buffered-Flows :
    (all : Bytes) (id : ℕ) (buffered : Bytes) (taken : Bool) (l : Link) (incoming : List Bytes)
    → Flows all (live l) incoming
    → Flows all (live (drain_buffered id buffered taken l)) incoming
unfolding drain_buffered
drain_buffered-Flows all id buffered true l incoming h = h
drain_buffered-Flows all id buffered false l incoming h = h

RelayStep-Flows :
    (all : Bytes) {id : ℕ} {x y : Relay}
    → RelayStep id x y
    → Flows all x.socket x.incoming
    → Flows all y.socket y.incoming
unfolding read_end
RelayStep-Flows all (gets drop g) h = take_payload-Flows all drop _ _ _ _ g h
RelayStep-Flows all gets_close h = take_close-Flows all _ [] h
RelayStep-Flows all (writes fine g) h = write_queued-Flows all fine _ _ _ _ refl g h
RelayStep-Flows all (ends e) h = hang_up-Flows all _ _ h
RelayStep-Flows all loses h = take_close-Flows all _ _ h
RelayStep-Flows all leaves h = hang_up-Flows all _ _ h
RelayStep-Flows all (drains buffered taken e f) h = drain_buffered-Flows all _ buffered taken _ _ h
RelayStep-Flows all (reads payload taken e) h = read_payload-Flows all _ payload taken _ _ h
RelayStep-Flows all (reads_end taken e) h = h

RelayReach-Flows :
    (payloads : List Bytes) {id : ℕ} {x : Relay}
    → RelayReach id (with_client payloads) x
    → Flows (joined payloads) x.socket x.incoming
unfolding new_ws_state
RelayReach-Flows payloads stay = (([], append-nil (joined payloads)), inl refl)
RelayReach-Flows payloads (next r st) =
    RelayStep-Flows (joined payloads) st (RelayReach-Flows payloads r)

-- Whatever the order in which the session takes the payloads of the client and its close, the handler
-- writes, the browser sends, writes fail, and the session or the browser ends: the bytes that the
-- browser got are a beginning of the client's bytes, with none left out, doubled or swapped.
pub received_in_order :
    (id : ℕ) (payloads : List Bytes) (x : Relay)
    → RelayReach id (with_client payloads) x
    → (rest : Bytes) × (received x.socket ++ rest ≡ joined payloads)
received_in_order id payloads x r =
    over_flow (joined payloads) x.socket x.incoming (RelayReach-Flows payloads r)
