-- ===== src/Server/Socket/Losses.antt =====
-- The close of a socket behind the client's last payloads: a run that delivers them, and one that
-- loses them.
use muxbridge.Base.{
  ℕ, ◌+◌, ◌≤◌, ◌≡◌, refl, sym, subst, true, false, some, List, [], ◌∷◌, ◌++◌, arith, Bytes, length,
  length-append, append_assoc, append-nil,
}
use muxbridge.Server.Response.{close_ws, send_or_done, new_ws_state, ws_inbound_queue_depth}
use muxbridge.Server.Exchange.{receive_ws_data}
use muxbridge.Server.Relay.Frames.{joined}
use muxbridge.Server.Socket.{
  Link, live, over, hang_up, take_payload, take_close, write_payload, Relay, gets, gets_close,
  writes, ends, RelayReach, stay, next,
}
use muxbridge.Server.Socket.Payloads.{with_client}

RelayReach-trans :
    {id : ℕ} {x y z : Relay} → RelayReach id x y → RelayReach id y z → RelayReach id x z
RelayReach-trans r stay = r
RelayReach-trans r (next s st) = next (RelayReach-trans r s) st

-- The browser has `w`, and `q` waits for it.
abbrev holding : Bytes → List Bytes → Link
holding w q = record {
  ws = record { from_client = q; done = false; once = false };
  written = w;
  sent = [];
  read_done = false;
}

abbrev closed : Bytes → List Bytes → Link
closed w q = record {
  ws = record { from_client = q; done = true; once = true };
  written = w;
  sent = [];
  read_done = false;
}

abbrev running : Link → List Bytes → Relay
running l incoming = record { socket = live l; incoming = incoming; closing = true }

-- The handler has returned, with nothing of the client still to come.
abbrev pub hung_up : Link → Relay
hung_up l = record { socket = over l; incoming = []; closing = false }

-- A queue with room takes a payload.
take_payload_fits :
    (w : Bytes) (q : List Bytes) (p : Bytes)
    → length q + 1 ≤ ws_inbound_queue_depth
    → take_payload false p (live (holding w q)) ≡ some (live (holding w (q ++ p ∷ [])))
unfolding take_payload receive_ws_data send_or_done
take_payload_fits w q p h = ground arith

take_all :
    (id : ℕ) (w : Bytes) (q ps : List Bytes)
    → length q + length ps ≤ ws_inbound_queue_depth
    → RelayReach id (running (holding w q) ps) (running (holding w (q ++ ps)) [])
take_all id w q [] h =
    subst (λ v. RelayReach id (running (holding w q) []) (running (holding w v) []))
      (sym (append-nil q)) stay
take_all id w q (p ∷ ps) h =
    RelayReach-trans (next stay (gets false (take_payload_fits w q p (ground arith)))) (
      subst (λ v. RelayReach id (running (holding w (q ++ p ∷ [])) ps) (running (holding w v) []))
        (append_assoc q (p ∷ []) ps)
        (take_all id w (q ++ p ∷ []) ps (ground (arith, length-append q (p ∷ [])))))

-- The close is taken, and then `ws.done`.
close_run :
    (id : ℕ) (w : Bytes) (q : List Bytes)
    → RelayReach id (running (holding w q) []) (hung_up (closed w q))
unfolding take_close close_ws hang_up
close_run id w q = next (next stay gets_close) (ends {l = closed w q} refl)

deliver_all :
    (id : ℕ) (w : Bytes) (ps : List Bytes)
    → RelayReach id (running (holding w []) ps) (running (holding (w ++ joined ps) []) [])
unfolding write_payload
deliver_all id w [] =
    subst (λ v. RelayReach id (running (holding w []) []) (running (holding v []) []))
      (sym (append-nil w)) stay
deliver_all id w (p ∷ ps) =
    RelayReach-trans
      (next (next stay (gets false (take_payload_fits w [] p (ground arith)))) (writes true refl))
      (subst (λ v. RelayReach id (running (holding (w ++ p) []) ps) (running (holding v []) []))
        (append_assoc w p (joined ps)) (deliver_all id (w ++ p) ps))

-- There is a run in which all of the client's payloads, whatever their number, reach the browser in
-- their order before the client's close ends the socket.
pub delivered_reachable :
    (id : ℕ) (payloads : List Bytes)
    → (l : Link) × RelayReach id (with_client payloads) (hung_up l) × (l.written ≡ joined payloads)
unfolding new_ws_state
delivered_reachable id payloads = (
  closed (joined payloads) [],
  RelayReach-trans (deliver_all id [] payloads) (close_run id (joined payloads) []),
  refl,
)

-- With four payloads or fewer before the client's close there is a run too, without any error, that
-- ends the socket with none of their bytes at the browser: the handler takes the close first, and does
-- not look at the payloads that wait.
pub lost_reachable :
    (id : ℕ) (payloads : List Bytes)
    → length payloads ≤ ws_inbound_queue_depth
    → (l : Link) × RelayReach id (with_client payloads) (hung_up l)
      × (l.ws.from_client ≡ payloads)
      × (l.written ≡ [])
unfolding new_ws_state
lost_reachable id payloads h = (
  closed [] payloads,
  RelayReach-trans (take_all id [] [] payloads (omega (arith, h))) (close_run id [] payloads),
  refl,
  refl,
)
