-- ===== src/Server/Socket/Tests.antt =====
-- Sockets with two payloads, and upgrades that are refused and taken.
use muxbridge.Base.{
  ◌≤◌, ◌≡◌, refl, true, false, List, [], ◌∷◌, ◌++◌, Bytes, codes, arith, delete_if, none,
}
use muxbridge.Headers.{from_proto}
use muxbridge.Wire.{ResponseStart, response_start, response_body}
use muxbridge.Server.Response.{
  new_response_state, send_or_done, close_ws, ws_inbound_queue_depth, new_ws_state,
}
use muxbridge.Server.Exchange.{receive_frame, receive_ws_data}
use muxbridge.Server.Relay.{start_response, write_header}
use muxbridge.Server.Relay.Frames.{fresh_writer, joined}
use muxbridge.Server.Socket.{
  hijacks, waits_for, refuses, pick_start, Shake, ShakeStep, ShakeReach, Link, Relay, RelayReach,
  live, gets, writes, answer, take_start, upgrade_step, upgrade_deliver, upgrade_text, take_payload,
  write_payload, hang_up, opened, leaves,
}
use muxbridge.Server.Socket.Refusals.{IsAnswer, asked, upgrade_answers}
use muxbridge.Server.Socket.Payloads.{with_client, received, received_in_order}
use muxbridge.Server.Socket.Losses.{hung_up, delivered_reachable, lost_reachable}

abbrev two_payloads : List Bytes
two_payloads = codes "to" ∷ codes "fro" ∷ []

abbrev with_queue : Bytes → List Bytes → Link
with_queue w q = record {
  ws = record { from_client = q; done = false; once = false };
  written = w;
  sent = [];
  read_done = false;
}

-- One payload is written, and the other waits, as the browser leaves.
abbrev left_early : Relay
unfolding hang_up close_ws
left_early = record {
  socket = hang_up (with_queue (codes "to") (codes "fro" ∷ []));
  incoming = [];
  closing = true;
}

left_early-RelayReach : RelayReach 3 (with_client two_payloads) left_early
unfolding take_payload write_payload receive_ws_data send_or_done hang_up close_ws opened
    new_ws_state
left_early-RelayReach =
    RelayReach.next
      (RelayReach.next
        (RelayReach.next
          (RelayReach.next RelayReach.stay
            (gets {s' = live (with_queue [] (codes "to" ∷ []))} false refl))
          (gets {s' = live (with_queue [] two_payloads)} false refl))
        (writes {l = with_queue [] two_payloads}
          {s = live (with_queue (codes "to") (codes "fro" ∷ []))} true refl))
      (leaves {l = with_queue (codes "to") (codes "fro" ∷ [])})

received_in_order_example :
    (rest : Bytes) × (received left_early.socket ++ rest ≡ joined two_payloads)
received_in_order_example = received_in_order 3 two_payloads left_early left_early-RelayReach

delivered_reachable_example :
    (l : Link) × RelayReach 3 (with_client two_payloads) (hung_up l)
    × (l.written ≡ joined two_payloads)
delivered_reachable_example = delivered_reachable 3 two_payloads

two_payloads-fit : 2 ≤ ws_inbound_queue_depth
two_payloads-fit = omega arith

lost_reachable_example :
    (l : Link) × RelayReach 3 (with_client two_payloads) (hung_up l)
    × (l.ws.from_client ≡ two_payloads)
    × (l.written ≡ [])
lost_reachable_example = lost_reachable 3 two_payloads two_payloads-fit

abbrev forbidden : ResponseStart
forbidden = record { request_id = 3; status_code = 403; headers = [] }

-- The refusal and its page are taken in, and the handler reads the refusal.
abbrev refused_page : Shake
unfolding start_response write_header
refused_page = record {
  upgrade = refuses (start_response forbidden (fresh_writer []));
  incoming = [];
  ended = false;
  gone = false;
}

refused_page-ShakeReach :
    ShakeReach
      (hijacks [])
      (asked [] (response_start forbidden ∷ response_body 3 (codes "no") ∷ []))
      refused_page
unfolding upgrade_deliver upgrade_step take_start answer receive_frame send_or_done
    new_response_state refused_page
refused_page-ShakeReach =
    ShakeReach.next
      (ShakeReach.next
        (ShakeReach.next ShakeReach.stay (
          ShakeStep.receives false none (response_start forbidden)
            (response_body 3 (codes "no") ∷ [])
            (waits_for (record new_response_state { start = forbidden ∷ [] }) (fresh_writer []))
            refl refl))
        (ShakeStep.receives false none (response_body 3 (codes "no")) []
          (waits_for (record new_response_state { start = forbidden ∷ []; body = codes "no" ∷ [] })
            (fresh_writer []))
          refl refl))
      (ShakeStep.picks pick_start (refuses (start_response forbidden (fresh_writer []))) refl)

upgrade_answers_example : IsAnswer (hijacks []) forbidden [] refused_page.upgrade
upgrade_answers_example =
    upgrade_answers (hijacks []) forbidden []
      (response_start forbidden ∷ response_body 3 (codes "no") ∷ []) refused_page (refl, (tt, tt))
      refused_page-ShakeReach

upgrade_text_test :
    upgrade_text forbidden ≡ codes "HTTP/1.1 101 Switching Protocols" ++ (13 ∷ 10 ∷ 13 ∷ 10 ∷ [])
unfolding upgrade_text from_proto delete_if
upgrade_text_test = refl
