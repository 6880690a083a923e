-- ===== src/Tunnel/Socket/Tests.antt =====
-- A handler that echoes, and one that refuses with a page.
use muxbridge.Base.{
  ◌≡◌, refl, Bool, true, false, some, List, [], ◌∷◌, ◌++◌, Bytes, codes, arith, delete_if, none,
}
use muxbridge.Headers.{from_proto, to_proto, copy}
use muxbridge.Wire.{RequestStart, ClientFrame, response_start, response_body, response_end}
use muxbridge.Server.Response.{new_response_state, send_or_done}
use muxbridge.Server.Exchange.{receive_frame}
use muxbridge.Server.Relay.{start_response}
use muxbridge.Server.Relay.Frames.{fresh_writer, joined, response_frames}
use muxbridge.Server.Socket.{
  hijacks, waits_for, refuses, pick_start, Shake, ShakeStep, ShakeReach, answer, take_start,
  upgrade_step, upgrade_deliver,
}
use muxbridge.Server.Socket.Refusals.{asked}
use muxbridge.Tunnel.Dispatch.Tests.{accepts}
use muxbridge.Tunnel.Writer.Frames.{logging, start_of}
use muxbridge.Tunnel.Socket.{
  Ask, Handshake, responds, open_socket, on_handshake, report, follow, forward_refusal, Listener,
  conn, err_closed, accept_waits, new_one_conn_listener, accept, close_listener, Side, relaying,
  closing, Relay, RelayReach, arrives, shuts, takes, arrive, take_inbound,
}
use muxbridge.Tunnel.Socket.Delivery.{opened_socket, received, handler_receives}
use muxbridge.Tunnel.Socket.Opened.{unreliable, stream_of, answer_frames, open_socket_frames}
use muxbridge.Tunnel.Socket.Journey.{sent_frames, refused_page_lost}

abbrev side : List Bytes → Bytes → Bool → Side (List ClientFrame)
side queue w over_ = record {
  inbound = record { queue = queue; closed = over_ };
  written = w;
  read_done = false;
  stream = [];
}

abbrev one_payload : List Bytes
one_payload = codes "hi" ∷ []

abbrev shut_socket : Relay (List ClientFrame)
shut_socket = record { socket = closing (side [] (codes "hi") true); incoming = []; ending = false }

shut_socket-RelayReach : RelayReach logging 5 (opened_socket [] one_payload) shut_socket
unfolding arrive take_inbound
shut_socket-RelayReach =
    RelayReach.next
      (RelayReach.next
        (RelayReach.next
          (RelayReach.next RelayReach.stay
            (arrives {p = side [] [] false} (record { queue = one_payload; closed = false }) refl))
          (takes {p = side one_payload [] false} {s = relaying (side [] (codes "hi") false)} true
            refl))
        (shuts {p = side [] (codes "hi") false} refl))
      (takes {p = side [] (codes "hi") true} {s = closing (side [] (codes "hi") true)} true refl)

handler_receives_example :
    ((rest : Bytes) × (received shut_socket.socket ++ rest ≡ joined one_payload))
    × ((p : Side (List ClientFrame))
        → shut_socket.socket ≡ closing p
        → shut_socket.ending ≡ false
        → p.written ≡ joined one_payload)
handler_receives_example =
    handler_receives logging 5 [] one_payload shut_socket shut_socket-RelayReach

abbrev pub upgrade : RequestStart
upgrade = record {
  request_id = 5;
  method = codes "GET";
  scheme = codes "https";
  host = codes "demo.example.com";
  path = codes "/ws";
  raw_query = [];
  headers = [];
  remote_addr = codes "10.0.0.1:4000";
  raw_path = [];
}

abbrev forbids : Ask → Handshake
forbids a = responds 403 [] (codes "no" ∷ [])

open_socket_frames_example :
    (rest : List ClientFrame) × ((stream_of (
          open_socket unreliable accepts forbids upgrade
            (record { failures = false ∷ true ∷ []; log = [] }))).log
        ++ rest
      ≡ answer_frames accepts forbids upgrade)
    × ((false ∷ true ∷ []) ≡ [] → rest ≡ [])
open_socket_frames_example = open_socket_frames accepts forbids upgrade (false ∷ true ∷ [])

abbrev refused : Shake
refused = record {
  upgrade = refuses (start_response (start_of 5 403 []) (fresh_writer []));
  incoming = response_body 5 (codes "no") ∷ response_end 5 ∷ [];
  ended = false;
  gone = false;
}

refused-ShakeReach :
    ShakeReach (hijacks []) (asked [] (sent_frames accepts forbids upgrade)) refused
unfolding upgrade_deliver upgrade_step take_start answer receive_frame send_or_done
    new_response_state open_socket on_handshake report follow forward_refusal unreliable to_proto
    delete_if
refused-ShakeReach =
    ShakeReach.next
      (ShakeReach.next ShakeReach.stay (
        ShakeStep.receives false none (response_start (start_of 5 403 []))
          (response_body 5 (codes "no") ∷ response_end 5 ∷ [])
          (waits_for (record new_response_state { start = start_of 5 403 [] ∷ [] })
            (fresh_writer []))
          refl refl))
      (ShakeStep.picks pick_start (refuses (start_response (start_of 5 403 []) (fresh_writer [])))
        refl)

refused_page_lost_example :
    (sent_frames accepts forbids upgrade ≡ response_frames (start_of 5 403 []) (codes "no" ∷ []))
    × ((start_response (start_of 5 403 []) (fresh_writer [])).status ≡ some 403)
    × ((start_response (start_of 5 403 []) (fresh_writer [])).header
        ≡ copy [] (from_proto (start_of 5 403 []).headers))
    × ((start_response (start_of 5 403 []) (fresh_writer [])).body ≡ [])
refused_page_lost_example =
    refused_page_lost accepts forbids upgrade 403 [] (codes "no" ∷ []) (hijacks []) [] refused
      (start_response (start_of 5 403 []) (fresh_writer [])) refl refl (omega arith)
      refused-ShakeReach refl

abbrev taken_once : Listener
unfolding accept new_one_conn_listener
taken_once = (accept (new_one_conn_listener 1)).1

listener_test :
    ((accept (new_one_conn_listener 1)).0 ≡ conn 1)
    × ((accept taken_once).0 ≡ accept_waits)
    × ((accept (close_listener taken_once)).0 ≡ err_closed)
    × ((accept (close_listener (new_one_conn_listener 1))).0 ≡ conn 1)
unfolding accept new_one_conn_listener close_listener taken_once
listener_test = (refl, refl, refl, refl)
