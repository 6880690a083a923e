-- ===== src/Tunnel/Session/Tests.antt =====
-- A session with one request and a ping, which the edge ends.
use muxbridge.Base.{
  ◌≡◌, refl, false, none, some, List, [], ◌∷◌, ◌++◌, codes, insert, lookup, nat_eq, same,
}
use muxbridge.Base.Text.{split}
use muxbridge.Headers.{to_proto}
use muxbridge.Server.Forward.{start_frame, forward_request}
use muxbridge.Server.Forward.Frames.{taking, never_done}
use muxbridge.Server.Forward.Tests.{upload}
use muxbridge.Tunnel.Session.Delivered.{attended, browser_request, ended, request_delivered}
use muxbridge.Wire.{ClientFrame, request_start, ping, pong, response_end, register}
use muxbridge.Tunnel.Connection.Tests.{sample_config}
use muxbridge.Tunnel.Socket.Tests.{upgrade}
use muxbridge.Tunnel.Dispatch.Tests.{accepts}
use muxbridge.Tunnel.Writer.Frames.{logging}
use muxbridge.Tunnel.Dispatch.{
  Inflight, Loop, start_url, request_url, handler_request, open_pipe, is_websocket_upgrade,
  begin_request, put_request, answer_ping, dispatch,
}
use muxbridge.Tunnel.Session.{
  idle, connecting, ready, transient_failure, wait_for_conn_ready, abort, Ended, end_session,
  abort_all, close_channels, Event, receives, handler_sends, on_event, run_loop, finish_loop,
  registered, run_session,
}
use muxbridge.Tunnel.Session.Replies.{replies, IsLive, session_frames}
use muxbridge.Tunnel.Session.Aborted.{IsOver, run_session-IsOver}

abbrev pinged : List Event
pinged =
    receives false none (request_start upgrade)
    ∷ receives false none (ping 9)
    ∷ handler_sends (response_end 4)
    ∷ []

abbrev begun : Inflight
begun = record { request = handler_request accepts upgrade; canceled = false; body = open_pipe }

abbrev pinged_end : Ended (List ClientFrame)
pinged_end = record {
  result = none;
  aborted = (5, abort begun) ∷ [];
  loop = record {
    inflight = [];
    ws_inbound = [];
    channels = [];
    stream = register [] (codes "t1") ∷ pong 9 ∷ response_end 4 ∷ [];
  };
}

pinged-ends : run_session logging accepts sample_config pinged none [] ≡ some pinged_end
unfolding run_session registered finish_loop end_session abort_all close_channels run_loop on_event
    dispatch is_websocket_upgrade begin_request put_request answer_ping insert
pinged-ends = refl

session_frames_example :
    (rest : List ClientFrame) × (pinged_end.loop.stream ++ rest
      ≡ register [] (codes "t1") ∷ replies accepts pinged)
    × (IsLive accepts pinged → rest ≡ [])
session_frames_example = session_frames accepts sample_config pinged none pinged_end pinged-ends

run_session-IsOver_example :
    IsOver logging accepts pinged none (logging (register [] (codes "t1")) []) pinged_end
run_session-IsOver_example =
    run_session-IsOver logging accepts sample_config pinged none [] pinged_end pinged-ends

wait_for_conn_ready_test :
    wait_for_conn_ready none idle (connecting ∷ transient_failure ∷ ready ∷ []) ≡ none
unfolding wait_for_conn_ready
wait_for_conn_ready_test = refl

abbrev quiet : Loop (List ClientFrame)
quiet = record { inflight = []; ws_inbound = []; channels = []; stream = [] }

request_delivered_example :
    (l' : Loop (List ClientFrame)) × (run_loop logging accepts
        (attended 7 (forward_request taking never_done 7 upload []).1)
        none
        quiet
      ≡ some (none, l'))
    × (lookup 7 l'.inflight
        ≡ some (ended (browser_request upload) (codes "he" ∷ codes "llo" ∷ []) 1))
unfolding start_frame is_websocket_upgrade to_proto start_url request_url split same
request_delivered_example =
    request_delivered logging accepts 7 upload none quiet refl refl refl refl
