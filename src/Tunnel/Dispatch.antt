-- ===== src/Tunnel/Dispatch.antt =====
-- tunnel/client.go, the loop of `runSession` that takes the server's frames. `send` puts a frame on the
-- stream, whose state is `S`; `http` is what the loop uses
-- of the packages net/url and net/http.
pub mod Requests
pub mod Tests
use muxbridge.Base.{
  ℕ, Bool, true, false, not, ◌&&◌, ◌||◌, Option, none, some, List, [], ◌∷◌, ◌++◌, if◌then◌else◌,
  zero, suc, ltb, length, Bytes, codes, same, lookup, insert, delete, nat_eq,
}
use muxbridge.Base.Text.{to_lower}
use muxbridge.Headers.{Headers, WireHeader, from_proto}
use muxbridge.Wire.{
  RequestStart, ClientFrame, ServerFrame, request_start, request_body, request_end, cancel_request,
  ping, pong, response_error,
}
use muxbridge.Server.Session.{has, include, remove}

any_websocket : List Bytes → Bool
any_websocket [] = false
any_websocket (v ∷ vs) = same (to_lower v) (codes "websocket") || any_websocket vs

-- `isWebSocketUpgrade`; `none` is a nil header.
unfoldable pub is_websocket_upgrade : List (Option WireHeader) → Bool
unfolding any_websocket
is_websocket_upgrade [] = false
is_websocket_upgrade (none ∷ rest) = is_websocket_upgrade rest
is_websocket_upgrade (some h ∷ rest) =
    same (to_lower h.key) (codes "upgrade") && any_websocket h.values || is_websocket_upgrade rest

-- `io.Pipe`: the chunks that its reader has taken, how many more it is reading, and how each side was
-- closed.
pub data PipeEnd : Type 0 where
  pipe_eof : PipeEnd
  pipe_error : Bytes → PipeEnd

pub record Pipe : Type 0 where
  pub taken : List Bytes
  pub wanted : ℕ
  pub write_end : Option PipeEnd
  pub read_end : Option PipeEnd

abbrev pub open_pipe : Pipe
open_pipe = record { taken = []; wanted = 0; write_end = none; read_end = none }

-- The reader reads one more chunk to its end.
unfoldable pub pipe_read : Pipe → Pipe
pipe_read p = record p { wanted = suc p.wanted }

-- A write to a reader that wants none waits.
unfoldable pub hand_over : Bytes → Pipe → ℕ → Option Pipe
hand_over chunk p zero = none
hand_over chunk p (suc n) = some (record p { taken = p.taken ++ chunk ∷ []; wanted = n })

-- A write returns once the reader has taken the chunk, or fails on a closed pipe; `none`: it waits.
unfoldable pub pipe_write : Bytes → Pipe → Option Pipe
unfolding hand_over
pipe_write chunk p = elim p.read_end [
  | some e ↦ some p
  | none ↦ (elim p.write_end [ some e ↦ some p | none ↦ hand_over chunk p p.wanted ])
]

-- The first close counts.
unfoldable pub close_write : PipeEnd → Pipe → Pipe
close_write e p = elim p.write_end [ some old ↦ p | none ↦ record p { write_end = some e } ]

unfoldable pub close_read : PipeEnd → Pipe → Pipe
close_read e p = elim p.read_end [ some old ↦ p | none ↦ record p { read_end = some e } ]

-- `url.URL`
pub record Url : Type 0 where
  pub scheme : Bytes
  pub opaque : Bytes
  pub user : Option Bytes
  pub host : Bytes
  pub path : Bytes
  pub raw_path : Bytes
  pub omit_host : Bool
  pub force_query : Bool
  pub raw_query : Bytes
  pub fragment : Bytes
  pub raw_fragment : Bytes

-- What `http.NewRequestWithContext` makes of a method and a URL's text.
pub record NewRequest : Type 0 where
  pub method : Bytes
  pub url : Url

-- The library's `url.URL.String`, and `http.NewRequestWithContext` on a method and a text: its error, if
-- any, and the request that it makes where there is none.
pub record Http : Type 0 where
  pub url_text : Url → Bytes
  pub request_error : Bytes → Bytes → Option Bytes
  pub new_request : Bytes → Bytes → NewRequest

-- The URL that `requestURL` fills in.
unfoldable pub start_url : RequestStart → Url
start_url m = record {
  scheme = m.scheme;
  opaque = [];
  user = none;
  host = m.host;
  path = if same m.path [] then codes "/" else m.path;
  raw_path = m.raw_path;
  omit_host = false;
  force_query = false;
  raw_query = m.raw_query;
  fragment = [];
  raw_fragment = [];
}

-- `requestURL`
unfoldable pub request_url : Http → RequestStart → Bytes
unfolding start_url
request_url http m = http.url_text (start_url m)

-- The error of the request that a start asks for, and the request.
abbrev pub refusal : Http → RequestStart → Option Bytes
refusal http m = http.request_error m.method (request_url http m)

abbrev pub asked_request : Http → RequestStart → NewRequest
asked_request http m = http.new_request m.method (request_url http m)

pub record HandlerRequest : Type 0 where
  pub method : Bytes
  pub url : Url
  pub header : Headers
  pub host : Bytes
  pub remote_addr : Bytes

unfoldable pub handler_request : Http → RequestStart → HandlerRequest
handler_request http m = record {
  method = (asked_request http m).method;
  url = (asked_request http m).url;
  header = from_proto m.headers;
  host = m.host;
  remote_addr = m.remote_addr;
}

-- `inflightRequest`, with the request that its handler serves.
pub record Inflight : Type 0 where
  pub request : HandlerRequest
  pub canceled : Bool
  pub body : Pipe

-- A socket's channel, which holds 16 payloads.
pub record Inbound : Type 0 where
  pub queue : List Bytes
  pub closed : Bool

abbrev pub inbound_depth : ℕ
inbound_depth = 16

-- The state of the loop. A channel that has left the map `ws_inbound` is still its handler's.
pub record Loop (S : Type 0) : Type 0 where
  pub inflight : List (ℕ × Inflight)
  pub ws_inbound : List ℕ
  pub channels : List (ℕ × Inbound)
  pub stream : S

-- What a frame leads to. `waits`: the channel is full, or the body's reader does not read.
pub data Turn (S : Type 0) : Type 0 where
  goes_on : Loop S → Turn S
  waits : Turn S
  ends_with : Bytes → Loop S → Turn S

module _ {S : Type 0} (send : ClientFrame → S → Option Bytes × S) (http : Http) where
  unfoldable pub put_channel : ℕ → Inbound → Loop S → Loop S
  put_channel id ch l = record l { channels = insert id ch l.channels }

  unfoldable pub put_request : ℕ → Inflight → Loop S → Loop S
  put_request id i l = record l { inflight = insert id i l.inflight }

  unfoldable pub begin_websocket : ℕ → Loop S → Loop S
  unfolding put_channel
  begin_websocket id l =
      put_channel id (record { queue = []; closed = false })
        (record l { ws_inbound = include id l.ws_inbound })

  unfoldable pub begin_request : RequestStart → Loop S → Loop S
  unfolding put_request
  begin_request m l = elim (refusal http m) [
    | some e ↦ record l { stream = (send (response_error m.request_id e) l.stream).1 }
    | none ↦
        put_request m.request_id
          (record { request = handler_request http m; canceled = false; body = open_pipe }) l
  ]

  unfoldable pub on_request : ℕ → (Inflight → Inflight) → Loop S → Loop S
  unfolding put_request
  on_request id f l = elim (lookup id l.inflight) [ none ↦ l | some i ↦ put_request id (f i) l ]

  -- The write to the body of a request, which holds the loop up until the handler reads.
  unfoldable pub write_done : ℕ → Inflight → Option Pipe → Loop S → Turn S
  unfolding put_request
  write_done id i none l = waits
  write_done id i (some p) l = goes_on (put_request id (record i { body = p }) l)

  unfoldable pub write_body : ℕ → Bytes → Option Inflight → Loop S → Turn S
  unfolding write_done
  write_body id chunk none l = goes_on l
  write_body id chunk (some i) l = write_done id i (pipe_write chunk i.body) l

  -- `dispatchWSInbound`; `context` is the session's `ctx.Err()`, and `drop` is the pick of a `select`
  -- that finds both its cases ready.
  unfoldable pub dispatch_ws_inbound : Bool → Option Bytes → ℕ → Bytes → Inbound → Loop S → Turn S
  unfolding put_channel
  dispatch_ws_inbound drop none id payload ch l =
      if ltb (length ch.queue) inbound_depth
      then goes_on (put_channel id (record ch { queue = ch.queue ++ payload ∷ [] }) l)
      else waits
  dispatch_ws_inbound drop (some e) id payload ch l =
      if ltb (length ch.queue) inbound_depth && not drop
      then goes_on (put_channel id (record ch { queue = ch.queue ++ payload ∷ [] }) l)
      else ends_with e l

  unfoldable pub get_ws_inbound : ℕ → Loop S → Option Inbound
  get_ws_inbound id l = if has id l.ws_inbound then lookup id l.channels else none

  unfoldable pub close_ws_inbound : ℕ → Inbound → Loop S → Loop S
  unfolding put_channel
  close_ws_inbound id ch l =
      put_channel id (record ch { closed = true })
        (record l { ws_inbound = remove id l.ws_inbound })

  unfoldable pub answer_ping : Option Bytes × S → Loop S → Turn S
  answer_ping (none, stream) l = goes_on (record l { stream = stream })
  answer_ping (some e, stream) l = ends_with e (record l { stream = stream })

  unfoldable pub dispatch : Bool → Option Bytes → ServerFrame → Loop S → Turn S
  unfolding begin_websocket begin_request on_request write_body dispatch_ws_inbound get_ws_inbound
      close_ws_inbound answer_ping
  dispatch drop context (request_start m) l =
      if is_websocket_upgrade m.headers
      then goes_on (begin_websocket m.request_id l)
      else goes_on (begin_request m l)
  dispatch drop context (request_body id chunk) l = write_body id chunk (lookup id l.inflight) l
  dispatch drop context (request_end id) l =
      goes_on (on_request id (λ i. record i { body = close_write pipe_eof i.body }) l)
  dispatch drop context (cancel_request id) l = goes_on (
      on_request id
        (λ i. record i {
          canceled = true;
          body = close_write (pipe_error (codes "context canceled")) i.body;
        })
        l)
  dispatch drop context (ServerFrame.ws_data id payload) l = elim (get_ws_inbound id l) [
    | none ↦ goes_on l
    | some ch ↦ dispatch_ws_inbound drop context id payload ch l
  ]
  dispatch drop context (ServerFrame.ws_close id) l = elim (get_ws_inbound id l) [
    | none ↦ goes_on l
    | some ch ↦ goes_on (close_ws_inbound id ch l)
  ]
  dispatch drop context (ping t) l = answer_ping (send (pong t) l.stream) l
  dispatch drop context ServerFrame.absent l = goes_on l

  -- The deferred end of `serveRequest`: the request leaves the map.
  unfoldable pub end_request : ℕ → Loop S → Loop S
  end_request id l = record l { inflight = delete id l.inflight }
