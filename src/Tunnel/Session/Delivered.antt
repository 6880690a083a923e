-- ===== src/Tunnel/Session/Delivered.antt =====
-- What the session's loop makes of the frames of a request.
use muxbridge.Base.{
  ℕ, suc, ◌≡◌, refl, sym, ap, ◌∙◌, false, Option, none, some, List, [], ◌∷◌, ◌++◌, arith, Bytes,
  append_assoc, append-nil, lookup, lookup-insert, nat_eq, ==_iff, map, codes, same, if◌then◌else◌,
}
use muxbridge.Headers.{to_proto, from_proto}
use muxbridge.Wire.{
  RequestStart, ClientFrame, ServerFrame, request_start, request_body, request_end,
}
use muxbridge.Server.Forward.{Reads, Request, start_frame, forward_request}
use muxbridge.Server.Forward.Frames.{
  taking, never_done, chunks_of, bodies, last_frames, body_frames, body_error, forward_request_lem,
}
use muxbridge.Tunnel.Dispatch.{
  is_websocket_upgrade, pipe_eof, pipe_read, hand_over, pipe_write, close_write, Http, NewRequest,
  start_url, refusal, HandlerRequest, Url, request_url, handler_request, Inflight, Loop, goes_on,
  waits, put_request, begin_request, on_request, write_done, write_body, dispatch,
}
use muxbridge.Tunnel.Session.{Event, receives, handler_reads, on_event, run_loop}

-- The chunks of a body, if there is one.
abbrev pub body_chunks : Option Reads → List Bytes
body_chunks none = []
body_chunks (some body) = chunks_of body

body_frames-whole :
    (id : ℕ) (body : Option Reads)
    → body_error body ≡ none
    → body_frames id body ≡ bodies id (body_chunks body) ++ request_end id ∷ []
body_frames-whole id none e = refl
body_frames-whole id (some b) e = ap (λ x. bodies id (chunks_of b) ++ last_frames id x) e

-- The frames as the loop receives them, its context not done, with a read of the request's handler
-- before each one behind the start.
abbrev pub attended : ℕ → List ServerFrame → List Event
attended id [] = []
attended id (request_start m ∷ fs) = receives false none (request_start m) ∷ attended id fs
attended id (f ∷ fs) = handler_reads id ∷ receives false none f ∷ attended id fs

-- The URL that the browser asked for, and its request as the handler is to serve it.
abbrev pub browser_url : Request → Url
browser_url r = record {
  scheme = if r.has_tls then codes "https" else codes "http";
  opaque = [];
  user = none;
  host = r.host;
  path = if same r.path [] then codes "/" else r.path;
  raw_path = r.raw_path;
  omit_host = false;
  force_query = false;
  raw_query = r.raw_query;
  fragment = [];
  raw_fragment = [];
}

abbrev pub browser_request : Request → HandlerRequest
browser_request r = record {
  method = r.method;
  url = browser_url r;
  header = from_proto (map some (to_proto r.header));
  host = r.host;
  remote_addr = r.remote_addr;
}

-- The request while its body is on its way.
abbrev reading : HandlerRequest → List Bytes → ℕ → Inflight
reading r cs n = record {
  request = r;
  canceled = false;
  body = record { taken = cs; wanted = n; write_end = none; read_end = none };
}

-- The request whose body has come whole, with its end.
abbrev pub ended : HandlerRequest → List Bytes → ℕ → Inflight
ended r cs n = record {
  request = r;
  canceled = false;
  body = record { taken = cs; wanted = n; write_end = some pipe_eof; read_end = none };
}

module _ {S : Type 0} (send : ClientFrame → S → Option Bytes × S) (http : Http) where
  put_request-lookup :
      (id : ℕ) (i : Inflight) (l : Loop S)
      → lookup id (put_request send http id i l).inflight ≡ some i
  unfolding put_request
  put_request-lookup id i l = ground (arith, ==_iff id id, lookup-insert id id i l.inflight)

  run_loop-goes_on :
      (x : Event) (rest : List Event) (stop : Option Bytes) (l l' : Loop S)
      → on_event send http x l ≡ goes_on l'
      → run_loop send http (x ∷ rest) stop l ≡ run_loop send http rest stop l'
  unfolding run_loop
  run_loop-goes_on x rest stop l l' e = rw (e, run_loop) refl

  read_event :
      (id : ℕ) (r : HandlerRequest) (cs : List Bytes) (n : ℕ) (l : Loop S)
      → lookup id l.inflight ≡ some (reading r cs n)
      → on_event send http (handler_reads id) l
        ≡ goes_on (put_request send http id (reading r cs (suc n)) l)
  unfolding on_event on_request pipe_read
  read_event id r cs n l g = ap goes_on (rw (g, on_request) refl)

  body_event :
      (id : ℕ) (c : Bytes) (r : HandlerRequest) (cs : List Bytes) (n : ℕ) (l : Loop S)
      → lookup id l.inflight ≡ some (reading r cs (suc n))
      → on_event send http (receives false none (request_body id c)) l
        ≡ goes_on (put_request send http id (reading r (cs ++ c ∷ []) n) l)
  unfolding on_event dispatch write_body write_done pipe_write hand_over
  body_event id c r cs n l g = rw (g, on_event) refl

  end_event :
      (id : ℕ) (r : HandlerRequest) (cs : List Bytes) (n : ℕ) (l : Loop S)
      → lookup id l.inflight ≡ some (reading r cs n)
      → on_event send http (receives false none (request_end id)) l
        ≡ goes_on (put_request send http id (ended r cs n) l)
  unfolding on_event dispatch on_request close_write
  end_event id r cs n l g = ap goes_on (rw (g, on_request) refl)

  -- A body that its handler does not read holds the loop up.
  pub unread_waits :
      (id : ℕ) (c : Bytes) (r : HandlerRequest) (cs : List Bytes) (l : Loop S)
      → lookup id l.inflight ≡ some (reading r cs 0)
      → dispatch send http false none (request_body id c) l ≡ waits
  unfolding dispatch write_body write_done pipe_write hand_over
  unread_waits id c r cs l g = rw (g, dispatch) refl

  bodies-delivered :
      (id : ℕ) (new cs : List Bytes) (r : HandlerRequest) (stop : Option Bytes) (l : Loop S)
      → lookup id l.inflight ≡ some (reading r cs 0)
      → (l' : Loop S) × (run_loop send http
            (attended id (bodies id new ++ request_end id ∷ []))
            stop
            l
          ≡ some (stop, l'))
        × (lookup id l'.inflight ≡ some (ended r (cs ++ new) 1))
  unfolding run_loop
  bodies-delivered id [] cs r stop l g =
      let l1 = put_request send http id (reading r cs 1) l in
      let found : lookup id l1.inflight ≡ some (reading r cs 1) =
        put_request-lookup id (reading r cs 1) l in
      (
        put_request send http id (ended r cs 1) l1,
        run_loop-goes_on (handler_reads id) (receives false none (request_end id) ∷ []) stop l l1
              (read_event id r cs 0 l g)
            ∙ run_loop-goes_on (receives false none (request_end id)) [] stop l1 _
                (end_event id r cs 1 l1 found),
        put_request-lookup id (ended r cs 1) l1
            ∙ ap (λ t. some (ended r t 1)) (sym (append-nil cs)),
      )
  bodies-delivered id (c ∷ new) cs r stop l g =
      let l1 = put_request send http id (reading r cs 1) l in
      let l2 = put_request send http id (reading r (cs ++ c ∷ []) 0) l1 in
      let found : lookup id l1.inflight ≡ some (reading r cs 1) =
        put_request-lookup id (reading r cs 1) l in
      let rest = attended id (bodies id new ++ request_end id ∷ []) in
      let (l', e, k) =
        bodies-delivered id new (cs ++ c ∷ []) r stop l2
          (put_request-lookup id (reading r (cs ++ c ∷ []) 0) l1) in
      (
        l',
        run_loop-goes_on (handler_reads id) (receives false none (request_body id c) ∷ rest) stop l
              l1 (read_event id r cs 0 l g)
            ∙ run_loop-goes_on (receives false none (request_body id c)) rest stop l1 l2
                (body_event id c r cs 0 l1 found)
            ∙ e,
        k ∙ ap (λ t. some (ended r t 1)) (append_assoc cs (c ∷ []) new),
      )

  start_event :
      (m : RequestStart) (l : Loop S)
      → is_websocket_upgrade m.headers ≡ false
      → refusal http m ≡ none
      → on_event send http (receives false none (request_start m)) l
        ≡ goes_on (put_request send http m.request_id (reading (handler_request http m) [] 0) l)
  unfolding on_event dispatch begin_request
  start_event m l u n = rw (u, on_event) (ap goes_on (rw (n, begin_request) refl))

  -- A request that the server forwards whole is the request that the client's handler serves, where
  -- the handler reads its body: when the loop has received its frames, each one behind the start met by
  -- a read of the handler, it holds, under the request's id, a request with the browser's method, host
  -- and address, the URL of its scheme, host, path and query, and its header less what must not be
  -- forwarded; the handler has taken each chunk of the browser's body in order, and the body ends there.
  -- The request is not an upgrade, net/http takes it, and parses the text of its URL back to that URL.
  pub request_delivered :
      (id : ℕ) (r : Request) (stop : Option Bytes) (l : Loop S)
      → is_websocket_upgrade (start_frame id r).headers ≡ false
      → http.request_error r.method (http.url_text (browser_url r)) ≡ none
      → http.new_request r.method (http.url_text (browser_url r))
        ≡ record { method = r.method; url = browser_url r }
      → body_error r.body ≡ none
      → (l' : Loop S) × (run_loop send http
            (attended id (forward_request taking never_done id r []).1)
            stop
            l
          ≡ some (stop, l'))
        × (lookup id l'.inflight ≡ some (ended (browser_request r) (body_chunks r.body) 1))
  unfolding start_frame handler_request start_url request_url
  request_delivered id r stop l u n p b =
      let m = start_frame id r in
      let fs = bodies id (body_chunks r.body) ++ request_end id ∷ [] in
      let asked = reading (handler_request http m) [] 0 in
      let parsed : handler_request http m ≡ browser_request r =
        ap
          (λ q. record (handler_request http m) {
            method = NewRequest.method q;
            url = NewRequest.url q;
          })
          p in
      let frames : (forward_request taking never_done id r []).1 ≡ request_start m ∷ fs =
        ap (λ p. p.1) (forward_request_lem id r)
        ∙ ap (◌∷◌ (request_start m)) (body_frames-whole id r.body b) in
      let (l', e, k) =
        bodies-delivered id (body_chunks r.body) [] (handler_request http m) stop
          (put_request send http id asked l) (put_request-lookup id asked l) in
      (
        l',
        ap (λ fs. run_loop send http (attended id fs) stop l) frames
            ∙ run_loop-goes_on (receives false none (request_start m)) (attended id fs) stop l
                (put_request send http id asked l) (start_event m l u n)
            ∙ e,
        k ∙ ap (λ q. some (ended q (body_chunks r.body) 1)) parsed,
      )
