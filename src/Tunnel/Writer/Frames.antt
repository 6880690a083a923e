-- ===== src/Tunnel/Writer/Frames.antt =====
-- The frames of a response, on a stream that takes every frame.
use muxbridge.Base.{
  ℕ, ◌≡◌, ◌⊎◌, inl, inr, refl, ap, ◌∙◌, true, false, Option, none, some, List, [], ◌∷◌, ◌++◌, arith,
  Bytes, append_assoc, append-nil, map,
}
use muxbridge.Headers.{Headers, to_proto}
use muxbridge.Wire.{ResponseStart, ClientFrame, response_start, response_body, response_end}
use muxbridge.Server.Relay.Frames.{chunk_frames, response_frames}
use muxbridge.Tunnel.Writer.{
  ResponseWriter, new_response_writer, Call, sets_header, writes_header, writes, flushes, returns,
  write_header, write, write_chunk, unless_failed, send_kept, keep_first, send_last, flush, finish,
  call, calls, settle, serve_request,
}

-- A stream that keeps the frames, oldest first.
abbrev pub logging : ClientFrame → List ClientFrame → Option Bytes × List ClientFrame
logging frame log = (none, log ++ frame ∷ [])

-- The chunks that a handler writes.
abbrev pub written : List Call → List Bytes
written [] = []
written (writes p ∷ cs) = p ∷ written cs
written (_ ∷ cs) = written cs

abbrev pub start_of : ℕ → ℕ → Headers → ResponseStart
start_of id status h = record {
  request_id = id;
  status_code = status;
  headers = map some (to_proto h);
}

-- The response that a handler means: its first status, or 200; the headers of the time it set that
-- status or wrote first; and its chunks.
abbrev pub start_sent : ℕ → Headers → List Call → ResponseStart
start_sent id h [] = start_of id 200 h
start_sent id h (sets_header h' ∷ cs) = start_sent id h' cs
start_sent id h (writes_header status ∷ cs) = start_of id status h
start_sent id h (writes p ∷ cs) = start_of id 200 h
start_sent id h (flushes ∷ cs) = start_of id 200 h

-- The writer behind the headers, as long as every send succeeds.
record IsOpen (id : ℕ) (log : List ClientFrame) (w : ResponseWriter (List ClientFrame))
    : Type 0 where
  wrote_header : w.wrote_header ≡ true
  ended : w.ended ≡ false
  request_id : w.request_id ≡ id
  send_err : w.send_err ≡ none
  stream : w.stream ≡ log

-- The writer before the headers.
record IsFresh (id : ℕ) (h : Headers) (w : ResponseWriter (List ClientFrame)) : Type 0 where
  header : w.header ≡ h
  wrote_header : w.wrote_header ≡ false
  ended : w.ended ≡ false
  status_code : w.status_code ≡ 200
  request_id : w.request_id ≡ id
  send_err : w.send_err ≡ none
  stream : w.stream ≡ []

write_header-IsOpen :
    (id status : ℕ) (h : Headers) (w : ResponseWriter (List ClientFrame))
    → IsFresh id h w
    → IsOpen id (response_start (start_of id status h) ∷ []) (write_header logging status w)
unfolding write_header send_kept keep_first
write_header-IsOpen id status h w f = ground arith

write_header-again :
    (id status : ℕ) (log : List ClientFrame) (w : ResponseWriter (List ClientFrame))
    → IsOpen id log w
    → write_header logging status w ≡ w
unfolding write_header
write_header-again id status log w o = ground arith

write-IsOpen :
    (id : ℕ) (p : Bytes) (log : List ClientFrame) (w : ResponseWriter (List ClientFrame))
    → IsOpen id log w
    → IsOpen id (log ++ response_body id p ∷ []) (write logging p w).1
unfolding write unless_failed write_chunk send_kept keep_first
write-IsOpen id p log w o = ground arith

-- The first write sends the headers before its chunk.
write-fresh :
    (id : ℕ) (p : Bytes) (h : Headers) (w : ResponseWriter (List ClientFrame))
    → IsFresh id h w
    → IsOpen id (response_start (start_of id 200 h) ∷ response_body id p ∷ []) (write logging p w).1
unfolding write unless_failed write_chunk write_header send_kept keep_first
write-fresh id p h w f = ground arith

flush-open :
    (id : ℕ) (log : List ClientFrame) (w : ResponseWriter (List ClientFrame))
    → IsOpen id log w
    → flush logging w ≡ w
unfolding flush
flush-open id log w o = ground arith

flush-fresh :
    (id : ℕ) (h : Headers) (w : ResponseWriter (List ClientFrame))
    → IsFresh id h w
    → flush logging w ≡ write_header logging 200 w
unfolding flush
flush-fresh id h w f = ground arith

set_header-IsOpen :
    (id : ℕ) (h : Headers) (log : List ClientFrame) (w : ResponseWriter (List ClientFrame))
    → IsOpen id log w
    → IsOpen id log (record w { header = h })
set_header-IsOpen id h log w o = ground arith

set_header-IsFresh :
    (id : ℕ) (h h' : Headers) (w : ResponseWriter (List ClientFrame))
    → IsFresh id h w
    → IsFresh id h' (record w { header = h' })
set_header-IsFresh id h h' w f = ground arith

-- The frames of chunks.
abbrev pub bodies : ℕ → List Bytes → List ClientFrame
bodies id [] = []
bodies id (c ∷ cs) = response_body id c ∷ bodies id cs

calls-IsOpen :
    (id : ℕ) (cs : List Call) (log : List ClientFrame) (w : ResponseWriter (List ClientFrame))
    → IsOpen id log w
    → IsOpen id (log ++ bodies id (written cs)) (calls logging cs w)
unfolding calls call
calls-IsOpen id [] log w o = rw (append-nil log) o
calls-IsOpen id (sets_header h ∷ cs) log w o =
    calls-IsOpen id cs log (record w { header = h }) (set_header-IsOpen id h log w o)
calls-IsOpen id (writes_header status ∷ cs) log w o =
    rw (write_header-again id status log w o) (calls-IsOpen id cs log w o)
calls-IsOpen id (writes p ∷ cs) log w o =
    rw⁻¹ (append_assoc log (response_body id p ∷ []) (bodies id (written cs))) (
      calls-IsOpen id cs (log ++ response_body id p ∷ []) (write logging p w).1
        (write-IsOpen id p log w o))
calls-IsOpen id (flushes ∷ cs) log w o = rw (flush-open id log w o) (calls-IsOpen id cs log w o)

-- The writer behind a handler's calls: untouched but for the header map, or with the start of its
-- response and its chunks on the stream.
abbrev After : ℕ → Headers → List Call → ResponseWriter (List ClientFrame) → Type 0
After id h cs w =
    ((h' : Headers) × IsFresh id h' w
      × (start_sent id h cs ≡ start_of id 200 h')
      × (written cs ≡ []))
    ⊎ IsOpen id (response_start (start_sent id h cs) ∷ bodies id (written cs)) w

calls-After :
    (id : ℕ) (h : Headers) (cs : List Call) (w : ResponseWriter (List ClientFrame))
    → IsFresh id h w
    → After id h cs (calls logging cs w)
unfolding calls call
calls-After id h [] w f = inl (h, f, refl, refl)
calls-After id h (sets_header h' ∷ cs) w f =
    calls-After id h' cs (record w { header = h' }) (set_header-IsFresh id h h' w f)
calls-After id h (writes_header status ∷ cs) w f = inr (
    calls-IsOpen id cs (response_start (start_of id status h) ∷ []) (write_header logging status w)
      (write_header-IsOpen id status h w f))
calls-After id h (writes p ∷ cs) w f = inr (
    calls-IsOpen id cs (response_start (start_of id 200 h) ∷ response_body id p ∷ [])
      (write logging p w).1 (write-fresh id p h w f))
calls-After id h (flushes ∷ cs) w f = rw (flush-fresh id h w f) (
    inr (
      calls-IsOpen id cs (response_start (start_of id 200 h) ∷ []) (write_header logging 200 w)
        (write_header-IsOpen id 200 h w f)))

finish-open :
    (id : ℕ) (log : List ClientFrame) (w : ResponseWriter (List ClientFrame))
    → IsOpen id log w
    → (finish logging w).1.stream ≡ log ++ response_end id ∷ []
unfolding finish send_last
finish-open id log w o = ground arith

finish-fresh :
    (id : ℕ) (h : Headers) (w : ResponseWriter (List ClientFrame))
    → IsFresh id h w
    → (finish logging w).1.stream ≡ response_start (start_of id 200 h) ∷ response_end id ∷ []
unfolding finish send_last write_header send_kept keep_first
finish-fresh id h w f = ground arith

bodies-chunk_frames :
    (id : ℕ) (cs : List Bytes) → bodies id cs ++ response_end id ∷ [] ≡ chunk_frames id cs
bodies-chunk_frames id [] = refl
bodies-chunk_frames id (c ∷ cs) = ap (◌∷◌ (response_body id c)) (bodies-chunk_frames id cs)

new_response_writer-IsFresh : (id : ℕ) → IsFresh id [] (new_response_writer id [])
unfolding new_response_writer
new_response_writer-IsFresh id = ground arith

start_sent-request_id :
    (id : ℕ) (h : Headers) (cs : List Call) → (start_sent id h cs).request_id ≡ id
start_sent-request_id id h [] = refl
start_sent-request_id id h (sets_header h' ∷ cs) = start_sent-request_id id h' cs
start_sent-request_id id h (writes_header status ∷ cs) = refl
start_sent-request_id id h (writes p ∷ cs) = refl
start_sent-request_id id h (flushes ∷ cs) = refl

finish-After :
    (id : ℕ) (h : Headers) (cs : List Call) (w : ResponseWriter (List ClientFrame))
    → After id h cs w
    → (finish logging w).1.stream ≡ response_frames (start_sent id h cs) (written cs)
finish-After id h cs w (inl (h', f, e, z)) = rw (e, z) (finish-fresh id h' w f)
finish-After id h cs w (inr o) = rw (start_sent-request_id id h cs) (
    finish-open id (response_start (start_sent id h cs) ∷ bodies id (written cs)) w o
    ∙ ap (◌∷◌ (response_start (start_sent id h cs))) (bodies-chunk_frames id (written cs)))

-- A handler that returns, on a stream that takes every frame, has sent exactly the frames of the
-- response it means: its first status, or 200; the header map of that moment, less what must not be
-- forwarded; each chunk it wrote, in order; and one end.
pub serve_request_lem :
    (id : ℕ) (handler : List Call)
    → (serve_request logging id handler returns []).stream
      ≡ response_frames (start_sent id [] handler) (written handler)
unfolding serve_request settle
serve_request_lem id handler =
    finish-After id [] handler (calls logging handler (new_response_writer id []))
      (calls-After id [] handler (new_response_writer id []) (new_response_writer-IsFresh id))
