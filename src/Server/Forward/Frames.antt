-- ===== src/Server/Forward/Frames.antt =====
-- The frames of a request whose session takes them all.
use muxbridge.Base.{
  ℕ, ◌≡◌, refl, sym, ap, ◌∙◌, Option, none, some, List, [], ◌∷◌, ◌++◌, Bytes, same, append_assoc,
  append-nil,
}
use muxbridge.Wire.{ServerFrame, request_start, request_body, request_end}
use muxbridge.Server.Exchange.{SendError}
use muxbridge.Server.Forward.{
  Reads, reads, ends, Request, ForwardError, read_failed, start_frame, send_or, send_chunk,
  send_end, after_last, unless_done, after_start, forward_body, forward_request,
}

abbrev pub taking : ServerFrame → List ServerFrame → Option SendError × List ServerFrame
taking frame log = (none, log ++ frame ∷ [])

abbrev pub never_done : List ServerFrame → Option Bytes × List ServerFrame
never_done log = (none, log)

-- The chunks of a body that have bytes.
abbrev pub with_bytes : Bytes → List Bytes → List Bytes
with_bytes [] cs = cs
with_bytes (b ∷ bs) cs = (b ∷ bs) ∷ cs

abbrev pub chunks_of : Reads → List Bytes
chunks_of (reads chunk rest) = with_bytes chunk (chunks_of rest)
chunks_of (ends chunk e) = with_bytes chunk []

abbrev pub read_error : Reads → Option Bytes
read_error (reads chunk rest) = read_error rest
read_error (ends chunk e) = e

abbrev pub bodies : ℕ → List Bytes → List ServerFrame
bodies id [] = []
bodies id (c ∷ cs) = request_body id c ∷ bodies id cs

-- The end of a request's frames: only a body that was read to its end has one.
abbrev pub last_frames : ℕ → Option Bytes → List ServerFrame
last_frames id none = request_end id ∷ []
last_frames id (some e) = []

abbrev pub body_frames : ℕ → Option Reads → List ServerFrame
body_frames id none = request_end id ∷ []
body_frames id (some body) = bodies id (chunks_of body) ++ last_frames id (read_error body)

abbrev pub body_error : Option Reads → Option Bytes
body_error none = none
body_error (some body) = read_error body

abbrev pub failure_of : Option Bytes → Option ForwardError
failure_of none = none
failure_of (some e) = some (read_failed e)

forward_body_lem :
    (id : ℕ) (body : Reads) (log : List ServerFrame)
    → forward_body taking never_done id body log ≡ (
      failure_of (read_error body),
      log ++ (bodies id (chunks_of body) ++ last_frames id (read_error body)),
    )
unfolding forward_body send_chunk send_end after_last unless_done send_or same
forward_body_lem id (ends [] none) log = refl
forward_body_lem id (ends [] (some e)) log =
    ap (λ x. (some (read_failed e), x)) (sym (append-nil log))
forward_body_lem id (ends (b ∷ bs) none) log = ap (λ x. (none, x)) (append_assoc log _ _)
forward_body_lem id (ends (b ∷ bs) (some e)) log = refl
forward_body_lem id (reads [] rest) log = forward_body_lem id rest log
forward_body_lem id (reads (b ∷ bs) rest) log =
    forward_body_lem id rest (log ++ request_body id (b ∷ bs) ∷ [])
    ∙ ap (λ x. (failure_of (read_error rest), x))
        (append_assoc log (request_body id (b ∷ bs) ∷ []) _)

after_start_lem :
    (id : ℕ) (body : Option Reads) (log : List ServerFrame)
    → after_start taking never_done id body log
      ≡ (failure_of (body_error body), log ++ body_frames id body)
unfolding after_start send_end send_or
after_start_lem id none log = refl
after_start_lem id (some body) log = forward_body_lem id body log

-- A request that nobody cancels, on a session that takes its frames, is sent as its start, each chunk
-- of its body that has bytes, in order, and, where the body was read to its end, one end; it fails
-- exactly where the body fails.
pub forward_request_lem :
    (id : ℕ) (r : Request)
    → forward_request taking never_done id r []
      ≡ (failure_of (body_error r.body), request_start (start_frame id r) ∷ body_frames id r.body)
unfolding forward_request
forward_request_lem id r = after_start_lem id r.body (request_start (start_frame id r) ∷ [])
