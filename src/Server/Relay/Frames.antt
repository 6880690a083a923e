-- ===== src/Server/Relay/Frames.antt =====
-- The frames of a response.
use muxbridge.Base.{
  ℕ, ◌≡◌, refl, sym, Bool, none, List, [], ◌∷◌, ◌++◌, Bytes, append_assoc, append-nil,
}
use muxbridge.Wire.{ResponseStart, ClientFrame, response_start, response_body, response_end}
use muxbridge.Server.Relay.{Writer}

abbrev pub joined : List Bytes → Bytes
joined [] = []
joined (c ∷ cs) = c ++ joined cs

-- The frames behind the start of a response: its chunks and its end.
abbrev pub chunk_frames : ℕ → List Bytes → List ClientFrame
chunk_frames id [] = response_end id ∷ []
chunk_frames id (c ∷ cs) = response_body id c ∷ chunk_frames id cs

-- The frames of a whole response, as the client sends them.
abbrev pub response_frames : ResponseStart → List Bytes → List ClientFrame
response_frames m cs = response_start m ∷ chunk_frames m.request_id cs

pub joined-append : (xs ys : List Bytes) → joined (xs ++ ys) ≡ joined xs ++ joined ys
joined-append [] ys = refl
joined-append (x ∷ xs) ys = rw (joined-append xs ys) (sym (append_assoc x (joined xs) (joined ys)))

-- A piece that is taken from the third text and put behind the first.
pub reassoc : (a b c d : Bytes) → a ++ ((b ++ c) ++ d) ≡ (a ++ b) ++ (c ++ d)
reassoc a b c d = simp (append_assoc)

-- A payload on its way is queued.
pub queue_flow :
    (a : Bytes) (q : List Bytes) (p i : Bytes)
    → a ++ (joined (q ++ p ∷ []) ++ i) ≡ a ++ (joined q ++ (p ++ i))
queue_flow a q p i = simp (joined-append, append_assoc, append-nil)

-- A browser's connection before anything was written to it.
abbrev pub fresh_writer : List Bool → Writer
fresh_writer failures = record { status = none; header = []; body = []; failures = failures }
