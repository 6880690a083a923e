-- ===== src/Demo/Events.antt =====
-- An event of the stream, and what a reader of the format text/event-stream makes of it.
use muxbridge.Base.{
  ℕ, ◌<◌, ◌≡◌, ◌≢◌, refl, sym, ap, ◌∙◌, Option, none, some, List, [], ◌∷◌, ◌++◌, ◌==◌,
  if◌then◌else◌, Bytes, codes, same, arith, All, append_assoc, append-nil, Bool-cases, ==_iff, inl,
  inr,
}
use muxbridge.Base.Text.{split, add_to_first}
use muxbridge.Base.Text.Quiet.{Lacks, split-append}
use muxbridge.Demo.{data_lines, write_sse_event}

-- The rest of a line behind a prefix.
abbrev pub behind : Bytes → Bytes → Option Bytes
behind [] line = some line
behind (p ∷ ps) [] = none
behind (p ∷ ps) (c ∷ line) = if c == p then behind ps line else none

-- A field's value, less the space that it may begin with.
abbrev pub field_value : Option Bytes → Option Bytes
field_value none = none
field_value (some []) = some []
field_value (some (c ∷ line)) = if c == b' ' then some line else some (c ∷ line)

-- A carriage return with its line feed, or alone, ends a line too.
abbrev after_return : Bytes → Bytes
after_return [] = b'\n' ∷ []
after_return (c ∷ text) = if c == b'\n' then b'\n' ∷ text else b'\n' ∷ c ∷ text

abbrev pub unify : Bytes → Bytes
unify [] = []
unify (c ∷ text) = if c == b'\r' then after_return (unify text) else c ∷ unify text

abbrev pub event_lines : Bytes → List Bytes
event_lines text = split b'\n' (unify text)

abbrev pub Message : Type 0
Message = Bytes × List Bytes

-- A field of the event: its name, or one more line of its data; other lines are passed over.
abbrev take_field : Option Bytes → Option Bytes → Message → Message
take_field (some name) other (old, lines) = (name, lines)
take_field none (some line) (name, lines) = (name, lines ++ line ∷ [])
take_field none none e = e

-- An event ends at the first empty line.
abbrev pub read_event : Message → List Bytes → Message
read_event e [] = e
read_event e ([] ∷ rest) = e
read_event e ((c ∷ line) ∷ rest) =
    read_event
      (take_field (field_value (behind (codes "event:") (c ∷ line)))
        (field_value (behind (codes "data:") (c ∷ line))) e)
      rest

-- The lines with a line feed between them.
abbrev pub joined_lines : List Bytes → Bytes
joined_lines [] = []
joined_lines (line ∷ []) = line
joined_lines (line ∷ next ∷ rest) = line ++ b'\n' ∷ joined_lines (next ∷ rest)

data-Lacks : (b : ℕ) (line : Bytes) → b < 32 → Lacks b line → Lacks b (codes "data: " ++ line)
data-Lacks b line low h = (
  λ e. omega (arith, e),
  (
    λ e. omega (arith, e),
    (
      λ e. omega (arith, e),
      (λ e. omega (arith, e), (λ e. omega (arith, e), (λ e. omega (arith, e), h))),
    ),
  ),
)

event-Lacks : (b : ℕ) (name : Bytes) → b < 32 → Lacks b name → Lacks b (codes "event: " ++ name)
event-Lacks b name low h = (
  λ e. omega (arith, e),
  (
    λ e. omega (arith, e),
    (
      λ e. omega (arith, e),
      (
        λ e. omega (arith, e),
        (λ e. omega (arith, e), (λ e. omega (arith, e), (λ e. omega (arith, e), h))),
      ),
    ),
  ),
)

read_data :
    (name : Bytes) (old lines : List Bytes)
    → All (Lacks b'\n') lines
    → read_event (name, old) (split b'\n' (data_lines lines ++ b'\n' ∷ [])) ≡ (name, old ++ lines)
unfolding data_lines split
read_data name old [] h = ap (λ x. (name, x)) (sym (append-nil old))
read_data name old (line ∷ lines) (f, h) =
    ap (λ x. read_event (name, old) (split b'\n' (codes "data: " ++ x)))
      (append_assoc line (b'\n' ∷ data_lines lines) (b'\n' ∷ []))
    ∙ ap (read_event (name, old)) (
        split-append b'\n' (codes "data: " ++ line) (data_lines lines ++ b'\n' ∷ [])
          (data-Lacks b'\n' line (omega arith) f))
    ∙ read_data name (old ++ line ∷ []) lines h
    ∙ ap (λ x. (name, x)) (append_assoc old (line ∷ []) lines)

add_to_first-Lacks :
    (b c : ℕ) (ps : List Bytes) → c ≢ b → All (Lacks b) ps → All (Lacks b) (add_to_first c ps)
unfolding add_to_first
add_to_first-Lacks b c [] n h = ((n, tt), tt)
add_to_first-Lacks b c (p ∷ ps) n (f, h) = ((n, f), h)

split-Lacks : (text : Bytes) → All (Lacks b'\n') (split b'\n' text)
unfolding split
split-Lacks [] = (tt, tt)
split-Lacks (c ∷ text) = elim (Bool-cases (c == b'\n')) [
  | inl e ↦ rw e (tt, split-Lacks text)
  | inr e ↦ rw e (add_to_first-Lacks b'\n' c (split b'\n' text) (ground arith) (split-Lacks text))
]

add_to_first-joined_lines :
    (c : ℕ) (p : Bytes) (ps : List Bytes)
    → joined_lines (add_to_first c (p ∷ ps)) ≡ c ∷ joined_lines (p ∷ ps)
unfolding add_to_first
add_to_first-joined_lines c p [] = refl
add_to_first-joined_lines c p (q ∷ ps) = refl

add_to_first-IsCons :
    (c : ℕ) (ps : List Bytes) → (q : Bytes) × (qs : List Bytes) × (add_to_first c ps ≡ q ∷ qs)
unfolding add_to_first
add_to_first-IsCons c [] = (c ∷ [], [], refl)
add_to_first-IsCons c (p ∷ ps) = (c ∷ p, ps, refl)

split-IsCons : (text : Bytes) → (q : Bytes) × (qs : List Bytes) × (split b'\n' text ≡ q ∷ qs)
unfolding split
split-IsCons [] = ([], [], refl)
split-IsCons (c ∷ text) = elim (Bool-cases (c == b'\n')) [
  | inl e ↦ ([], split b'\n' text, rw e refl)
  | inr e ↦ let (q, qs, f) = add_to_first-IsCons c (split b'\n' text) in (q, qs, rw e f)
]

split-joined_lines : (text : Bytes) → joined_lines (split b'\n' text) ≡ text
unfolding split
split-joined_lines [] = refl
split-joined_lines (c ∷ text) =
    let (q, qs, f) = split-IsCons text in
    let rest : joined_lines (q ∷ qs) ≡ text = ap joined_lines (sym f) ∙ split-joined_lines text in
    elim (Bool-cases (c == b'\n')) [
      | inl e ↦ rw (e, f) (ap (◌∷◌ b'\n') rest ∙ ap (λ x. x ∷ text) (sym ((==_iff c b'\n').0 e)))
      | inr e ↦ rw (e, f) (add_to_first-joined_lines c q qs ∙ ap (◌∷◌ c) rest)
    ]

-- The name of an event, and its data.
abbrev pub read_stream : Bytes → Bytes × Bytes
read_stream text =
    let (name, lines) = read_event ([], []) (event_lines text) in (name, joined_lines lines)

unify-Lacks : (text : Bytes) → Lacks b'\r' text → unify text ≡ text
unify-Lacks [] h = refl
unify-Lacks (c ∷ text) (n, h) = ground (arith, unify-Lacks text h)

Lacks-append : (b : ℕ) (s t : Bytes) → Lacks b s → Lacks b t → Lacks b (s ++ t)
Lacks-append b [] t h k = k
Lacks-append b (c ∷ s) t (n, h) k = (n, Lacks-append b s t h k)

data_lines-Lacks : (lines : List Bytes) → All (Lacks b'\r') lines → Lacks b'\r' (data_lines lines)
unfolding data_lines
data_lines-Lacks [] h = tt
data_lines-Lacks (line ∷ lines) (f, h) =
    data-Lacks b'\r' (line ++ b'\n' ∷ data_lines lines) (omega arith) (
      Lacks-append b'\r' line (b'\n' ∷ data_lines lines) f
        (λ e. omega (arith, e), data_lines-Lacks lines h))

split-returns : (text : Bytes) → Lacks b'\r' text → All (Lacks b'\r') (split b'\n' text)
unfolding split add_to_first
split-returns [] h = (tt, tt)
split-returns (c ∷ text) (n, h) = elim (Bool-cases (c == b'\n')) [
  | inl e ↦ rw e (tt, split-returns text h)
  | inr e ↦ rw e (add_to_first-Lacks b'\r' c (split b'\n' text) n (split-returns text h))
]

-- The lines of an event as they are read.
read_lines :
    (event_name text : Bytes)
    → Lacks b'\n' event_name
    → read_event ([], []) (split b'\n' (write_sse_event event_name text))
      ≡ (event_name, split b'\n' text)
unfolding write_sse_event same
read_lines [] text h = read_data [] [] (split b'\n' text) (split-Lacks text)
read_lines (c ∷ name) text h =
    ap (λ x. read_event ([], []) (split b'\n' (codes "event: " ++ x)))
      (append_assoc (c ∷ name) (b'\n' ∷ []) (data_lines (split b'\n' text) ++ b'\n' ∷ []))
    ∙ ap (read_event ([], [])) (
        split-append b'\n' (codes "event: " ++ c ∷ name)
          (data_lines (split b'\n' text) ++ b'\n' ∷ [])
          (event-Lacks b'\n' (c ∷ name) (omega arith) h))
    ∙ read_data (c ∷ name) [] (split b'\n' text) (split-Lacks text)

body-Lacks :
    (text : Bytes) → Lacks b'\r' text → Lacks b'\r' (data_lines (split b'\n' text) ++ b'\n' ∷ [])
body-Lacks text h =
    Lacks-append b'\r' (data_lines (split b'\n' text)) (b'\n' ∷ [])
      (data_lines-Lacks (split b'\n' text) (split-returns text h)) (λ e. omega (arith, e), tt)

write_sse_event-Lacks :
    (event_name text : Bytes)
    → Lacks b'\r' event_name
    → Lacks b'\r' text
    → Lacks b'\r' (write_sse_event event_name text)
unfolding write_sse_event same
write_sse_event-Lacks [] text g h = body-Lacks text h
write_sse_event-Lacks (c ∷ name) text g h =
    let body = data_lines (split b'\n' text) ++ b'\n' ∷ [] in
    event-Lacks b'\r' (((c ∷ name) ++ b'\n' ∷ []) ++ body) (omega arith) (
      Lacks-append b'\r' ((c ∷ name) ++ b'\n' ∷ []) body
        (Lacks-append b'\r' (c ∷ name) (b'\n' ∷ []) g (λ e. omega (arith, e), tt))
        (body-Lacks text h))

-- An event whose name and data have no carriage return, and whose name has no line feed, is read from
-- the stream as it was written, with its name and its data, whose lines may be any number.
pub read_stream-write_sse_event :
    (event_name text : Bytes)
    → Lacks b'\n' event_name
    → Lacks b'\r' event_name
    → Lacks b'\r' text
    → read_stream (write_sse_event event_name text) ≡ (event_name, text)
read_stream-write_sse_event name text h g k =
    ap (λ x. let (n, lines) = read_event ([], []) (split b'\n' x) in (n, joined_lines lines))
      (unify-Lacks (write_sse_event name text) (write_sse_event-Lacks name text g k))
    ∙ ap (λ p. let (n, lines) = p in (n, joined_lines lines)) (read_lines name text h)
    ∙ ap (λ x. (name, x)) (split-joined_lines text)
