-- ===== src/Base/Text.antt =====
-- The functions of Go's `strings` and `net` packages that the program calls, on ASCII texts.
pub mod Quiet
use muxbridge.Base.{
  ℕ, ◌+◌, Bool, true, false, ◌&&◌, ◌||◌, Option, none, some, List, [], ◌∷◌, ◌++◌, map, leb, ◌==◌,
  if◌then◌else◌, Bytes, same,
}

unfoldable pub lower : ℕ → ℕ
lower c = if leb b'A' c && leb c b'Z' then c + 32 else c

-- `strings.ToLower`
unfoldable pub to_lower : Bytes → Bytes
unfolding lower
to_lower [] = []
to_lower (c ∷ s) = lower c ∷ to_lower s

unfoldable pub is_space : ℕ → Bool
is_space c = (leb 9 c && leb c 13) || c == 32

unfoldable pub trim_left : Bytes → Bytes
unfolding is_space
trim_left [] = []
trim_left (c ∷ s) = if is_space c then trim_left s else c ∷ s

unfoldable pub push_kept : ℕ → Bytes → Bytes
unfolding is_space
push_kept c [] = if is_space c then [] else c ∷ []
push_kept c (d ∷ s) = c ∷ d ∷ s

unfoldable pub trim_right : Bytes → Bytes
unfolding push_kept
trim_right [] = []
trim_right (c ∷ s) = push_kept c (trim_right s)

-- `strings.TrimSpace`
unfoldable pub trim_space : Bytes → Bytes
unfolding trim_left trim_right
trim_space s = trim_right (trim_left s)

-- `strings.TrimSuffix` of a suffix of one byte
unfoldable pub trim_suffix : ℕ → Bytes → Bytes
trim_suffix e [] = []
trim_suffix e (c ∷ []) = if c == e then [] else c ∷ []
trim_suffix e (c ∷ d ∷ s) = c ∷ trim_suffix e (d ∷ s)

-- `strings.IndexByte(s, b) >= 0`
unfoldable pub contains : ℕ → Bytes → Bool
contains b [] = false
contains b (c ∷ s) = c == b || contains b s

-- `strings.HasPrefix`
unfoldable pub has_prefix : Bytes → Bytes → Bool
has_prefix s [] = true
has_prefix [] (p ∷ ps) = false
has_prefix (c ∷ s) (p ∷ ps) = c == p && has_prefix s ps

-- `strings.EqualFold` of ASCII texts
unfoldable pub equal_fold : Bytes → Bytes → Bool
unfolding to_lower same
equal_fold s t = same (to_lower s) (to_lower t)

before_head : ℕ → Option (Bytes × Bytes) → Option (Bytes × Bytes)
before_head c none = none
before_head c (some (a, b)) = some (c ∷ a, b)

-- `strings.Cut` at a separator of one byte
unfoldable pub cut : ℕ → Bytes → Option (Bytes × Bytes)
unfolding before_head
cut sep [] = none
cut sep (c ∷ s) = if c == sep then some ([], s) else before_head c (cut sep s)

last_head : ℕ → ℕ → Bytes → Option (Bytes × Bytes) → Option (Bytes × Bytes)
last_head sep c s none = if c == sep then some ([], s) else none
last_head sep c s (some (a, b)) = some (c ∷ a, b)

-- The texts before and behind the last separator.
unfoldable pub last_cut : ℕ → Bytes → Option (Bytes × Bytes)
unfolding last_head
last_cut sep [] = none
last_cut sep (c ∷ s) = last_head sep c s (last_cut sep s)

unfoldable pub add_to_first : ℕ → List Bytes → List Bytes
add_to_first c [] = (c ∷ []) ∷ []
add_to_first c (p ∷ ps) = (c ∷ p) ∷ ps

-- `strings.Split` at a separator of one byte
unfoldable pub split : ℕ → Bytes → List Bytes
unfolding add_to_first
split sep [] = [] ∷ []
split sep (c ∷ s) = if c == sep then [] ∷ split sep s else add_to_first c (split sep s)

-- `[host]:port`: the text up to the first `]`, and what follows that.
bracketed : Bytes → Bytes → Option (Bytes × Bytes)
unfolding contains
bracketed [] rest = none
bracketed (b ∷ host) [] = none
bracketed (b ∷ host) (c ∷ port) =
    if c == b':'
      && (contains b':' port || contains b'[' host || contains b'[' port || contains b']' port)
    then none
    else if c == b':'
    then some (host, port)
    else none

plain : Bytes → Bytes → Bytes → Option (Bytes × Bytes)
unfolding contains
plain s host port =
    if contains b':' host || contains b'[' s || contains b']' s then none else some (host, port)

-- `net.SplitHostPort`; `none` is an error.
unfoldable pub split_host_port : Bytes → Option (Bytes × Bytes)
unfolding last_cut cut has_prefix bracketed plain
split_host_port s = elim (last_cut b':' s) [
  | none ↦ none
  | some (host, port) ↦
      if has_prefix s (b'[' ∷ [])
      then (elim (cut b']' s) [ none ↦ none | some (inside, rest) ↦ bracketed inside rest ])
      else plain s host port
]
