-- ===== src/Headers.antt =====
-- internal/headers/headers.go. An `http.Header` is a list of entries in the order in which Go
-- would range over the map; wire headers are those of the tunnel's protocol.
pub mod Strip
pub mod RoundTrip
pub mod Tests
use muxbridge.Base.{
  ℕ, ◌+◌, ◌-◌, Bool, true, false, not, ◌&&◌, ◌||◌, Option, none, some, List, [], ◌∷◌, ◌++◌, map,
  leb, ◌==◌, if◌then◌else◌, Bytes, codes, same, lookup, insert, delete_if, bytes_eq,
}
use muxbridge.Base.Text.{to_lower, trim_space, split}

abbrev pub Headers : Type 0
Headers = List (Bytes × List Bytes)

-- `tunnelpb.Header`
pub record WireHeader : Type 0 where
  pub key : Bytes
  pub values : List Bytes

unfoldable pub hop_by_hop_headers : List Bytes
hop_by_hop_headers =
    codes "keep-alive"
    ∷ codes "proxy-authenticate"
    ∷ codes "proxy-authorization"
    ∷ codes "te"
    ∷ codes "trailer"
    ∷ codes "transfer-encoding"
    ∷ []

-- Membership in a Go set of texts.
unfoldable pub member : Bytes → List Bytes → Bool
member x [] = false
member x (y ∷ ys) = same x y || member x ys

unfoldable pub in_tokens : Bytes → Option (List Bytes) → Bool
in_tokens key none = false
in_tokens key (some tokens) = member key tokens

unfoldable pub is_hop_by_hop : Bytes → Option (List Bytes) → Bool
is_hop_by_hop key tokens =
    let lowered = to_lower key in
    if member lowered hop_by_hop_headers then true else in_tokens lowered tokens

-- `h.Values` of a canonical key.
unfoldable pub header_values : Bytes → Headers → List Bytes
header_values key h = elim (lookup key h) [ none ↦ [] | some vs ↦ vs ]

first_value : List Bytes → Bytes
first_value [] = []
first_value (v ∷ vs) = v

-- `h.Get` of a canonical key.
unfoldable pub header_get : Bytes → Headers → Bytes
unfolding first_value
header_get key h = first_value (header_values key h)

unfoldable pub add_tokens : List Bytes → List Bytes → List Bytes
add_tokens [] tokens = tokens
add_tokens (raw ∷ raws) tokens =
    let tok = to_lower (trim_space raw) in
    add_tokens raws
      (if same tok [] || same tok (codes "upgrade") then tokens else tokens ++ tok ∷ [])

unfoldable pub collect_tokens : List Bytes → List Bytes → List Bytes
collect_tokens [] tokens = tokens
collect_tokens (v ∷ vs) tokens = collect_tokens vs (add_tokens (split b',' v) tokens)

unfoldable pub tokens_of : List Bytes → Option (List Bytes)
tokens_of [] = none
tokens_of (v ∷ vs) = some (collect_tokens (v ∷ vs) [])

unfoldable pub connection_tokens : Headers → Option (List Bytes)
connection_tokens h = tokens_of (header_values (codes "Connection") h)

unfoldable pub has_upgrade : Headers → Bool
has_upgrade h = not (same (header_get (codes "Upgrade") h) [])

unfoldable pub should_strip : Bytes → Option (List Bytes) → Bool → Bool
should_strip key tokens upgrading =
    let lowered = to_lower key in
    if same lowered (codes "connection") || same lowered (codes "upgrade")
    then not upgrading
    else is_hop_by_hop lowered tokens

-- The loop of `ToProto`.
wire_headers : Option (List Bytes) → Bool → Headers → List WireHeader
wire_headers tokens upgrading [] = []
wire_headers tokens upgrading ((k, vs) ∷ h) =
    if should_strip k tokens upgrading
    then wire_headers tokens upgrading h
    else record { key = k; values = vs } ∷ wire_headers tokens upgrading h

unfoldable pub to_proto : Headers → List WireHeader
unfolding wire_headers
to_proto h = wire_headers (connection_tokens h) (has_upgrade h) h

-- The first loop of `FromProto`; `none` is a nil pointer.
unfoldable pub unwire : List (Option WireHeader) → Headers → Headers
unwire [] h = h
unwire (none ∷ rest) h = unwire rest h
unwire (some kv ∷ rest) h = unwire rest (insert kv.key kv.values h)

unfoldable pub from_proto : List (Option WireHeader) → Headers
unfolding unwire
from_proto wire =
    let h = unwire wire [] in
    let tokens = connection_tokens h in
    let upgrading = has_upgrade h in delete_if (λ k. should_strip k tokens upgrading) h

is_token_byte : ℕ → Bool
is_token_byte c =
    (leb b'a' c && leb c b'z')
    || (leb b'A' c && leb c b'Z')
    || (leb b'0' c && leb c b'9')
    || c == b'!'
    || leb b'#' c && leb c b'\''
    || c == b'*'
    || c == b'+'
    || c == b'-'
    || c == b'.'
    || c == b'^'
    || c == b'_'
    || c == b'`'
    || c == b'|'
    || c == b'~'

all_tokens : Bytes → Bool
unfolding is_token_byte
all_tokens [] = true
all_tokens (c ∷ s) = is_token_byte c && all_tokens s

capitalize : Bool → Bytes → Bytes
capitalize upper [] = []
capitalize upper (c ∷ s) =
    let d =
      if upper && leb b'a' c && leb c b'z'
      then c - 32
      else if not upper && leb b'A' c && leb c b'Z'
      then c + 32
      else c in
    d ∷ capitalize (d == b'-') s

-- `textproto.CanonicalMIMEHeaderKey`
unfoldable pub canonical_key : Bytes → Bytes
unfolding all_tokens capitalize
canonical_key k = if all_tokens k then capitalize true k else k

-- `dst.Add`
unfoldable pub add_header : Bytes → Bytes → Headers → Headers
add_header k v dst = let key = canonical_key k in insert key (header_values key dst ++ v ∷ []) dst

add_values : Bytes → List Bytes → Headers → Headers
add_values k [] dst = dst
add_values k (v ∷ vs) dst = add_values k vs (add_header k v dst)

unfoldable pub copy : Headers → Headers → Headers
unfolding add_values
copy dst [] = dst
copy dst ((k, vs) ∷ src) = copy (add_values k vs dst) src
