-- ===== src/Hostnames.antt =====
-- internal/hostnames/hostnames.go. Texts are lists of bytes; the functions of the packages
-- `strings` and `net` are those of Base/Text.
pub mod Labels
pub mod Domains
pub mod Names
pub mod Tests
use muxbridge.Base.{
  ℕ, zero, suc, ◌+◌, ◌-◌, Bool, ◌&&◌, ◌||◌, Option, none, some, List, [], ◌∷◌, ◌++◌, leb, ltb, ◌==◌,
  if◌then◌else◌, length, Bytes, same,
}
use muxbridge.Base.Text.{to_lower, trim_space, trim_suffix, split, split_host_port}

pub data LabelError : Type 0 where
  empty_label label_too_long : LabelError
  invalid_character : ℕ → LabelError

pub data DomainError : Type 0 where
  domain_required too_few_labels : DomainError
  invalid_label : LabelError → DomainError

-- The parsed host where `net.SplitHostPort` succeeds, else the text as it is.
without_port : Bytes → Bytes
without_port host = elim (split_host_port host) [ none ↦ host | some (parsed, port) ↦ parsed ]

unfoldable pub normalize_host : Bytes → Bytes
unfolding without_port
normalize_host host = trim_suffix b'.' (without_port (trim_space (to_lower host)))

unfoldable pub normalize_domain : Bytes → Bytes
normalize_domain domain = normalize_host domain

unfoldable pub normalize_label : Bytes → Bytes
normalize_label label = trim_space (to_lower label)

unfoldable pub subdomain : Bytes → Bytes → Bytes
subdomain label domain = normalize_host (label ++ b'.' ∷ domain)

-- The loop of `ValidateLabel` from index `i` on, in a label of `n` bytes.
check_runes : ℕ → ℕ → Bytes → Option LabelError
check_runes i n [] = none
check_runes i n (r ∷ rest) =
    if (leb b'a' r && leb r b'z')
      || (leb b'0' r && leb r b'9')
      || (r == b'-' && ltb 0 i && ltb i (n - 1))
    then check_runes (i + 1) n rest
    else some (invalid_character r)

unfoldable pub validate_label : Bytes → Option LabelError
unfolding check_runes
validate_label label =
    if same label []
    then some empty_label
    else if ltb 63 (length label)
    then some label_too_long
    else check_runes 0 (length label) label

validate_labels : List Bytes → Option DomainError
validate_labels [] = none
validate_labels (label ∷ labels) = elim (validate_label label) [
  | some e ↦ some (invalid_label e)
  | none ↦ validate_labels labels
]

unfoldable pub validate_domain : Bytes → Option DomainError
unfolding normalize_domain validate_labels
validate_domain raw =
    let domain = normalize_domain raw in
    let labels = split b'.' domain in
    if same domain []
    then some domain_required
    else if ltb (length labels) 2
    then some too_few_labels
    else validate_labels labels
