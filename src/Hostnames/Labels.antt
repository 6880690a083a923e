-- ===== src/Hostnames/Labels.antt =====
-- What `ValidateLabel` accepts.
use muxbridge.Base.{
  ℕ, ◌+◌, ◌≤◌, ◌≡◌, ◌≢◌, ◌↔◌, ◌⊎◌, refl, Bool, false, none, [], ◌∷◌, ◌==◌, arith, length, All,
  Bytes, same_iff,
}
use muxbridge.Base.Text.Quiet.{ends_with}
use muxbridge.Hostnames.{validate_label, check_runes}

-- A lowercase letter, a digit or a hyphen.
abbrev pub IsLdh : ℕ → Type 0
IsLdh c = ((b'a' ≤ c) × (c ≤ b'z')) ⊎ ((b'0' ≤ c) × (c ≤ b'9')) ⊎ (c ≡ b'-')

unfoldable pub starts_with : ℕ → Bytes → Bool
starts_with b [] = false
starts_with b (c ∷ s) = c == b

-- A DNS label as RFC 1123 describes it, in lowercase.
pub record IsLabel (s : Bytes) : Type 0 where
  pub nonempty : s ≢ []
  pub short : length s ≤ 63
  pub ldh : All IsLdh s
  pub no_leading_hyphen : starts_with b'-' s ≡ false
  pub no_trailing_hyphen : ends_with b'-' s ≡ false

check_runes_sound :
    (i n : ℕ) (s : Bytes)
    → n ≡ i + length s
    → check_runes i n s ≡ none
    → All IsLdh s × (ends_with b'-' s ≡ false) × (i ≡ 0 → starts_with b'-' s ≡ false)
unfolding check_runes ends_with starts_with
check_runes_sound i n [] e h = ground arith
check_runes_sound i n (c ∷ []) e h = ground arith
check_runes_sound i n (c ∷ d ∷ s) e h = ground (arith, check_runes_sound (i + 1) n (d ∷ s))

check_runes_complete :
    (i n : ℕ) (s : Bytes)
    → n ≡ i + length s
    → All IsLdh s
    → ends_with b'-' s ≡ false
    → ((i ≡ 0) → starts_with b'-' s ≡ false)
    → check_runes i n s ≡ none
unfolding check_runes ends_with starts_with
check_runes_complete i n [] e a b f = refl
check_runes_complete i n (c ∷ []) e a b f = ground arith
check_runes_complete i n (c ∷ d ∷ s) e a b f =
    ground (arith, check_runes_complete (i + 1) n (d ∷ s))

-- `ValidateLabel` reports no error exactly for the labels of RFC 1123 in lowercase: one to 63
-- letters, digits and hyphens, with no hyphen at either end.
pub validate_label_iff : (s : Bytes) → (validate_label s ≡ none) ↔ IsLabel s
unfolding validate_label
validate_label_iff s = (
  λ h. ground (arith, same_iff s [], check_runes_sound 0 (length s) s),
  λ l. ground (arith, same_iff s [], check_runes_complete 0 (length s) s),
)
