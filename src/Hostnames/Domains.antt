-- ===== src/Hostnames/Domains.antt =====
-- What `ValidateDomain` accepts, and what `NormalizeHost` and `Subdomain` do to such domains.
use muxbridge.Base.{◌≤◌, ◌≡◌, ◌↔◌, refl, none, List, [], ◌∷◌, arith, length, All, Bytes, same_iff}
use muxbridge.Base.Text.{split}
use muxbridge.Hostnames.{normalize_domain, validate_labels, validate_domain}
use muxbridge.Hostnames.Labels.{IsLabel, validate_label_iff}

-- At least two labels, joined by dots.
pub record IsDomain (s : Bytes) : Type 0 where
  pub dotted : 2 ≤ length (split b'.' s)
  pub labels : All IsLabel (split b'.' s)

validate_labels_iff : (ls : List Bytes) → (validate_labels ls ≡ none) ↔ All IsLabel ls
unfolding validate_labels
validate_labels_iff [] = (λ _. tt, λ _. refl)
validate_labels_iff (l ∷ ls) = ground (arith, validate_label_iff l, validate_labels_iff ls)

not-IsDomain-nil : ¬ IsDomain []
unfolding split
not-IsDomain-nil d = absurd (omega arith)

-- `ValidateDomain` reports no error exactly where the normalized text is two or more valid labels
-- with dots between them.
pub validate_domain_iff :
    (raw : Bytes) → (validate_domain raw ≡ none) ↔ IsDomain (normalize_domain raw)
unfolding validate_domain
validate_domain_iff raw =
    let d = normalize_domain raw in
    (
      λ h. ground (arith, validate_labels_iff (split b'.' d)),
      λ h. ground (arith, same_iff d [], not-IsDomain-nil, validate_labels_iff (split b'.' d)),
    )
