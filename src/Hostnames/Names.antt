-- ===== src/Hostnames/Names.antt =====
-- `NormalizeHost` and `Subdomain` on valid domains.
use muxbridge.Base.{
  ℕ, ◌≤◌, ◌≡◌, ◌≢◌, ◌⊎◌, inl, inr, refl, ap, ◌∙◌, false, none, [], ◌∷◌, ◌++◌, arith, length, All,
  All-mono, All-append, Bytes,
}
use muxbridge.Base.Text.{
  to_lower, trim_space, split, split_host_port, lower, is_space, has_prefix, last_cut,
}
use muxbridge.Base.Text
use muxbridge.Base.Text.Quiet.{
  IsQuiet, Lacks, to_lower-eq_self, to_lower-append, trim_space-eq_self, trim_suffix-eq_self,
  last_cut-append, last_cut-eq-none, trim_suffix-append, contains-eq-false, ends_with, split-All,
  split-ends_with, split-append, All-TailNonempty,
}
use muxbridge.Hostnames.{normalize_host, without_port, subdomain, normalize_label}
use muxbridge.Hostnames.Labels.{IsLdh, IsLabel}
use muxbridge.Hostnames.Domains.{IsDomain}

abbrev IsHostByte : ℕ → Type 0
IsHostByte c = IsLdh c ⊎ (c ≡ b'.')

IsHostByte-IsQuiet : (c : ℕ) → IsHostByte c → IsQuiet c
unfolding lower is_space
IsHostByte-IsQuiet c h = ground arith

abbrev pub IsDigit : ℕ → Type 0
IsDigit c = (b'0' ≤ c) × (c ≤ b'9')

-- The texts that `NormalizeHost` leaves alone.
record IsPlain (s : Bytes) : Type 0 where
  bytes : All IsHostByte s
  no_dot : ends_with b'.' s ≡ false

IsPlain-Lacks :
    (b : ℕ) (s : Bytes) → All IsHostByte s → ((c : ℕ) → IsHostByte c → c ≢ b) → Lacks b s
IsPlain-Lacks b s h f = All-mono s f h

IsDomain-IsPlain : (s : Bytes) → IsDomain s → IsPlain s
IsDomain-IsPlain s d = record {
  bytes = split-All b'.' IsLdh s (All-mono (split b'.' s) (λ l v. v.ldh) d.labels);
  no_dot =
      split-ends_with b'.' s
        (All-TailNonempty (split b'.' s) (All-mono (split b'.' s) (λ l v. v.nonempty) d.labels));
}

split_host_port-plain : (s : Bytes) → All IsHostByte s → split_host_port s ≡ none
unfolding split_host_port
split_host_port-plain s h =
    rw (last_cut-eq-none b':' s (IsPlain-Lacks b':' s h (λ c k. ground arith)), split_host_port)

without_port-plain : (s : Bytes) → All IsHostByte s → without_port s ≡ s
unfolding without_port
without_port-plain s h = rw (split_host_port-plain s h, without_port)

normalize_host-quiet :
    (s t : Bytes)
    → to_lower s ≡ t
    → All IsQuiet t
    → normalize_host s ≡ Text.trim_suffix b'.' (without_port t)
unfolding normalize_host
normalize_host-quiet s t e q = rw (e, trim_space-eq_self t q)

normalize_host-lower : (s d : Bytes) → IsPlain d → to_lower s ≡ d → normalize_host s ≡ d
normalize_host-lower s d p e =
    rw (normalize_host-quiet s d e (All-mono d IsHostByte-IsQuiet p.bytes))
      (rw (without_port-plain d p.bytes) (trim_suffix-eq_self b'.' d p.no_dot))

normalize_host-plain : (s : Bytes) → IsPlain s → normalize_host s ≡ s
normalize_host-plain s p =
    normalize_host-lower s s p (to_lower-eq_self s (All-mono s IsHostByte-IsQuiet p.bytes))

-- A valid domain is its own normal form.
pub normalize_host-IsDomain : (s : Bytes) → IsDomain s → normalize_host s ≡ s
normalize_host-IsDomain s d = normalize_host-plain s (IsDomain-IsPlain s d)

IsLabel-Lacks : (l : Bytes) → IsLabel l → Lacks b'.' l
IsLabel-Lacks l v = All-mono l (λ c k. ground arith) v.ldh

dotted-IsDomain : (l d : Bytes) → IsLabel l → IsDomain d → IsDomain (l ++ b'.' ∷ d)
dotted-IsDomain l d v w =
    let parts = split-append b'.' l d (IsLabel-Lacks l v) in
    record { dotted = rw parts (omega (arith, w.dotted)); labels = rw parts (v, w.labels) }

-- The subdomain of a valid label and a valid domain is the label, a dot and the domain.
pub subdomain_lem : (l d : Bytes) → IsLabel l → IsDomain d → subdomain l d ≡ l ++ b'.' ∷ d
unfolding subdomain
subdomain_lem l d v w = normalize_host-IsDomain _ (dotted-IsDomain l d v w)

pub subdomain-IsDomain : (l d : Bytes) → IsLabel l → IsDomain d → IsDomain (subdomain l d)
subdomain-IsDomain l d v w = rw (subdomain_lem l d v w) (dotted-IsDomain l d v w)

split-subdomain :
    (l d : Bytes) → IsLabel l → IsDomain d → split b'.' (subdomain l d) ≡ l ∷ split b'.' d
split-subdomain l d v w = rw (subdomain_lem l d v w) (split-append b'.' l d (IsLabel-Lacks l v))

-- Two labels have the same subdomain only if they are equal.
pub subdomain_inj :
    (l m d : Bytes) → IsLabel l → IsLabel m → IsDomain d → subdomain l d ≡ subdomain m d → l ≡ m
subdomain_inj l m d v w k e =
    cc (split-subdomain l d v k, split-subdomain m d w k, ap (split b'.') e)

-- A subdomain is never the domain itself.
pub subdomain-ne : (l d : Bytes) → IsLabel l → IsDomain d → subdomain l d ≢ d
subdomain-ne l d v w e =
    absurd (omega (arith, ap (λ s. length (split b'.' s)) e, ap length (split-subdomain l d v w)))

has_prefix-port :
    (d port : Bytes) → All IsHostByte d → has_prefix (d ++ b':' ∷ port) (b'[' ∷ []) ≡ false
unfolding has_prefix
has_prefix-port [] port h = ground arith
has_prefix-port (c ∷ d) port h = ground arith

abbrev IsPortByte : ℕ → Type 0
IsPortByte c = IsHostByte c ⊎ (c ≡ b':')

port_bytes :
    (d port : Bytes) → All IsHostByte d → All IsDigit port → All IsPortByte (d ++ b':' ∷ port)
port_bytes d port h k =
    All-append IsPortByte d (b':' ∷ port) (All-mono d (λ c x. inl x) h)
      (inr refl, All-mono port (λ c x. inl (inl (inr (inl x)))) k)

IsPortByte-IsQuiet : (c : ℕ) → IsPortByte c → IsQuiet c
unfolding lower is_space
IsPortByte-IsQuiet c h = ground arith

port-IsQuiet : (port : Bytes) → All IsDigit port → All IsQuiet (b':' ∷ port)
port-IsQuiet port h = (
  IsPortByte-IsQuiet b':' (inr refl),
  All-mono port (λ c x. IsPortByte-IsQuiet c (inl (inl (inr (inl x))))) h,
)

without_port-port :
    (d port : Bytes) → All IsHostByte d → All IsDigit port → without_port (d ++ b':' ∷ port) ≡ d
unfolding without_port split_host_port
without_port-port d port h k =
    let bytes = port_bytes d port h k in
    let whole = d ++ b':' ∷ port in
    ground (
      arith,
      last_cut-append b':' d port (All-mono port (λ c x. ground arith) k),
      has_prefix-port d port h,
      contains-eq-false b':' d (IsPlain-Lacks b':' d h (λ c x. ground arith)),
      contains-eq-false b'[' whole (All-mono whole (λ c x. ground arith) bytes),
      contains-eq-false b']' whole (All-mono whole (λ c x. ground arith) bytes),
    )

dot_bytes : (d : Bytes) → All IsHostByte d → All IsHostByte (d ++ b'.' ∷ [])
dot_bytes d h = All-append IsHostByte d (b'.' ∷ []) h (inr refl, tt)

lower_tail : (s d t : Bytes) → to_lower s ≡ d → All IsQuiet t → to_lower (s ++ t) ≡ d ++ t
lower_tail s d t e q = rw (to_lower-append s t, e, to_lower-eq_self t q)

-- A request's host is normalized to the valid domain `d` where it spells `d` in any case, with a
-- trailing dot, or with a colon and a numeric port behind it.
pub normalize_host_variants :
    (s d port : Bytes)
    → IsDomain d
    → to_lower s ≡ d
    → All IsDigit port
    → (normalize_host s ≡ d)
      × (normalize_host (s ++ b'.' ∷ []) ≡ d)
      × (normalize_host (s ++ b':' ∷ port) ≡ d)
normalize_host_variants s d port w e digits =
    let p = IsDomain-IsPlain d w in
    let dotted = dot_bytes d p.bytes in
    let with_port = All-mono _ IsPortByte-IsQuiet (port_bytes d port p.bytes digits) in
    (
      normalize_host-lower s d p e,
      rw
          (
            normalize_host-quiet (s ++ b'.' ∷ []) (d ++ b'.' ∷ [])
                (lower_tail s d _ e (IsHostByte-IsQuiet b'.' (inr refl), tt))
                (All-mono _ IsHostByte-IsQuiet dotted),
            without_port-plain _ dotted,
          )
          (trim_suffix-append b'.' d),
      rw
          (
            normalize_host-quiet (s ++ b':' ∷ port) (d ++ b':' ∷ port)
                (lower_tail s d _ e (port-IsQuiet port digits)) with_port,
            without_port-port d port p.bytes digits,
          )
          (trim_suffix-eq_self b'.' d p.no_dot),
    )

-- A valid label is its own normal form.
pub normalize_label-IsLabel : (s : Bytes) → IsLabel s → normalize_label s ≡ s
unfolding normalize_label
normalize_label-IsLabel s v =
    let quiet = All-mono s (λ c x. IsHostByte-IsQuiet c (inl x)) v.ldh in
    ap trim_space (to_lower-eq_self s quiet) ∙ trim_space-eq_self s quiet
