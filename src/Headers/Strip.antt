-- ===== src/Headers/Strip.antt =====
-- Which headers cross the tunnel.
use muxbridge.Base.{
  ◌≡◌, ◌≢◌, ◌⊎◌, ◌↔◌, inl, inr, refl, sym, ◌∙◌, Bool, true, false, ◌||◌, none, some, Option, List,
  [], ◌∷◌, ◌++◌, arith, Bytes, codes, same, same_iff, lookup, lookup-delete_if, delete_if,
  Bool-cases, Option-cases, Any, insert, lookup-insert, if◌then◌else◌, bytes_eq,
}
use muxbridge.Base.Text.{to_lower, trim_space, split}
use muxbridge.Base.Text.Quiet.{to_lower_idem}
use muxbridge.Headers.{
  Headers, WireHeader, hop_by_hop_headers, member, in_tokens, is_hop_by_hop, header_values,
  header_get, connection_tokens, tokens_of, collect_tokens, add_tokens, has_upgrade, should_strip,
  wire_headers, to_proto, from_proto, unwire,
}

abbrev pub entries : List WireHeader → Headers
entries [] = []
entries (w ∷ ws) = (w.key, w.values) ∷ entries ws

entries-wire_headers :
    (tokens : Option (List Bytes)) (upgrading : Bool) (h : Headers)
    → entries (wire_headers tokens upgrading h) ≡ delete_if (λ k. should_strip k tokens upgrading) h
unfolding wire_headers delete_if
entries-wire_headers tokens upgrading [] = refl
entries-wire_headers tokens upgrading ((k, vs) ∷ h) =
    ground (arith, entries-wire_headers tokens upgrading h)

-- The entries of `ToProto` are the entries of the header, less the stripped ones.
pub entries-to_proto :
    (h : Headers)
    → entries (to_proto h) ≡ delete_if (λ k. should_strip k (connection_tokens h) (has_upgrade h)) h
unfolding to_proto
entries-to_proto h = entries-wire_headers (connection_tokens h) (has_upgrade h) h

pub member_iff : (x : Bytes) (ys : List Bytes) → (member x ys ≡ true) ↔ Any (λ y. x ≡ y) ys
unfolding member
member_iff x [] = ground arith
member_iff x (y ∷ ys) = ground (arith, same_iff x y, member_iff x ys)

-- The name `t`, in lowercase, stands in a comma-separated value of a Connection header.
abbrev pub IsNamed : Bytes → List Bytes → Type 0
IsNamed t = Any (λ v. Any (λ raw. to_lower (trim_space raw) ≡ t) (split b',' v))

member-append :
    (t : Bytes) (xs ys : List Bytes) → member t (xs ++ ys) ≡ (member t xs || member t ys)
unfolding member
member-append t [] ys = refl
member-append t (x ∷ xs) ys = ground (arith, member-append t xs ys)

abbrev pub IsToken : Bytes → Type 0
IsToken t = (t ≢ []) × (t ≢ codes "upgrade")

member-snoc : (t x : Bytes) (xs : List Bytes) → member t (xs ++ x ∷ []) ≡ (member t xs || same t x)
unfolding member
member-snoc t x [] = ground arith
member-snoc t x (y ∷ xs) = ground (arith, member-snoc t x xs)

member-add_tokens :
    (t : Bytes) (raws tokens : List Bytes)
    → (member t (add_tokens raws tokens) ≡ true)
      ↔ ((member t tokens ≡ true) ⊎ (IsToken t × Any (λ raw. to_lower (trim_space raw) ≡ t) raws))
unfolding add_tokens
member-add_tokens t [] tokens = ground arith
member-add_tokens t (raw ∷ raws) tokens =
    let tok = to_lower (trim_space raw) in
    elim (Bool-cases (same tok [] || same tok (codes "upgrade"))) [
      | inl e ↦ rw e (
          ground (
            arith,
            same_iff tok [],
            same_iff tok (codes "upgrade"),
            member-add_tokens t raws tokens,
          ))
      | inr e ↦ rw e (
          ground (
            arith,
            same_iff tok [],
            same_iff tok (codes "upgrade"),
            same_iff t tok,
            member-snoc t tok tokens,
            member-add_tokens t raws (tokens ++ tok ∷ []),
          ))
    ]

member-collect_tokens :
    (t : Bytes) (vs tokens : List Bytes)
    → (member t (collect_tokens vs tokens) ≡ true)
      ↔ ((member t tokens ≡ true) ⊎ (IsToken t × IsNamed t vs))
unfolding collect_tokens
member-collect_tokens t [] tokens = ground arith
member-collect_tokens t (v ∷ vs) tokens = ground (
  arith,
  member-add_tokens t (split b',' v) tokens,
  member-collect_tokens t vs (add_tokens (split b',' v) tokens),
)

in_tokens-tokens_of :
    (t : Bytes) (vs : List Bytes) → (in_tokens t (tokens_of vs) ≡ true) ↔ (IsToken t × IsNamed t vs)
unfolding in_tokens tokens_of member
in_tokens-tokens_of t [] = ground arith
in_tokens-tokens_of t (v ∷ vs) = ground (arith, member-collect_tokens t (v ∷ vs) [])

-- What does not cross the tunnel: Connection and Upgrade where no upgrade is under way, the
-- hop-by-hop headers, and what a Connection header names.
abbrev pub IsStripped : Headers → Bytes → Type 0
IsStripped h k =
    (((to_lower k ≡ codes "connection") ⊎ (to_lower k ≡ codes "upgrade")) × (has_upgrade h ≡ false))
    ⊎ ((to_lower k ≢ codes "connection")
        × (to_lower k ≢ codes "upgrade")
        × (Any (λ y. to_lower k ≡ y) hop_by_hop_headers
            ⊎ (IsToken (to_lower k) × IsNamed (to_lower k) (header_values (codes "Connection") h))))

is_hop_by_hop_iff :
    (t : Bytes) (h : Headers)
    → to_lower t ≡ t
    → (is_hop_by_hop t (connection_tokens h) ≡ true) ↔ (
        Any (λ y. t ≡ y) hop_by_hop_headers
        ⊎ (IsToken t × IsNamed t (header_values (codes "Connection") h)))
unfolding is_hop_by_hop connection_tokens
is_hop_by_hop_iff t h e = rw e (
    ground (
      arith,
      member_iff t hop_by_hop_headers,
      in_tokens-tokens_of t (header_values (codes "Connection") h),
    ))

pub should_strip_iff :
    (h : Headers) (k : Bytes)
    → (should_strip k (connection_tokens h) (has_upgrade h) ≡ true) ↔ IsStripped h k
unfolding should_strip
should_strip_iff h k = ground (
  arith,
  same_iff (to_lower k) (codes "connection"),
  same_iff (to_lower k) (codes "upgrade"),
  is_hop_by_hop_iff (to_lower k) h (to_lower_idem k),
)

-- A header reaches the other end of the tunnel, with its values as they are, exactly if it is not
-- one of those that a proxy must not forward; no header is added.
pub to_proto-lookup :
    (h : Headers) (k : Bytes)
    → (IsStripped h k → lookup k (entries (to_proto h)) ≡ none)
      × (¬ IsStripped h k → lookup k (entries (to_proto h)) ≡ lookup k h)
to_proto-lookup h k =
    let strip = λ (j : Bytes). should_strip j (connection_tokens h) (has_upgrade h) in
    rw (entries-to_proto h, lookup-delete_if strip k h)
      (
        λ s. rw ((should_strip_iff h k).1 s) refl,
        λ n. elim (Bool-cases (strip k)) [
          | inl e ↦ absurd (n ((should_strip_iff h k).0 e))
          | inr e ↦ rw e refl
        ],
      )

-- The values of a name on the wire: those of its last header.
abbrev pub wire_values : Bytes → List (Option WireHeader) → Option (List Bytes)
wire_values k [] = none
wire_values k (none ∷ rest) = wire_values k rest
wire_values k (some kv ∷ rest) = elim (wire_values k rest) [
  | some vs ↦ some vs
  | none ↦ if same kv.key k then some kv.values else none
]

lookup-unwire :
    (k : Bytes) (wire : List (Option WireHeader)) (h : Headers)
    → lookup k (unwire wire h)
      ≡ (elim (wire_values k wire) [ some vs ↦ some vs | none ↦ lookup k h ])
unfolding unwire
lookup-unwire k [] h = refl
lookup-unwire k (none ∷ rest) h = lookup-unwire k rest h
lookup-unwire k (some kv ∷ rest) h = elim (Option-cases (wire_values k rest)) [
  | inl n ↦
      rw (lookup-unwire k rest (insert kv.key kv.values h), n)
        (ground (arith, lookup-insert kv.key k kv.values h))
  | inr (vs, e) ↦ rw (lookup-unwire k rest (insert kv.key kv.values h), e) refl
]

wire-lookup :
    (k : Bytes) (wire : List (Option WireHeader)) → lookup k (unwire wire []) ≡ wire_values k wire
unfolding lookup
wire-lookup k wire = elim (Option-cases (wire_values k wire)) [
  | inl n ↦ rw (lookup-unwire k wire [], n) refl
  | inr (vs, e) ↦ rw (lookup-unwire k wire [], e) refl
]

header_values-same :
    (k : Bytes) (h h' : Headers) → lookup k h ≡ lookup k h' → header_values k h ≡ header_values k h'
unfolding header_values
header_values-same k h h' e = ground arith

IsStripped-same :
    (h h' : Headers) (k : Bytes)
    → ((j : Bytes) → lookup j h ≡ lookup j h')
    → IsStripped h k
    → IsStripped h' k
unfolding has_upgrade header_get
IsStripped-same h h' k e s =
    let named = header_values-same (codes "Connection") h h' (e (codes "Connection")) in
    let upgrade = header_values-same (codes "Upgrade") h h' (e (codes "Upgrade")) in
    rw (sym named, sym upgrade) s

-- The headers that `FromProto` lets through are those of the wire, where the last header of a name
-- counts, less the ones that must not be forwarded, whatever the other end sent: for any header `h` that
-- has for each name the wire's values.
pub from_proto-lookup :
    (wire : List (Option WireHeader)) (h : Headers) (k : Bytes)
    → ((j : Bytes) → lookup j h ≡ wire_values j wire)
    → (IsStripped h k → lookup k (from_proto wire) ≡ none)
      × (¬ IsStripped h k → lookup k (from_proto wire) ≡ wire_values k wire)
unfolding from_proto
from_proto-lookup wire h k e =
    let h' = unwire wire [] in
    let strip = λ (j : Bytes). should_strip j (connection_tokens h') (has_upgrade h') in
    let there = λ (j : Bytes). e j ∙ sym (wire-lookup j wire) in
    let back = λ (j : Bytes). sym (there j) in
    rw (from_proto, lookup-delete_if strip k h')
      (
        λ s. rw ((should_strip_iff h' k).1 (IsStripped-same h h' k there s)) refl,
        λ n. elim (Bool-cases (strip k)) [
          | inl x ↦ absurd (n (IsStripped-same h' h k back ((should_strip_iff h' k).0 x)))
          | inr x ↦ rw x (wire-lookup k wire)
        ],
      )
