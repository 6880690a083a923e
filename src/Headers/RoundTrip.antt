-- ===== src/Headers/RoundTrip.antt =====
-- `FromProto` behind `ToProto`.
use muxbridge.Base.{
  ◌≡◌, refl, sym, ◌∙◌, Bool, true, false, not, inl, inr, some, none, Option, List, [], ◌∷◌, ◌++◌,
  map, append_assoc, append-nil, arith, Bytes, codes, same, delete_if, delete_if-delete_if,
  lookup-delete_if, All, All-append, Distinct, Distinct-delete_if, insert_fresh, Bool-cases,
  if◌then◌else◌, bytes_eq,
}
use muxbridge.Base.Text.{to_lower}
use muxbridge.Headers.{
  Headers, WireHeader, is_hop_by_hop, in_tokens, header_values, header_get, connection_tokens,
  tokens_of, has_upgrade, should_strip, to_proto, from_proto, unwire,
}
use muxbridge.Headers.Strip.{entries, entries-to_proto}

-- No key of `m` stands in `acc`.
abbrev AreFresh : Headers → Headers → Type 0
AreFresh acc = All (λ kv. All (λ kw. same kw.0 kv.0 ≡ false) acc)

AreFresh-snoc :
    (acc : Headers) (k : Bytes) (vs : List Bytes) (m : Headers)
    → AreFresh acc m
    → All (λ kv. same k kv.0 ≡ false) m
    → AreFresh (acc ++ (k, vs) ∷ []) m
AreFresh-snoc acc k vs [] f d = tt
AreFresh-snoc acc k vs (kv ∷ m) f d = (
  All-append (λ kw. same kw.0 kv.0 ≡ false) acc ((k, vs) ∷ []) f.0 (d.0, tt),
  AreFresh-snoc acc k vs m f.1 d.1,
)

unwire-entries :
    (ws : List WireHeader) (acc : Headers)
    → Distinct (entries ws)
    → AreFresh acc (entries ws)
    → unwire (map some ws) acc ≡ acc ++ entries ws
unfolding unwire
unwire-entries [] acc d f = sym (append-nil acc)
unwire-entries (w ∷ ws) acc d f =
    rw (unwire, insert_fresh w.key w.values acc f.0)
      (unwire-entries ws (acc ++ (w.key, w.values) ∷ []) d.1
          (AreFresh-snoc acc w.key w.values (entries ws) f.1 d.0)
        ∙ append_assoc acc _ (entries ws))

AreFresh-nil : (m : Headers) → AreFresh [] m
AreFresh-nil [] = tt
AreFresh-nil (kv ∷ m) = (tt, AreFresh-nil m)

module _ (h : Headers) where
  abbrev strips : Bytes → Bool
  strips k = should_strip k (connection_tokens h) (has_upgrade h)

  abbrev kept : Headers
  kept = delete_if strips h

  header_values-kept : (k : Bytes) → strips k ≡ false → header_values k kept ≡ header_values k h
  unfolding header_values
  header_values-kept k e = ground (arith, lookup-delete_if strips k h)

  header_values-stripped : (k : Bytes) → strips k ≡ true → header_values k kept ≡ []
  unfolding header_values
  header_values-stripped k e = ground (arith, lookup-delete_if strips k h)

  strips-connection : strips (codes "Connection") ≡ not (has_upgrade h)
  unfolding should_strip to_lower same
  strips-connection = refl

  strips-upgrade : strips (codes "Upgrade") ≡ not (has_upgrade h)
  unfolding should_strip to_lower same
  strips-upgrade = refl

  connection_tokens-kept :
      connection_tokens kept ≡ (if has_upgrade h then connection_tokens h else none)
  unfolding connection_tokens tokens_of
  connection_tokens-kept = elim (Bool-cases (has_upgrade h)) [
    | inl e ↦ rw (header_values-kept (codes "Connection") (rw (strips-connection, e)), e)
    | inr e ↦ rw (header_values-stripped (codes "Connection") (rw (strips-connection, e)), e)
  ]

  has_upgrade-kept : has_upgrade kept ≡ has_upgrade h
  unfolding header_get same
  has_upgrade-kept = elim (Bool-cases (has_upgrade h)) [
    | inl e ↦
        unfold has_upgrade in rw (header_values-kept (codes "Upgrade") (rw (strips-upgrade, e)))
    | inr e ↦
        unfold has_upgrade in
        (rw (header_values-stripped (codes "Upgrade") (rw (strips-upgrade, e))) (sym e))
  ]

should_strip-none :
    (k : Bytes) (tokens : Option (List Bytes))
    → should_strip k tokens false ≡ false
    → should_strip k none false ≡ false
unfolding should_strip is_hop_by_hop in_tokens
should_strip-none k tokens e = ground arith

-- What is kept once is kept again.
strips-kept : (h : Headers) (k : Bytes) → strips h k ≡ false → strips (kept h) k ≡ false
strips-kept h k e =
    rw (connection_tokens-kept h, has_upgrade-kept h)
      (elim (Bool-cases (has_upgrade h)) [
        | inl u ↦ rw (u, ← u) e
        | inr u ↦ rw u (should_strip-none k (connection_tokens h) (rw u at e))
      ])

-- The header that `FromProto` builds from what `ToProto` sent is the sent header, with each entry in
-- its place: the defensive second strip removes nothing more.
pub from_proto-to_proto :
    (h : Headers) → Distinct h → from_proto (map some (to_proto h)) ≡ entries (to_proto h)
unfolding from_proto
from_proto-to_proto h d =
    rw (unwired, from_proto)
      (delete_if-delete_if (strips h) (strips (kept h)) h (strips-kept h)
        ∙ sym (entries-to_proto h))
  where
    sent : Distinct (entries (to_proto h))
    sent = rw (entries-to_proto h) (Distinct-delete_if (strips h) h d)

    unwired : unwire (map some (to_proto h)) [] ≡ kept h
    unwired =
        unwire-entries (to_proto h) [] sent (AreFresh-nil (entries (to_proto h)))
        ∙ entries-to_proto h
