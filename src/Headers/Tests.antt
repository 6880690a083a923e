-- ===== src/Headers/Tests.antt =====
-- internal/headers/headers.go on concrete headers.
use muxbridge.Base.{
  ◌≡◌, refl, arith, none, some, Option, List, [], ◌∷◌, map, Bytes, codes, same, same_iff, lookup,
  bytes_eq,
}
use muxbridge.Base.Text.{to_lower, split, trim_space}
use muxbridge.Headers.{
  Headers, WireHeader, to_proto, from_proto, connection_tokens, tokens_of, collect_tokens,
  add_tokens, has_upgrade, should_strip, is_hop_by_hop, member, in_tokens, hop_by_hop_headers,
  header_get, header_values, canonical_key,
}
use muxbridge.Headers.Strip.{entries, IsStripped, wire_values, to_proto-lookup, from_proto-lookup}
use muxbridge.Headers.RoundTrip.{from_proto-to_proto}

abbrev request_headers : Headers
request_headers =
    (codes "Connection", codes "close, X-Secret" ∷ [])
    ∷ (codes "X-Secret", codes "1" ∷ [])
    ∷ (codes "Te", codes "trailers" ∷ [])
    ∷ (codes "Accept", codes "text/html" ∷ codes "*/*" ∷ [])
    ∷ []

only_accept :
    entries (to_proto request_headers) ≡ (codes "Accept", codes "text/html" ∷ codes "*/*" ∷ []) ∷ []
unfolding to_proto connection_tokens tokens_of collect_tokens add_tokens has_upgrade should_strip
    is_hop_by_hop member in_tokens hop_by_hop_headers header_get header_values lookup same to_lower
    split trim_space
only_accept = refl

canonical : canonical_key (codes "x-request-ID") ≡ codes "X-Request-Id"
unfolding canonical_key
canonical = refl

to_proto-lookup_example :
    (IsStripped request_headers (codes "Accept")
      → lookup (codes "Accept") (entries (to_proto request_headers)) ≡ none)
    × (¬ IsStripped request_headers (codes "Accept")
        → lookup (codes "Accept") (entries (to_proto request_headers))
          ≡ lookup (codes "Accept") request_headers)
to_proto-lookup_example = to_proto-lookup request_headers (codes "Accept")

abbrev forged : List (Option WireHeader)
forged =
    none
    ∷ some (record { key = codes "Te"; values = codes "gzip" ∷ [] })
    ∷ some (record { key = codes "Accept"; values = codes "a" ∷ [] })
    ∷ some (record { key = codes "Accept"; values = codes "b" ∷ [] })
    ∷ []

abbrev sent : Headers
sent = (codes "Accept", codes "b" ∷ []) ∷ (codes "Te", codes "gzip" ∷ []) ∷ []

-- Each header of the wire, under whatever name it is looked up.
sent-lookup : (j : Bytes) → lookup j sent ≡ wire_values j forged
unfolding lookup
sent-lookup j = ground (arith, same_iff (codes "Accept") j, same_iff (codes "Te") j)

from_proto-lookup_example :
    (IsStripped sent (codes "Accept") → lookup (codes "Accept") (from_proto forged) ≡ none)
    × (¬ IsStripped sent (codes "Accept")
        → lookup (codes "Accept") (from_proto forged) ≡ wire_values (codes "Accept") forged)
from_proto-lookup_example = from_proto-lookup forged sent (codes "Accept") sent-lookup

from_proto-to_proto_example :
    from_proto (map some (to_proto request_headers)) ≡ entries (to_proto request_headers)
unfolding same
from_proto-to_proto_example =
    from_proto-to_proto request_headers
      ((refl, (refl, (refl, tt))), ((refl, (refl, tt)), ((refl, tt), (tt, tt))))
