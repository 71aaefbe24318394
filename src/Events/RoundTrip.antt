-- ===== src/Events/RoundTrip.antt =====
-- The properties header (wakuwaku-iggy/src/events/mod.rs) read back.
use wakuwaku.Base.{ℕ, List, [], ◌∷◌, ◌≡◌, ok, arith}
use wakuwaku.Events.{
  EventAlgebraicProperties, EventAtomicOrdering, try_ordering, ordering_byte, into_bytes, parse,
}

try_ordering-byte : (o : EventAtomicOrdering) → try_ordering (ordering_byte o) ≡ ok o
unfolding try_ordering ordering_byte
try_ordering-byte o = ground arith

-- Encoded properties are read back unchanged.
pub parse-into_bytes : (p : EventAlgebraicProperties) → parse (into_bytes p) ≡ ok p
unfolding parse into_bytes
parse-into_bytes p = ground arith

-- Bytes that are read as properties are the encoding of those properties: there is no other.
pub into_bytes-parse :
    (bytes : List ℕ) (p : EventAlgebraicProperties) → parse bytes ≡ ok p → bytes ≡ into_bytes p
unfolding parse into_bytes
into_bytes-parse [] p h = cc
into_bytes-parse (v ∷ []) p h = cc
into_bytes-parse (v ∷ a ∷ []) p h = cc
into_bytes-parse (v ∷ a ∷ b ∷ []) p h = ground arith
into_bytes-parse (v ∷ a ∷ b ∷ c ∷ r) p h = cc
