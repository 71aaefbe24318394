-- ===== src/Events.antt =====
-- wakuwaku-iggy/src/events/mod.rs: the type tag, the ordering and the algebra of an event, and
-- their encoding in the properties header. A byte is a number below 256.
pub mod RoundTrip
pub mod Headers
use Prim.Native.String.{String}
use wakuwaku.Base.{
  ℕ, Bool, true, false, List, [], ◌∷◌, Result, ok, err, ◌>>=◌, ◌==◌, if◌then◌else◌, not,
}

-- `EventTypeTag(u32)`; `new` and `get` wrap and unwrap.
abbrev pub EventTypeTag : Type 0
EventTypeTag = ℕ

pub data EventAtomicOrdering : Type 0 where
  relaxed acquire release acq_rel : EventAtomicOrdering

pub data EventAssociativity : Type 0 where
  non_associative associative idempotent commutative idempotent_commutative : EventAssociativity

-- `matches!(ordering, Acquire | AcqRel)`
abbrev pub is_acquire : EventAtomicOrdering → Bool
is_acquire acquire = true
is_acquire acq_rel = true
is_acquire _ = false

-- `ordering == Release`
abbrev pub is_release : EventAtomicOrdering → Bool
is_release release = true
is_release _ = false

pub EventAssociativity-discrete : Discrete EventAssociativity
EventAssociativity-discrete = hlevel

pub data EventParseError : Type 0 where
  unknown_event_type unknown_properties_version bad_properties : EventParseError
  missing_header bad_header : String → EventParseError
  unknown_retry_version : EventParseError

pub record EventAlgebraicProperties : Type 0 where
  pub atomic_level : EventAtomicOrdering
  pub associativity : EventAssociativity

abbrev pub version : ℕ
version = 1

-- `self.atomic_level as u8`: the declared discriminants.
unfoldable pub ordering_byte : EventAtomicOrdering → ℕ
ordering_byte relaxed = 1
ordering_byte acquire = 2
ordering_byte release = 4
ordering_byte acq_rel = 6

-- `self.associativity as u8`
unfoldable pub associativity_byte : EventAssociativity → ℕ
associativity_byte non_associative = 0
associativity_byte associative = 1
associativity_byte idempotent = 2
associativity_byte commutative = 3
associativity_byte idempotent_commutative = 4

-- `u8::try_into`, which `TryFromPrimitive` derives from the discriminants.
unfoldable pub try_ordering : ℕ → Result EventParseError EventAtomicOrdering
try_ordering b =
    if b == 1
    then ok relaxed
    else if b == 2
    then ok acquire
    else if b == 4
    then ok release
    else if b == 6
    then ok acq_rel
    else err bad_properties

unfoldable pub try_associativity : ℕ → Result EventParseError EventAssociativity
try_associativity b =
    if b == 0
    then ok non_associative
    else if b == 1
    then ok associative
    else if b == 2
    then ok idempotent
    else if b == 3
    then ok commutative
    else if b == 4
    then ok idempotent_commutative
    else err bad_properties

-- `EventAlgebraicProperties::into_bytes`
unfoldable pub into_bytes : EventAlgebraicProperties → List ℕ
unfolding ordering_byte associativity_byte
into_bytes p = 1 ∷ ordering_byte p.atomic_level ∷ associativity_byte p.associativity ∷ []

-- The body of `parse` after its array pattern.
parse_fields : ℕ → ℕ → ℕ → Result EventParseError EventAlgebraicProperties
unfolding try_ordering try_associativity
parse_fields v atomic_level associativity =
    if not (v == version) then err unknown_properties_version else (do
      level ← try_ordering atomic_level
      assoc ← try_associativity associativity
      ok (record { atomic_level = level; associativity = assoc }))

-- `EventAlgebraicProperties::parse`: exactly three bytes.
unfoldable pub parse : List ℕ → Result EventParseError EventAlgebraicProperties
unfolding parse_fields
parse (v ∷ atomic_level ∷ associativity ∷ []) = parse_fields v atomic_level associativity
parse _ = err bad_properties
