-- ===== src/Events/Headers.antt =====
-- wakuwaku-iggy/src/events/headers.rs: the headers of a message. `HeaderKey`, `HeaderValue` and
-- the message are Iggy's: they and their conversions are parameters, and a header map is the
-- function that looks a key up.
pub mod RoundTrip
mod Examples
use Prim.Native.String.{String}
use wakuwaku.Base.{
  ℕ, zero, suc, ◌+◌, ◌*◌, ◌/◌, ◌%◌, ◌==◌, if◌then◌else◌, List, [], ◌∷◌, Option, none, some, Result,
  ok, err, ◌>>=◌, ok_or, length, not, ite,
}
use wakuwaku.Events.{
  EventTypeTag, EventParseError, missing_header, bad_header, unknown_retry_version,
  EventAlgebraicProperties,
}
use wakuwaku.Events
use mathlib.Core.Option

-- `n.to_le_bytes()` of an integer of `w` bytes.
unfoldable pub to_le_bytes : ℕ → ℕ → List ℕ
to_le_bytes zero n = []
to_le_bytes (suc w) n = n % 256 ∷ to_le_bytes w (n / 256)

unfoldable pub from_le_bytes : List ℕ → ℕ
from_le_bytes [] = 0
from_le_bytes (b ∷ bs) = b + 256 * from_le_bytes bs

-- `bytes.try_into()` into an array of `w` bytes, read as a little-endian integer.
abbrev try_le : ℕ → String → List ℕ → Result EventParseError ℕ
try_le w name bytes = if length bytes == w then ok (from_le_bytes bytes) else err (bad_header name)

abbrev pub tag_header : String
tag_header = "wakuwaku-tag"

abbrev pub key_header : String
key_header = "wakuwaku-key"

abbrev pub props_header : String
props_header = "wakuwaku-props"

abbrev pub retry_header : String
retry_header = "wakuwaku-retry"

pub record EventHeaders : Type 0 where
  pub tag : EventTypeTag
  pub key : ℕ  -- u64
  pub properties : EventAlgebraicProperties

pub record RetryProperties : Type 0 where
  pub failed_at_ms : ℕ  -- u64

-- `RetryProperties::into_bytes`
unfoldable pub retry_into_bytes : RetryProperties → List ℕ
unfolding to_le_bytes
retry_into_bytes r = Events.version ∷ to_le_bytes 8 r.failed_at_ms

retry_fields : ℕ → List ℕ → Result EventParseError RetryProperties
retry_fields v rest =
    if not (v == Events.version)
    then err unknown_retry_version
    else ok (record { failed_at_ms = from_le_bytes rest })

-- `RetryProperties::parse`: exactly nine bytes.
unfoldable pub retry_parse : List ℕ → Result EventParseError RetryProperties
unfolding retry_fields
retry_parse [] = err (bad_header retry_header)
retry_parse (v ∷ rest) =
    if length rest == 8 then retry_fields v rest else err (bad_header retry_header)

-- The keys of the four headers.
pub record HeaderKeys (HeaderKey : Type 0) : Type 0 where
  pub tag : HeaderKey
  pub key : HeaderKey
  pub props : HeaderKey
  pub retry : HeaderKey

-- `HeaderKeys::new`, over Iggy's `HeaderKey::from_str`.
unfoldable pub new :
    {IggyError HeaderKey : Type 0}
    → (String → Result IggyError HeaderKey)
    → Result IggyError (HeaderKeys HeaderKey)
new from_str = do
  t ← from_str tag_header
  k ← from_str key_header
  p ← from_str props_header
  r ← from_str retry_header
  ok (record { tag = t; key = k; props = p; retry = r })

module _ {HeaderKey HeaderValue : Type 0} (key_eq : Discrete HeaderKey) where
  -- `map.insert(k, v)`
  unfoldable pub insert :
      HeaderKey → HeaderValue → (HeaderKey → Option HeaderValue) → HeaderKey → Option HeaderValue
  insert k v m j = ite (key_eq k j) (some v) (m j)

  module _ {IggyError : Type 0} (try_from : List ℕ → Result IggyError HeaderValue) where
    insert_retry :
        HeaderKeys HeaderKey
        → Option RetryProperties
        → (HeaderKey → Option HeaderValue)
        → Result IggyError (HeaderKey → Option HeaderValue)
    insert_retry keys none map = ok map
    insert_retry keys (some retry) map = do
      value ← try_from (retry_into_bytes retry)
      ok (insert keys.retry value map)

    -- `EventHeaders::to_map`
    unfoldable pub to_map :
        EventHeaders
        → HeaderKeys HeaderKey
        → Option RetryProperties
        → Result IggyError (HeaderKey → Option HeaderValue)
    unfolding insert_retry insert
    to_map h keys retry = do
      tag ← try_from (to_le_bytes 4 h.tag)
      key ← try_from (to_le_bytes 8 h.key)
      props ← try_from (Events.into_bytes h.properties)
      let map = insert keys.props props (insert keys.key key (insert keys.tag tag (λ _. none)))
      insert_retry keys retry map

-- The optional retry header.
module _ {HeaderValue : Type 0} (as_bytes : HeaderValue → List ℕ) where
  parse_retry : Option HeaderValue → Result EventParseError (Option RetryProperties)
  parse_retry none = ok none
  parse_retry (some value) = do retry ← retry_parse (as_bytes value); ok (some retry)

module _ {HeaderKey HeaderValue : Type 0} (as_bytes : HeaderValue → List ℕ) where
  get : (HeaderKey → Option HeaderValue) → HeaderKey → String → Result EventParseError (List ℕ)
  get map key name = ok_or (Option.map as_bytes (map key)) (missing_header name)

  parse_map :
      HeaderKeys HeaderKey
      → (HeaderKey → Option HeaderValue)
      → Result EventParseError (EventHeaders × Option RetryProperties)
  parse_map keys map = do
    tag_bytes ← get map keys.tag tag_header
    tag ← try_le 4 tag_header tag_bytes
    key_bytes ← get map keys.key key_header
    key ← try_le 8 key_header key_bytes
    props_bytes ← get map keys.props props_header
    properties ← Events.parse props_bytes
    retry ← parse_retry as_bytes (map keys.retry)
    ok (record { tag = tag; key = key; properties = properties }, retry)

  -- `EventHeaders::parse`, over the result of Iggy's `message.user_headers_map()`.
  unfoldable pub parse :
      {IggyError : Type 0}
      → Result IggyError (Option (HeaderKey → Option HeaderValue))
      → HeaderKeys HeaderKey
      → Result EventParseError (EventHeaders × Option RetryProperties)
  unfolding parse_map get parse_retry
  parse (err _) keys = err (missing_header tag_header)
  parse (ok none) keys = err (missing_header tag_header)
  parse (ok (some map)) keys = parse_map keys map
