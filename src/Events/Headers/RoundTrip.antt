-- ===== src/Events/Headers/RoundTrip.antt =====
-- The headers (wakuwaku-iggy/src/events/headers.rs) read back.
use wakuwaku.Base.{
  ℕ, zero, suc, ◌/◌, ◌^◌, ◌≤◌, ◌<◌, ◌≡◌, ◌≢◌, refl, sym, List, Option, none, some, Result, ok,
  arith, length, if_pos, if_neg,
}
use native.Mathlib.Nat.{pow-suc}
use wakuwaku.Events.RoundTrip.{parse-into_bytes}
use wakuwaku.Events.{EventAlgebraicProperties, into_bytes}
use wakuwaku.Events.Headers.{
  to_le_bytes, from_le_bytes, EventHeaders, RetryProperties, retry_into_bytes, retry_parse,
  HeaderKeys, to_map, parse, parse_map, parse_retry, get, insert_retry, insert,
}

pub from_le_bytes-to_le_bytes : (w n : ℕ) → n < 256 ^ w → from_le_bytes (to_le_bytes w n) ≡ n
unfolding to_le_bytes from_le_bytes
from_le_bytes-to_le_bytes zero n h = omega arith
from_le_bytes-to_le_bytes (suc w) n h =
    omega (arith, from_le_bytes-to_le_bytes w (n / 256), pow-suc 256 w)

length-to_le_bytes : (w n : ℕ) → length (to_le_bytes w n) ≡ w
unfolding to_le_bytes
length-to_le_bytes zero n = refl
length-to_le_bytes (suc w) n = omega (arith, length-to_le_bytes w (n / 256))

-- An encoded retry header is read back unchanged, if its time fits 64 bits.
pub retry_parse-into_bytes :
    (r : RetryProperties) → r.failed_at_ms < 2 ^ 64 → retry_parse (retry_into_bytes r) ≡ ok r
unfolding retry_parse retry_into_bytes
retry_parse-into_bytes r h = ground (arith, from_le_bytes-to_le_bytes 8 r.failed_at_ms)

-- What the code relies on of Iggy's `HeaderValue`: raw values of 1 to 255 bytes are accepted as
-- they are.
pub record HeaderValueApi {IggyError HeaderValue : Type 0}
    (try_from : List ℕ → Result IggyError HeaderValue) (as_bytes : HeaderValue → List ℕ)
    : Type 0 where
  pub accepts :
      (bytes : List ℕ)
      → 1 ≤ length bytes
      → length bytes ≤ 255
      → (v : HeaderValue) × (try_from bytes ≡ ok v) × (as_bytes v ≡ bytes)

-- The four header names give four keys.
pub record KeysDistinct {HeaderKey : Type 0} (keys : HeaderKeys HeaderKey) : Type 0 where
  pub key_tag : keys.key ≢ keys.tag
  pub props_tag : keys.props ≢ keys.tag
  pub props_key : keys.props ≢ keys.key
  pub retry_tag : keys.retry ≢ keys.tag
  pub retry_key : keys.retry ≢ keys.key
  pub retry_props : keys.retry ≢ keys.props

abbrev pub RetryFits : Option RetryProperties → Type 0
RetryFits none = Unit {0}
RetryFits (some r) = r.failed_at_ms < 2 ^ 64

module _ {HeaderKey HeaderValue : Type 0} (key_eq : Discrete HeaderKey) where
  insert_self :
      (k : HeaderKey) (v : HeaderValue) (m : HeaderKey → Option HeaderValue)
      → insert key_eq k v m k ≡ some v
  unfolding insert
  insert_self k v m = rw (if_pos (key_eq k k) refl)

  insert_other :
      (k j : HeaderKey) (v : HeaderValue) (m : HeaderKey → Option HeaderValue)
      → k ≢ j
      → insert key_eq k v m j ≡ m j
  unfolding insert
  insert_other k j v m h = rw (if_neg (key_eq k j) h)

-- Reading a map that holds the encoded headers.
parse_of_lookups :
    {HeaderKey HeaderValue : Type 0} (as_bytes : HeaderValue → List ℕ) (h : EventHeaders)
    (keys : HeaderKeys HeaderKey) (retry : Option RetryProperties)
    (map : HeaderKey → Option HeaderValue) (a b c : HeaderValue)
    → map keys.tag ≡ some a
    → map keys.key ≡ some b
    → map keys.props ≡ some c
    → as_bytes a ≡ to_le_bytes 4 h.tag
    → as_bytes b ≡ to_le_bytes 8 h.key
    → as_bytes c ≡ into_bytes h.properties
    → parse_retry as_bytes (map keys.retry) ≡ ok retry
    → h.tag < 2 ^ 32
    → h.key < 2 ^ 64
    → parse_map as_bytes keys map ≡ ok (h, retry)
unfolding parse_map get
parse_of_lookups as_bytes h keys retry map a b c ea eb ec fa fb fc r t k = ground (
  arith,
  length-to_le_bytes 4 h.tag,
  length-to_le_bytes 8 h.key,
  from_le_bytes-to_le_bytes 4 h.tag,
  from_le_bytes-to_le_bytes 8 h.key,
  parse-into_bytes h.properties,
)

-- The map of the three headers that every message carries.
module _ {HeaderKey HeaderValue : Type 0} (key_eq : Discrete HeaderKey) where
  abbrev base :
      HeaderKeys HeaderKey
      → HeaderValue
      → HeaderValue
      → HeaderValue
      → HeaderKey
      → Option HeaderValue
  base keys a b c =
      insert key_eq keys.props c (insert key_eq keys.key b (insert key_eq keys.tag a (λ _. none)))

  base_tag :
      (keys : HeaderKeys HeaderKey) (a b c : HeaderValue)
      → KeysDistinct keys
      → base keys a b c keys.tag ≡ some a
  base_tag keys a b c d =
      rw
        (
          insert_other key_eq keys.props _ c _ d.props_tag,
          insert_other key_eq keys.key _ b _ d.key_tag,
        )
        (insert_self key_eq keys.tag a _)

  base_key :
      (keys : HeaderKeys HeaderKey) (a b c : HeaderValue)
      → KeysDistinct keys
      → base keys a b c keys.key ≡ some b
  base_key keys a b c d =
      rw (insert_other key_eq keys.props _ c _ d.props_key) (insert_self key_eq keys.key b _)

  base_props :
      (keys : HeaderKeys HeaderKey) (a b c : HeaderValue) → base keys a b c keys.props ≡ some c
  base_props keys a b c = insert_self key_eq keys.props c _

  base_retry :
      (keys : HeaderKeys HeaderKey) (a b c : HeaderValue)
      → KeysDistinct keys
      → base keys a b c keys.retry ≡ none
  base_retry keys a b c d =
      rw
        (
          insert_other key_eq keys.props _ c _ (λ e. d.retry_props (sym e)),
          insert_other key_eq keys.key _ b _ (λ e. d.retry_key (sym e)),
        )
        (insert_other key_eq keys.tag _ a _ (λ e. d.retry_tag (sym e)))

length-into_bytes : (p : EventAlgebraicProperties) → length (into_bytes p) ≡ 3
unfolding into_bytes
length-into_bytes p = refl

module _ {IggyError HeaderKey HeaderValue : Type 0} (key_eq : Discrete HeaderKey)
    (try_from : List ℕ → Result IggyError HeaderValue) (as_bytes : HeaderValue → List ℕ)
    (api : HeaderValueApi try_from as_bytes) where
  -- An integer of `w` bytes as a header value.
  encoded :
      (w n : ℕ)
      → 1 ≤ w
      → w ≤ 255
      → (v : HeaderValue) × (try_from (to_le_bytes w n) ≡ ok v) × (as_bytes v ≡ to_le_bytes w n)
  encoded w n lo hi =
      api.accepts (to_le_bytes w n) (rw (length-to_le_bytes w n) lo)
        (rw (length-to_le_bytes w n) hi)

  encoded_retry :
      (r : RetryProperties)
      → (v : HeaderValue) × (try_from (retry_into_bytes r) ≡ ok v)
        × (as_bytes v ≡ retry_into_bytes r)
  unfolding retry_into_bytes
  encoded_retry r =
      api.accepts (retry_into_bytes r) (omega (arith, length-to_le_bytes 8 r.failed_at_ms))
        (omega (arith, length-to_le_bytes 8 r.failed_at_ms))

  -- If Iggy keeps raw values of 1 to 255 bytes and the four header keys differ, then headers whose
  -- fields fit their widths, with or without a retry header, are written without an error and read
  -- back unchanged.
  pub parse-to_map :
      (h : EventHeaders) (keys : HeaderKeys HeaderKey) (retry : Option RetryProperties)
      → KeysDistinct keys
      → h.tag < 2 ^ 32
      → h.key < 2 ^ 64
      → RetryFits retry
      → (map : HeaderKey → Option HeaderValue) × (to_map key_eq try_from h keys retry ≡ ok map)
        × (parse as_bytes {IggyError = IggyError} (ok (some map)) keys ≡ ok (h, retry))
  unfolding to_map parse insert_retry
  parse-to_map h keys none d t k f =
      let (a, ea, fa) = encoded 4 h.tag (omega arith) (omega arith) in
      let (b, eb, fb) = encoded 8 h.key (omega arith) (omega arith) in
      let (c, ec, fc) =
        api.accepts (into_bytes h.properties) (omega (arith, length-into_bytes h.properties))
          (omega (arith, length-into_bytes h.properties)) in
      (
        base key_eq keys a b c,
        rw (ea, eb, ec),
        parse_of_lookups as_bytes h keys none (base key_eq keys a b c) a b c
            (base_tag key_eq keys a b c d) (base_key key_eq keys a b c d)
            (base_props key_eq keys a b c) fa fb fc
            (rw (base_retry key_eq keys a b c d, parse_retry)) t k,
      )
  parse-to_map h keys (some r) d t k f =
      let (a, ea, fa) = encoded 4 h.tag (omega arith) (omega arith) in
      let (b, eb, fb) = encoded 8 h.key (omega arith) (omega arith) in
      let (c, ec, fc) =
        api.accepts (into_bytes h.properties) (omega (arith, length-into_bytes h.properties))
          (omega (arith, length-into_bytes h.properties)) in
      let (v, ev, fv) = encoded_retry r in
      (
        insert key_eq keys.retry v (base key_eq keys a b c),
        rw (ea, eb, ec, ev),
        parse_of_lookups as_bytes h keys (some r)
            (insert key_eq keys.retry v (base key_eq keys a b c)) a b c
            (rw (insert_other key_eq keys.retry _ v _ d.retry_tag) (base_tag key_eq keys a b c d))
            (rw (insert_other key_eq keys.retry _ v _ d.retry_key) (base_key key_eq keys a b c d))
            (rw (insert_other key_eq keys.retry _ v _ d.retry_props) (base_props key_eq keys a b c))
            fa fb fc
            (rw (
              insert_self key_eq keys.retry v (base key_eq keys a b c),
              parse_retry,
              fv,
              retry_parse-into_bytes r f,
            ))
            t k,
      )
