-- ===== src/Events/Headers/Examples.antt =====
-- Headers at concrete values, after the tests of wakuwaku-iggy/src/events/headers.rs.
use wakuwaku.Base.{ℕ, ◌≡◌, refl, List, [], ◌∷◌, Option, some, Result, ok, arith, ℕ_discrete}
use wakuwaku.Events
use wakuwaku.Events.RoundTrip.{parse-into_bytes, into_bytes-parse}
use wakuwaku.Events.{release, idempotent, EventAlgebraicProperties, into_bytes}
use wakuwaku.Events.Headers.{EventHeaders, HeaderKeys, to_map, parse}
use wakuwaku.Events.Headers.RoundTrip.{HeaderValueApi, KeysDistinct, parse-to_map}

-- A stand-in for Iggy's header values: the raw bytes.
abbrev raw : List ℕ → Result ℕ (List ℕ)
raw bytes = ok bytes

abbrev bytes_of : List ℕ → List ℕ
bytes_of bytes = bytes

raw-HeaderValueApi : HeaderValueApi raw bytes_of
raw-HeaderValueApi = record { accepts = λ bytes lo hi. (bytes, refl, refl) }

-- Four keys by number.
abbrev keys : HeaderKeys ℕ
keys = record { tag = 0; key = 1; props = 2; retry = 3 }

keys-KeysDistinct : KeysDistinct keys
keys-KeysDistinct = omega arith

abbrev sample : EventHeaders
sample = record {
  tag = 7;
  key = 18446744073709551612;
  properties = record { atomic_level = release; associativity = idempotent };
}

parse-to_map_example :
    (map : ℕ → Option (List ℕ)) × (to_map ℕ_discrete raw sample keys
        (some (record { failed_at_ms = 42 }))
      ≡ ok map)
    × (parse bytes_of {IggyError = ℕ} (ok (some map)) keys
        ≡ ok (sample, some (record { failed_at_ms = 42 })))
parse-to_map_example =
    parse-to_map ℕ_discrete raw bytes_of raw-HeaderValueApi sample keys
      (some (record { failed_at_ms = 42 })) keys-KeysDistinct (omega arith) (omega arith)
      (omega arith)

into_bytes-parse_example :
    1 ∷ 4 ∷ 2 ∷ [] ≡ into_bytes (record { atomic_level = release; associativity = idempotent })
unfolding Events.parse
into_bytes-parse_example =
    into_bytes-parse (1 ∷ 4 ∷ 2 ∷ [])
      (record { atomic_level = release; associativity = idempotent }) refl

parse-into_bytes_example :
    Events.parse (into_bytes (record { atomic_level = release; associativity = idempotent }))
    ≡ ok (record { atomic_level = release; associativity = idempotent })
parse-into_bytes_example =
    parse-into_bytes (record { atomic_level = release; associativity = idempotent })
