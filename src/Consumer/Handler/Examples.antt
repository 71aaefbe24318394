-- ===== src/Consumer/Handler/Examples.antt =====
-- A run of five events in chunks of two: an event is a byte, and a handler that gives up on its second
-- call, or that is out of order for a while.
use native.Mathlib.Nat.{le_refl}
use wakuwaku.Base.{
  ℕ, zero, suc, ◌≤◌, ◌<◌, ◌≡◌, refl, List, [], ◌∷◌, Option, none, some, length, arith, u64_max,
  ◌==◌, if◌then◌else◌,
}
use wakuwaku.Events.{non_associative}
use wakuwaku.Partition.Algebra.{Algebra, associativity, reduce}
use wakuwaku.Consumer.Backoff.{Duration}
use wakuwaku.Consumer.Handler.{
  transient, retryable, HandleError, RunRecord, RunResult, failed, done, decode, encode,
  handle_events,
}
use wakuwaku.Consumer.Handler.Chunks.{chunks, flatten, AllWithin, process, handle_events-process}
use wakuwaku.Consumer.Handler.Termination.{handle_events_returns}

abbrev from_bytes : List ℕ → Option ℕ
from_bytes [] = none
from_bytes (b ∷ []) = some b
from_bytes (b ∷ c ∷ bytes) = none

abbrev to_bytes : ℕ → Option (List ℕ)
to_bytes b = some (b ∷ [])

abbrev record_of : List ℕ → RunRecord
record_of payload = record { payload = payload; associativity = non_associative }

abbrev algebra : Algebra ℕ
algebra = Algebra.non_associative

abbrev five : List RunRecord
five =
    record_of (1 ∷ [])
    ∷ record_of (2 ∷ [])
    ∷ record_of []
    ∷ record_of (3 ∷ [])
    ∷ record_of (4 ∷ [])
    ∷ record_of (5 ∷ [])
    ∷ []

-- The world counts the calls; the second is refused.
abbrev refuse_second : ℕ → List ℕ → ℕ × Option (HandleError ℕ)
refuse_second w c =
    if w == 1 then (2, some (record { class = retryable; source = 9 })) else (suc w, none)

abbrev no_sleep : ℕ → Duration → ℕ
no_sleep w d = w

handle_events-refused :
    handle_events refuse_second no_sleep [] to_bytes 2 1 from_bytes algebra five 0
    ≡ some (2, failed 9 ((3 ∷ []) ∷ (4 ∷ []) ∷ (5 ∷ []) ∷ []))
unfolding handle_events decode reduce associativity encode
handle_events-refused = refl

five_short : length (decode from_bytes algebra five) ≤ u64_max
unfolding decode reduce associativity
five_short = omega arith

handle_events-process_example :
    let events = decode from_bytes algebra five in
    let pieces = chunks (length events) 2 events in
    (handle_events refuse_second no_sleep [] to_bytes 2 1 from_bytes algebra five 0
      ≡ process refuse_second no_sleep [] to_bytes 1 pieces 0)
    × (flatten pieces ≡ events)
    × AllWithin 2 pieces
handle_events-process_example =
    handle_events-process refuse_second no_sleep [] to_bytes 1 2 from_bytes algebra five 0
      (omega arith) five_short

-- The world counts the calls that still fail.
abbrev outage : ℕ → List ℕ → ℕ × Option (HandleError ℕ)
outage zero c = (0, none)
outage (suc w) c = (w, some (record { class = transient; source = 0 }))

outage_le : (w : ℕ) (c : List ℕ) → (outage w c).0 ≤ w
outage_le zero c = omega arith
outage_le (suc w) c = omega arith

outage_lt :
    (w : ℕ) (c : List ℕ) (error : HandleError ℕ)
    → (outage w c).1 ≡ some error
    → error.class ≡ transient
    → (outage w c).0 < w
outage_lt zero c error e t = absurd (cc e)
outage_lt (suc w) c error e t = omega arith

handle_events-outage :
    handle_events outage no_sleep [] to_bytes 2 4 from_bytes algebra five 3 ≡ some (0, done)
unfolding handle_events decode reduce associativity encode
handle_events-outage = refl

handle_events_returns_example :
    (res : ℕ × RunResult ℕ) × (handle_events outage no_sleep [] to_bytes 2 4 from_bytes algebra five
        3
      ≡ some res)
handle_events_returns_example =
    handle_events_returns outage no_sleep [] (λ w. w) outage_le outage_lt (λ w d. le_refl w)
      to_bytes 2 4 from_bytes algebra five 3 (omega arith) five_short (omega arith)
