-- ===== src/Consumer/Retry/Examples.antt =====
-- The retry schedule on small inputs, after the tests of wakuwaku-iggy/src/consumer/retry.rs.
use wakuwaku.Base.{ℕ, ◌<◌, ◌≡◌, refl, ◌⊎◌, true, false, List, [], ◌∷◌, some, map, arith}
use wakuwaku.Events.{relaxed, non_associative}
use wakuwaku.Consumer.Backoff.{Duration, delay_for}
use wakuwaku.Consumer.Record.{ParsedRecord}
use wakuwaku.Consumer.Retry.{
  PendingRecord, KeyRetry, RetryState, drained, scheduled, gave_up, is_empty, new, enqueue, finish,
  is_quarantined, records, committable, next_due,
}
use wakuwaku.Consumer.Retry.Map.{get, AllValues}
use wakuwaku.Consumer.Retry.Invariant.{IsValid, new-IsValid}
use wakuwaku.Consumer.Retry.Preserves.{enqueue-IsValid, finish-IsValid}
use wakuwaku.Consumer.Retry.Commit.{AllFrom, OccursIn, committable_lem}
use wakuwaku.Consumer.Retry.Outcome.{quarantined_iff, finish-records, GoneAfter}
use wakuwaku.Consumer.Retry.Left.{Changed}
use wakuwaku.Consumer.Retry.Bounded.{Attempt, outcomes, AllScheduled, scheduled_bounded}

abbrev pending : ℕ → ℕ → PendingRecord
pending key offset = record {
  record_ = record {
    offset = offset;
    headers = record {
      tag = 1;
      key = key;
      properties = record { atomic_level = relaxed; associativity = non_associative };
    };
    payload = [];
  };
  failed_at_ms = 1000000;
}

-- 2, 4, 8 and 16 seconds.
abbrev default_delays : List Duration
default_delays = 2000000000 ∷ 4000000000 ∷ 8000000000 ∷ 16000000000 ∷ []

abbrev latest : ℕ
latest = 9223372036854775807

abbrev one : RetryState
one = enqueue latest (new default_delays) (pending 7 1) 0 1000000

abbrev two : RetryState
two = enqueue latest one (pending 7 2) 0 1000000

two_offsets : map (λ (r : ParsedRecord). r.offset) (records two 7) ≡ 1 ∷ 2 ∷ []
unfolding records enqueue new
two_offsets = refl

two_due : next_due two ≡ some 2000000000
unfolding next_due enqueue new delay_for
two_due = refl

first_failure : (finish latest two 7 [] (1 ∷ []) 0).1 ≡ scheduled 1 4000000000
unfolding finish enqueue new
first_failure = refl

drained_after_both : (finish latest two 7 (1 ∷ 2 ∷ []) [] 0).1 ≡ drained
unfolding finish enqueue new
drained_after_both = refl

two-committable : committable two 20 ≡ some 0
unfolding committable enqueue new
two-committable = refl

one-IsValid : IsValid one
unfolding new
one-IsValid =
    enqueue-IsValid latest (new default_delays) (pending 7 1) 0 1000000 (new-IsValid default_delays)
      (omega arith) (λ r e. cc)

enqueue-IsValid_example : IsValid two
unfolding enqueue new
enqueue-IsValid_example =
    enqueue-IsValid latest one (pending 7 2) 0 1000000 one-IsValid (omega arith)
      (λ r e. ground arith)

finish-IsValid_example : IsValid (finish latest two 7 (1 ∷ []) (2 ∷ []) 5).0
finish-IsValid_example = finish-IsValid latest two 7 (1 ∷ []) (2 ∷ []) 5 enqueue-IsValid_example

committable_lem_example :
    AllValues (λ r. AllFrom 1 r.records) two.keys
    × (OccursIn 1 two.keys ⊎ ((two.keys ≡ []) × (◌≡◌ {A = ℕ} 20 1)))
committable_lem_example = committable_lem two 20 0 enqueue-IsValid_example two-committable

quarantined_iff_example :
    (is_quarantined two 7 ≡ true → is_empty (records two 7) ≡ false)
    × (is_quarantined two 7 ≡ false → records two 7 ≡ [])
quarantined_iff_example = quarantined_iff two 7 enqueue-IsValid_example

abbrev retry_of_7 : KeyRetry
retry_of_7 = record { records = pending 7 1 ∷ pending 7 2 ∷ []; attempt = 0; due_at = 2000000000 }

two_get : get 7 two.keys ≡ some retry_of_7
unfolding enqueue new delay_for
two_get = refl

finish-records_example :
    Changed 7 7
      (GoneAfter latest two retry_of_7 (1 ∷ []) (2 ∷ []))
      (records two 7)
      (records (finish latest two 7 (1 ∷ []) (2 ∷ []) 5).0 7)
finish-records_example =
    finish-records latest two 7 7 retry_of_7 (1 ∷ []) (2 ∷ []) 5 enqueue-IsValid_example two_get

abbrev failure : ℕ → Attempt
failure now = record { resolved = []; failed = 1 ∷ []; now = now }

three_scheduled : AllScheduled (outcomes latest two 7 (failure 1 ∷ failure 2 ∷ failure 3 ∷ []))
unfolding outcomes finish enqueue new
three_scheduled = (refl, (refl, (refl, tt)))

scheduled_bounded_example : 3 < 4
unfolding enqueue new
scheduled_bounded_example =
    scheduled_bounded latest two 7 retry_of_7 (failure 1) (failure 2 ∷ failure 3 ∷ [])
      enqueue-IsValid_example (omega arith) two_get (refl, (refl, (refl, tt))) three_scheduled

fourth_gives_up :
    outcomes latest two 7 (failure 1 ∷ failure 2 ∷ failure 3 ∷ failure 4 ∷ [])
    ≡ scheduled 1 4000000000 ∷ scheduled 2 8000000000 ∷ scheduled 3 16000000000 ∷ gave_up 1 ∷ []
unfolding outcomes finish enqueue new
fourth_gives_up = refl
