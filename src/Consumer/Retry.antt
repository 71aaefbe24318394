-- ===== src/Consumer/Retry.antt =====
-- wakuwaku-iggy/src/consumer/retry.rs: the schedule of the records read from one retry partition.
-- The hash map of keys is an association list in some order; an instant and a duration are numbers
-- of nanoseconds, and `latest` is the last instant that the platform's clock can name.
pub mod Map
pub mod Invariant
pub mod Preserves
pub mod Commit
pub mod Left
pub mod Outcome
pub mod Bounded
mod Examples
use wakuwaku.Base.{
  ℕ, zero, suc, ◌+◌, ◌-◌, ◌*◌, ◌==◌, leb, min, Bool, true, false, not, List, [], ◌∷◌, ◌++◌, Option,
  none, some, map, get_elem?, length, if◌then◌else◌, saturating_add, saturating_sub, checked_sub,
}
use wakuwaku.Consumer.Backoff.{Duration, delay_for}
use wakuwaku.Consumer.Record.{ParsedRecord}
use Map.{get, insert, remove, values}

pub record PendingRecord : Type 0 where
  pub record_ : ParsedRecord
  pub failed_at_ms : ℕ

pub record KeyRetry : Type 0 where
  pub records : List PendingRecord
  pub attempt : ℕ
  pub due_at : ℕ

pub record RetryState : Type 0 where
  pub keys : List (ℕ × KeyRetry)
  pub pending : ℕ
  pub delays : List Duration

pub data Finish : Type 0 where
  drained : Finish
  scheduled : ℕ → Duration → Finish
  gave_up : ℕ → Finish

abbrev pub is_empty {ℓ} : {A : Type ℓ} → List A → Bool
is_empty [] = true
is_empty (x ∷ xs) = false

unfoldable pub new : List Duration → RetryState
new delays = record { keys = []; pending = 0; delays = delays }

-- `offsets.contains(&n)`
unfoldable pub contains : List ℕ → ℕ → Bool
contains [] n = false
contains (o ∷ offsets) n = if o == n then true else contains offsets n

-- `records.retain(|pending| !offsets.contains(&pending.record.offset))`
pub retain : List ℕ → List PendingRecord → List PendingRecord
unfolding contains
retain offsets [] = []
retain offsets (p ∷ records) =
    let rest = retain offsets records in
    if contains offsets p.record_.offset then rest else p ∷ rest

-- `remove_offsets`: the records left, and how many were removed.
pub remove_offsets : List PendingRecord → List ℕ → List PendingRecord × ℕ
unfolding retain
remove_offsets records offsets =
    if is_empty offsets
    then (records, 0)
    else (retain offsets records, saturating_sub (length records) (length (retain offsets records)))

unfoldable pub is_quarantined : RetryState → ℕ → Bool
is_quarantined st key = elim (get key st.keys) [ none ↦ false | some r ↦ true ]

unfoldable pub pending_len : RetryState → ℕ
pending_len st = st.pending

-- Keys whose next attempt is due.
due_in : ℕ → List (ℕ × KeyRetry) → List ℕ
due_in now [] = []
due_in now ((k, r) ∷ m) = let rest = due_in now m in if leb r.due_at now then k ∷ rest else rest

unfoldable pub due_keys : RetryState → ℕ → List ℕ
unfolding due_in
due_keys st now = due_in now st.keys

-- `iter.min()`
pub minimum : List ℕ → Option ℕ
minimum [] = none
minimum (a ∷ l) = elim (minimum l) [ none ↦ some a | some b ↦ some (min a b) ]

unfoldable pub next_due : RetryState → Option ℕ
unfolding minimum
next_due st = minimum (map (λ (r : KeyRetry). r.due_at) (values st.keys))

abbrev pub pending_of : Option KeyRetry → List PendingRecord
pending_of none = []
pending_of (some r) = r.records

unfoldable pub records : RetryState → ℕ → List ParsedRecord
records st key = map (λ (p : PendingRecord). p.record_) (pending_of (get key st.keys))

-- The offsets of the first pending record of each key.
pub fronts : List (ℕ × KeyRetry) → List ℕ
fronts [] = []
fronts ((k, r) ∷ m) = elim r.records [ [] ↦ fronts m | p ∷ ps ↦ p.record_.offset ∷ fronts m ]

abbrev pub unwrap_or : Option ℕ → ℕ → ℕ
unwrap_or none n = n
unwrap_or (some m) n = m

unfoldable pub committable : RetryState → ℕ → Option ℕ
unfolding fronts minimum
committable st next_read = checked_sub (unwrap_or (minimum (fronts st.keys)) next_read) 1

module _ (latest : ℕ) where
  -- `now.checked_add(delay).unwrap_or(now)`
  unfoldable pub later : ℕ → Duration → ℕ
  later now delay = if leb (now + delay) latest then now + delay else now

  fresh : List Duration → PendingRecord → ℕ → ℕ → KeyRetry
  unfolding later
  fresh delays p now now_ms =
      let elapsed = 1000000 * saturating_sub now_ms p.failed_at_ms in
      record {
        records = [];
        attempt = 0;
        due_at = later now (saturating_sub (delay_for delays 0) elapsed);
      }

  abbrev entry : KeyRetry → Option KeyRetry → KeyRetry
  entry default none = default
  entry default (some r) = r

  unfoldable pub enqueue : RetryState → PendingRecord → ℕ → ℕ → RetryState
  unfolding fresh
  enqueue st p now now_ms =
      let key = p.record_.headers.key in
      let r = entry (fresh st.delays p now now_ms) (get key st.keys) in
      record st {
        keys = insert key (record r { records = r.records ++ p ∷ [] }) st.keys;
        pending = saturating_add st.pending 1;
      }

  -- The key after an attempt, the count of pending records and the outcome.
  pub settle : List Duration → KeyRetry → ℕ → List ℕ → ℕ → Option Duration → KeyRetry × ℕ × Finish
  unfolding later remove_offsets
  settle delays r pending failed now (some delay) = (
    record r { attempt = saturating_add r.attempt 1; due_at = later now delay },
    pending,
    scheduled (saturating_add r.attempt 1) delay,
  )
  settle delays r pending failed now none =
      let (rest, dropped) = remove_offsets r.records failed in
      (
        record { records = rest; attempt = 0; due_at = now },
        saturating_sub pending dropped,
        gave_up dropped,
      )

  pub attempted : List Duration → KeyRetry → ℕ → List ℕ → ℕ → KeyRetry × ℕ × Finish
  unfolding settle
  attempted delays r pending failed now =
      if is_empty failed
      then (record r { due_at = now }, pending, scheduled r.attempt 0)
      else settle delays r pending failed now (get_elem? delays (saturating_add r.attempt 1))

  -- The key is kept or, without records, removed.
  pub put_back : RetryState → ℕ → List ℕ → KeyRetry × ℕ × Finish → RetryState × Finish
  put_back st key failed (r, pending, finish) =
      if is_empty r.records
      then (
        record st { keys = remove key st.keys; pending = pending },
        (if is_empty failed then drained else finish),
      )
      else (record st { keys = insert key r st.keys; pending = pending }, finish)

  pub finish_known : RetryState → ℕ → KeyRetry → List ℕ → List ℕ → ℕ → RetryState × Finish
  unfolding remove_offsets attempted put_back
  finish_known st key r resolved failed now =
      let (rest, removed) = remove_offsets r.records resolved in
      put_back st key failed (
        attempted st.delays (record r { records = rest }) (saturating_sub st.pending removed) failed
          now)

  abbrev finish_at : RetryState → ℕ → Option KeyRetry → List ℕ → List ℕ → ℕ → RetryState × Finish
  unfolding finish_known
  finish_at st key none resolved failed now = (st, drained)
  finish_at st key (some r) resolved failed now = finish_known st key r resolved failed now

  unfoldable pub finish : RetryState → ℕ → List ℕ → List ℕ → ℕ → RetryState × Finish
  unfolding finish_known
  finish st key resolved failed now = finish_at st key (get key st.keys) resolved failed now
