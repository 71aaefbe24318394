-- ===== src/Consumer/Retry/Invariant.antt =====
-- Every operation of `RetryState` (wakuwaku-iggy/src/consumer/retry.rs) keeps it well formed.
use wakuwaku.Base.{
  ℕ, ◌+◌, ◌≤◌, ◌<◌, false, ◌≡◌, refl, sym, ap, inl, inr, List, [], ◌∷◌, ◌++◌, length, arith,
  Bool-cases,
}
use wakuwaku.Consumer.Backoff.{Duration}
use wakuwaku.Consumer.Retry.{
  PendingRecord, KeyRetry, RetryState, is_empty, new, contains, retain, remove_offsets,
}
use wakuwaku.Consumer.Retry.Map.{Distinct, AllValues, total}

-- The offsets after `o`, in rising order.
abbrev pub Above : ℕ → List PendingRecord → Type 0
Above o [] = Unit {0}
Above o (p ∷ ps) = (o < p.record_.offset) × Above o ps

abbrev pub Rising : List PendingRecord → Type 0
Rising [] = Unit {0}
Rising (p ∷ ps) = Above p.record_.offset ps × Rising ps

-- A key in the map has a record, and its records are in offset order.
pub record KeyIsValid (r : KeyRetry) : Type 0 where
  pub occupied : is_empty r.records ≡ false
  pub rising : Rising r.records

abbrev pub size : KeyRetry → ℕ
size r = length r.records

pub record IsValid (st : RetryState) : Type 0 where
  pub distinct : Distinct st.keys
  pub keys_valid : AllValues KeyIsValid st.keys
  pub counted : st.pending ≡ total size st.keys

retain-Above :
    (offsets : List ℕ) (o : ℕ) (ps : List PendingRecord) → Above o ps → Above o (retain offsets ps)
unfolding retain
retain-Above offsets o [] a = tt
retain-Above offsets o (p ∷ ps) (h, a) = elim (Bool-cases (contains offsets p.record_.offset)) [
  | inl e ↦ rw e (retain-Above offsets o ps a)
  | inr e ↦ rw e (h, retain-Above offsets o ps a)
]

retain-Rising :
    (offsets : List ℕ) (ps : List PendingRecord) → Rising ps → Rising (retain offsets ps)
unfolding retain
retain-Rising offsets [] r = tt
retain-Rising offsets (p ∷ ps) (a, r) = elim (Bool-cases (contains offsets p.record_.offset)) [
  | inl e ↦ rw e (retain-Rising offsets ps r)
  | inr e ↦ rw e (retain-Above offsets p.record_.offset ps a, retain-Rising offsets ps r)
]

retain-length :
    (offsets : List ℕ) (ps : List PendingRecord) → length (retain offsets ps) ≤ length ps
unfolding retain
retain-length offsets [] = omega arith
retain-length offsets (p ∷ ps) = ground (arith, retain-length offsets ps)

retain-nil : (ps : List PendingRecord) → retain [] ps ≡ ps
unfolding retain contains
retain-nil [] = refl
retain-nil (p ∷ ps) = ap (◌∷◌ p) (retain-nil ps)

-- `remove_offsets` keeps the other records and counts the removed ones.
pub remove_offsets_lem :
    (ps : List PendingRecord) (offsets : List ℕ)
    → ((remove_offsets ps offsets).0 ≡ retain offsets ps)
      × ((remove_offsets ps offsets).1 + length (retain offsets ps) ≡ length ps)
unfolding remove_offsets
remove_offsets_lem ps [] = (sym (retain-nil ps), ground (arith, retain-nil ps))
remove_offsets_lem ps (o ∷ os) = (refl, omega (arith, retain-length (o ∷ os) ps))

pub remove_offsets-Rising :
    (ps : List PendingRecord) (offsets : List ℕ) → Rising ps → Rising (remove_offsets ps offsets).0
remove_offsets-Rising ps offsets r =
    rw ((remove_offsets_lem ps offsets).0) (retain-Rising offsets ps r)

pub new-IsValid : (delays : List Duration) → IsValid (new delays)
unfolding new
new-IsValid delays = record { distinct = tt; keys_valid = tt; counted = refl }

-- The new record comes after all that its key has.
abbrev pub Below : ℕ → List PendingRecord → Type 0
Below o [] = Unit {0}
Below o (p ∷ ps) = (p.record_.offset < o) × Below o ps

Above-append :
    (o : ℕ) (ps : List PendingRecord) (q : PendingRecord)
    → Above o ps
    → o < q.record_.offset
    → Above o (ps ++ q ∷ [])
Above-append o [] q a h = (h, tt)
Above-append o (p ∷ ps) q (g, a) h = (g, Above-append o ps q a h)

pub Rising-append :
    (ps : List PendingRecord) (q : PendingRecord)
    → Rising ps
    → Below q.record_.offset ps
    → Rising (ps ++ q ∷ [])
Rising-append [] q r b = (tt, tt)
Rising-append (p ∷ ps) q (a, r) (h, b) =
    (Above-append p.record_.offset ps q a h, Rising-append ps q r b)

pub append_occupied :
    (ps : List PendingRecord) (q : PendingRecord) → is_empty (ps ++ q ∷ []) ≡ false
append_occupied [] q = refl
append_occupied (p ∷ ps) q = refl
