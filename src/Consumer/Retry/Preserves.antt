-- ===== src/Consumer/Retry/Preserves.antt =====
-- `enqueue` and `finish` (wakuwaku-iggy/src/consumer/retry.rs) keep the schedule well formed.
use wakuwaku.Base.{
  ℕ, ◌+◌, ◌≤◌, ◌<◌, true, ◌≡◌, refl, ap, inl, inr, List, [], ◌∷◌, some, get_elem?, length,
  length-append, u64_max, saturating_add, saturating_sub, arith, Bool-cases, Option-cases,
}
use wakuwaku.Consumer.Backoff.{Duration}
use wakuwaku.Consumer.Retry.{
  PendingRecord, KeyRetry, RetryState, Finish, is_empty, retain, remove_offsets, enqueue, settle,
  attempted, put_back, finish_known, finish,
}
use wakuwaku.Consumer.Retry.Map.{
  get, insert, remove, Distinct-insert, Distinct-remove, AllValues-insert, AllValues-remove,
  AllValues-get, total-insert, total-remove, weight,
}
use wakuwaku.Consumer.Retry.Invariant.{
  Rising, Below, KeyIsValid, IsValid, size, remove_offsets_lem, remove_offsets-Rising,
  Rising-append, append_occupied,
}

empty_length : (ps : List PendingRecord) → is_empty ps ≡ true → length ps ≡ 0
empty_length [] e = refl
empty_length (p ∷ ps) e = cc

insert-IsValid :
    (st : RetryState) (key pending : ℕ) (r : KeyRetry)
    → IsValid st
    → KeyIsValid r
    → pending + weight size (get key st.keys) ≡ st.pending + size r
    → IsValid (record st { keys = insert key r st.keys; pending = pending })
insert-IsValid st key pending r v k c = record {
  distinct = Distinct-insert key r st.keys v.distinct;
  keys_valid = AllValues-insert KeyIsValid key r st.keys k v.keys_valid;
  counted = omega (arith, c, v.counted, total-insert size key r st.keys);
}

remove-IsValid :
    (st : RetryState) (key pending : ℕ)
    → IsValid st
    → pending + weight size (get key st.keys) ≡ st.pending
    → IsValid (record st { keys = remove key st.keys; pending = pending })
remove-IsValid st key pending v c = record {
  distinct = Distinct-remove key st.keys v.distinct;
  keys_valid = AllValues-remove KeyIsValid key st.keys v.keys_valid;
  counted = omega (arith, c, v.counted, total-remove size key st.keys);
}

-- A key's records are among the pending ones.
size-le :
    (st : RetryState) (key : ℕ) (r : KeyRetry)
    → IsValid st
    → get key st.keys ≡ some r
    → size r ≤ st.pending
size-le st key r v e = omega (arith, v.counted, total-remove size key st.keys, ap (weight size) e)

module _ (latest : ℕ) where
  -- What an attempt leaves of the key's records is counted.
  attempted_counts :
      (delays : List Duration) (r : KeyRetry) (pending : ℕ) (failed : List ℕ) (now : ℕ)
      → size r ≤ pending
      → let (r', pending', finish) = attempted latest delays r pending failed now in
        pending' + size r ≡ pending + size r'
  unfolding attempted settle
  attempted_counts delays r pending failed now h = ground (
    arith,
    remove_offsets_lem r.records failed,
    ap (λ (l : List PendingRecord). length l) (remove_offsets_lem r.records failed).0,
  )

  attempted-Rising :
      (delays : List Duration) (r : KeyRetry) (pending : ℕ) (failed : List ℕ) (now : ℕ)
      → Rising r.records
      → Rising (attempted latest delays r pending failed now).0.records
  unfolding attempted settle
  attempted-Rising delays r pending [] now h = h
  attempted-Rising delays r pending (o ∷ os) now h =
      elim (Option-cases (get_elem? delays (saturating_add r.attempt 1))) [
        | inl e ↦ rw e (remove_offsets-Rising r.records (o ∷ os) h)
        | inr (d, e) ↦ rw e h
      ]

  put_back-IsValid :
      (st : RetryState) (key : ℕ) (failed : List ℕ) (old : KeyRetry) (new : KeyRetry × ℕ × Finish)
      → IsValid st
      → get key st.keys ≡ some old
      → Rising new.0.records
      → new.1 + size old ≡ st.pending + size new.0
      → IsValid (put_back latest st key failed new).0
  unfolding put_back
  put_back-IsValid st key failed old (r, pending, f) v e h c =
      elim (Bool-cases (is_empty r.records)) [
        | inl empty ↦ rw empty (
            remove-IsValid st key pending v
              (omega (arith, c, ap (weight size) e, empty_length r.records empty)))
        | inr full ↦ rw full (
            insert-IsValid st key pending r v (record { occupied = full; rising = h })
              (omega (arith, c, ap (weight size) e)))
      ]

  -- `enqueue` keeps a schedule well formed: no key twice, a record for each key, offsets in order and
  -- an exact count. The new offset must lie above those of its key, and the count below 2^64 - 1.
  pub enqueue-IsValid :
      (st : RetryState) (p : PendingRecord) (now now_ms : ℕ)
      → IsValid st
      → st.pending < u64_max
      → ((r : KeyRetry)
          → get p.record_.headers.key st.keys ≡ some r
          → Below p.record_.offset r.records)
      → IsValid (enqueue latest st p now now_ms)
  unfolding enqueue
  enqueue-IsValid st p now now_ms v room below =
      elim (Option-cases (get p.record_.headers.key st.keys)) [
        | inl e ↦ rw e (
            insert-IsValid st p.record_.headers.key (saturating_add st.pending 1) _ v
              (record { occupied = refl; rising = (tt, tt) }) (ground (arith, ap (weight size) e)))
        | inr (r, e) ↦ rw e (
            insert-IsValid st p.record_.headers.key (saturating_add st.pending 1) _ v
              (record {
                occupied = append_occupied r.records p;
                rising =
                    Rising-append r.records p
                      (AllValues-get KeyIsValid _ st.keys r v.keys_valid e).rising (below r e);
              })
              (ground (arith, ap (weight size) e, length-append r.records (p ∷ []))))
      ]

  -- What `finish` makes of a key that it finds.
  finish_known-IsValid :
      (st : RetryState) (key : ℕ) (r : KeyRetry) (resolved failed : List ℕ) (now : ℕ)
      → IsValid st
      → get key st.keys ≡ some r
      → IsValid (finish_known latest st key r resolved failed now).0
  unfolding finish_known
  finish_known-IsValid st key r resolved failed now v e =
      let (rest_is, counts) = remove_offsets_lem r.records resolved in
      let rest : KeyRetry = record r { records = (remove_offsets r.records resolved).0 } in
      let count = saturating_sub st.pending (remove_offsets r.records resolved).1 in
      let lengths : length (remove_offsets r.records resolved).0
          ≡ length (retain resolved r.records) =
        ap (λ (l : List PendingRecord). length l) rest_is in
      put_back-IsValid st key failed r (attempted latest st.delays rest count failed now) v e
        (attempted-Rising st.delays rest count failed now (
          remove_offsets-Rising r.records resolved
            (AllValues-get KeyIsValid key st.keys r v.keys_valid e).rising))
        (omega (
          arith,
          size-le st key r v e,
          counts,
          lengths,
          attempted_counts st.delays rest count failed now
              (omega (arith, size-le st key r v e, counts, lengths)),
        ))

  -- `finish` keeps a schedule well formed, on every branch: an unknown key, a completed attempt, a
  -- scheduled one and one that gives up.
  pub finish-IsValid :
      (st : RetryState) (key : ℕ) (resolved failed : List ℕ) (now : ℕ)
      → IsValid st
      → IsValid (finish latest st key resolved failed now).0
  unfolding finish
  finish-IsValid st key resolved failed now v = elim (Option-cases (get key st.keys)) [
    | inl e ↦ rw e v
    | inr (r, e) ↦ rw e (finish_known-IsValid st key r resolved failed now v e)
  ]
