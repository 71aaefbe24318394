-- ===== src/Consumer/Retry/Bounded.antt =====
-- A key is retried a bounded number of times (`finish` of wakuwaku-iggy/src/consumer/retry.rs).
use wakuwaku.Base.{
  ℕ, suc, ◌+◌, ◌≤◌, ◌<◌, Bool, true, false, ◌≡◌, refl, sym, ap, ◌∙◌, ◌⊎◌, inl, inr, List, [], ◌∷◌,
  none, some, get_elem?, length, get_elem?-lt, u64_max, saturating_add, saturating_sub, arith,
  Bool-cases, Option-cases, ==_refl,
}
use wakuwaku.Consumer.Backoff.{Duration}
use wakuwaku.Consumer.Retry.{
  KeyRetry, RetryState, Finish, scheduled, is_empty, remove_offsets, settle, attempted, put_back,
  finish_known, finish,
}
use wakuwaku.Consumer.Retry.Map.{get, get-insert, get-remove_self, Distinct}
use wakuwaku.Consumer.Retry.Invariant.{IsValid}
use wakuwaku.Consumer.Retry.Preserves.{finish-IsValid}

-- One attempt on a key: the offsets of the completed and of the failed runs, and the time.
pub record Attempt : Type 0 where
  pub resolved : List ℕ
  pub failed : List ℕ
  pub now : ℕ

abbrev pub is_scheduled : Finish → Bool
is_scheduled (scheduled a d) = true
is_scheduled _ = false

-- Every attempt fails, and every outcome is another attempt.
abbrev pub AllFail : List Attempt → Type 0
AllFail [] = Unit {0}
AllFail (a ∷ more) = (is_empty a.failed ≡ false) × AllFail more

abbrev pub AllScheduled : List Finish → Type 0
AllScheduled [] = Unit {0}
AllScheduled (f ∷ fs) = (is_scheduled f ≡ true) × AllScheduled fs

module _ (latest : ℕ) where
  -- The outcomes of attempts made one after another on a key.
  unfoldable pub outcomes : RetryState → ℕ → List Attempt → List Finish
  outcomes st key [] = []
  outcomes st key (a ∷ more) =
      let (st', f) = finish latest st key a.resolved a.failed a.now in f ∷ outcomes st' key more

  attempted_scheduled :
      (delays : List Duration) (r : KeyRetry) (pending : ℕ) (failed : List ℕ) (now : ℕ)
      → length delays ≤ u64_max
      → is_empty failed ≡ false
      → is_scheduled (attempted latest delays r pending failed now).2 ≡ true
      → ((attempted latest delays r pending failed now).0.attempt ≡ suc r.attempt)
        × (suc r.attempt < length delays)
  unfolding attempted settle
  attempted_scheduled delays r pending failed now h e s =
      elim (Option-cases (get_elem? delays (saturating_add r.attempt 1))) [
        | inl n ↦ absurd (ground arith)
        | inr (d, g) ↦
            let low : saturating_add r.attempt 1 < length delays = get_elem?-lt delays _ d g in
            (ground arith, ground arith)
      ]

  put_back_kept :
      (st : RetryState) (key : ℕ) (failed : List ℕ) (new : KeyRetry × ℕ × Finish)
      → Distinct st.keys
      → is_empty failed ≡ false
      → ((put_back latest st key failed new).1 ≡ new.2)
        × ((put_back latest st key failed new).0.delays ≡ st.delays)
        × ((get key (put_back latest st key failed new).0.keys ≡ none)
            ⊎ (get key (put_back latest st key failed new).0.keys ≡ some new.0))
  unfolding put_back
  put_back_kept st key failed (r, pending, f) d e = elim (Bool-cases (is_empty r.records)) [
    | inl h ↦ rw (h, e) (refl, refl, inl (get-remove_self key st.keys d))
    | inr h ↦ rw h (refl, refl, inr (get-insert key key r st.keys ∙ rw (==_refl key)))
  ]

  -- A key that is scheduled again has used one more delay, or is gone.
  pub record Again (st : RetryState) (key : ℕ) (r : KeyRetry) (st' : RetryState) : Type 0 where
    pub delays_are : st'.delays ≡ st.delays
    pub room : suc r.attempt < length st.delays
    pub key_is :
        (get key st'.keys ≡ none)
        ⊎ ((r' : KeyRetry) × (get key st'.keys ≡ some r') × (r'.attempt ≡ suc r.attempt))

  finish_known-Again :
      (st : RetryState) (key : ℕ) (r : KeyRetry) (resolved failed : List ℕ) (now : ℕ)
      → Distinct st.keys
      → length st.delays ≤ u64_max
      → is_empty failed ≡ false
      → is_scheduled (finish_known latest st key r resolved failed now).1 ≡ true
      → Again st key r (finish_known latest st key r resolved failed now).0
  unfolding finish_known
  finish_known-Again st key r resolved failed now d h e s =
      let rest : KeyRetry = record r { records = (remove_offsets r.records resolved).0 } in
      let count = saturating_sub st.pending (remove_offsets r.records resolved).1 in
      let new = attempted latest st.delays rest count failed now in
      let (same, delays_same, there) = put_back_kept st key failed new d e in
      let (next, room) =
        attempted_scheduled st.delays rest count failed now h e (sym (ap is_scheduled same) ∙ s) in
      record {
        delays_are = delays_same;
        room = room;
        key_is = elim there [ inl n ↦ inl n | inr g ↦ inr (new.0, g, next) ];
      }

  finish-Again :
      (st : RetryState) (key : ℕ) (r : KeyRetry) (a : Attempt)
      → IsValid st
      → length st.delays ≤ u64_max
      → get key st.keys ≡ some r
      → is_empty a.failed ≡ false
      → is_scheduled (finish latest st key a.resolved a.failed a.now).1 ≡ true
      → Again st key r (finish latest st key a.resolved a.failed a.now).0
  unfolding finish
  finish-Again st key r a v h e f =
      rw e (finish_known-Again st key r a.resolved a.failed a.now v.distinct h f)

  -- An attempt on a key that is gone is not scheduled again.
  finish_gone :
      (st : RetryState) (key : ℕ) (a : Attempt)
      → get key st.keys ≡ none
      → is_scheduled (finish latest st key a.resolved a.failed a.now).1 ≡ false
  unfolding finish
  finish_gone st key a e = rw e refl

  -- In a well-formed schedule with fewer than 2^64 delays: if each of a row of attempts on a known key
  -- has a failed run and ends in another attempt, then the failed attempts before the row and those
  -- of the row together are fewer than the delays.
  pub scheduled_bounded :
      (st : RetryState) (key : ℕ) (r : KeyRetry) (a : Attempt) (more : List Attempt)
      → IsValid st
      → length st.delays ≤ u64_max
      → get key st.keys ≡ some r
      → AllFail (a ∷ more)
      → AllScheduled (outcomes st key (a ∷ more))
      → r.attempt + length (a ∷ more) < length st.delays
  unfolding outcomes
  scheduled_bounded st key r a [] v h e f s =
      omega (arith, (finish-Again st key r a v h e f.0 s.0).room)
  scheduled_bounded st key r a (b ∷ more) v h e f s =
      let st' : RetryState = (finish latest st key a.resolved a.failed a.now).0 in
      let again : Again st key r st' = finish-Again st key r a v h e f.0 s.0 in
      elim again.key_is [
        | inl gone ↦ absurd (cc (finish_gone st' key b gone, s.1.0))
        | inr (r', there, next) ↦ omega (
          arith,
          next,
          ap (λ (l : List Duration). length l) again.delays_are,
          scheduled_bounded st' key r' b more
              (finish-IsValid latest st key a.resolved a.failed a.now v)
              (omega (arith, ap (λ (l : List Duration). length l) again.delays_are)) there f.1 s.1,
        )
      ]
