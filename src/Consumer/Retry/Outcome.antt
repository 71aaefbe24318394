-- ===== src/Consumer/Retry/Outcome.antt =====
-- The outcome of an attempt (`finish` of wakuwaku-iggy/src/consumer/retry.rs).
use mathlib.Core.List.{Memᴰ}
use wakuwaku.Base.{
  ◌⊎◌, ℕ, ◌==◌, Bool, true, false, ◌≡◌, refl, sym, ap, ◌∙◌, inl, inr, List, [], ◌∷◌, none, some,
  get_elem?, if◌then◌else◌, saturating_add, saturating_sub, map, Bool-cases, Option-cases, ==_iff,
  subst,
}
use wakuwaku.Consumer.Retry.{
  PendingRecord, KeyRetry, RetryState, Finish, is_empty, retain, remove_offsets, settle, attempted,
  put_back, finish_known, finish, is_quarantined, records, pending_of,
}
use wakuwaku.Consumer.Retry.Left.{
  Left, Changed, attempted_key, other_key, parsed_of, Left-retain, Left-both,
}
use wakuwaku.Consumer.Retry.Map.{
  get, remove, get-insert, get-remove_ne, get-remove_self, Distinct, AllValues-get,
}
use wakuwaku.Consumer.Retry.Invariant.{KeyIsValid, IsValid, remove_offsets_lem}

-- In a well-formed schedule a quarantined key has a pending record, and a key that is not
-- quarantined has none.
pub quarantined_iff :
    (st : RetryState) (key : ℕ)
    → IsValid st
    → (is_quarantined st key ≡ true → is_empty (records st key) ≡ false)
      × (is_quarantined st key ≡ false → records st key ≡ [])
unfolding is_quarantined records
quarantined_iff st key v = elim (Option-cases (get key st.keys)) [
  | inl e ↦ (rw e (λ h. cc), rw e (λ h. refl))
  | inr (r, e) ↦ (
    rw e (λ h. occupied r.records (AllValues-get KeyIsValid key st.keys r v.keys_valid e).occupied),
    rw e (λ h. cc),
  )
]
  where
    occupied :
        (ps : List PendingRecord)
        → is_empty ps ≡ false
        → is_empty (map (λ (p : PendingRecord). p.record_) ps) ≡ false
    occupied [] e = e
    occupied (p ∷ ps) e = refl

module _ (latest : ℕ) where
  -- The rule by which an attempt gives up.
  abbrev pub gives_up : RetryState → KeyRetry → List ℕ → Bool
  gives_up st r failed =
      if is_empty failed
      then false
      else elim (get_elem? st.delays (saturating_add r.attempt 1)) [ none ↦ true | some d ↦ false ]

  -- What an attempt leaves pending.
  survivors : RetryState → KeyRetry → List ℕ → List ℕ → List PendingRecord
  survivors st r resolved failed =
      if gives_up st r failed
      then retain failed (retain resolved r.records)
      else retain resolved r.records

  put_back-get :
      (st : RetryState) (key j : ℕ) (failed : List ℕ) (new : KeyRetry × ℕ × Finish)
      → Distinct st.keys
      → pending_of (get j (put_back latest st key failed new).0.keys)
        ≡ (if key == j then new.0.records else pending_of (get j st.keys))
  unfolding put_back
  put_back-get st key j failed (r, pending, f) d = elim (Bool-cases (is_empty r.records)) [
    | inl e ↦ elim (Bool-cases (key == j)) [
      | inl h ↦
          rw (e, h)
            (ap pending_of (
                subst (λ x. get x (remove key st.keys) ≡ none) ((==_iff key j).0 h)
                  (get-remove_self key st.keys d))
              ∙ sym (is_nil r.records e))
      | inr h ↦ rw (e, h) (ap pending_of (get-remove_ne key j st.keys h))
    ]
    | inr e ↦ elim (Bool-cases (key == j)) [
      | inl h ↦ rw (e, get-insert key j r st.keys, h)
      | inr h ↦ rw (e, get-insert key j r st.keys, h)
    ]
  ]
    where
      is_nil : (ps : List PendingRecord) → is_empty ps ≡ true → ps ≡ []
      is_nil [] g = refl
      is_nil (p ∷ ps) g = cc

  attempted-records :
      (st : RetryState) (r : KeyRetry) (pending : ℕ) (failed : List ℕ) (now : ℕ)
      → (attempted latest st.delays r pending failed now).0.records
        ≡ (if gives_up st r failed then retain failed r.records else r.records)
  unfolding attempted settle
  attempted-records st r pending [] now = refl
  attempted-records st r pending (o ∷ os) now =
      elim (Option-cases (get_elem? st.delays (saturating_add r.attempt 1))) [
        | inl e ↦ rw e ((remove_offsets_lem r.records (o ∷ os)).0)
        | inr (d, e) ↦ rw e
      ]

  finish_known-get :
      (st : RetryState) (key j : ℕ) (r : KeyRetry) (resolved failed : List ℕ) (now : ℕ)
      → Distinct st.keys
      → pending_of (get j (finish_known latest st key r resolved failed now).0.keys)
        ≡ (if key == j then survivors st r resolved failed else pending_of (get j st.keys))
  unfolding finish_known survivors
  finish_known-get st key j r resolved failed now d =
      let rest : KeyRetry = record r { records = (remove_offsets r.records resolved).0 } in
      let count = saturating_sub st.pending (remove_offsets r.records resolved).1 in
      put_back-get st key j failed (attempted latest st.delays rest count failed now) d
      ∙ ap (λ l. if key == j then l else pending_of (get j st.keys))
          (attempted-records st rest count failed now
            ∙ ap (λ l. if gives_up st r failed then retain failed l else l)
                (remove_offsets_lem r.records resolved).0)

  -- The offsets whose records an attempt leaves out: those that it completed and, where it gives up, those that
  -- failed.
  abbrev pub GoneAfter : RetryState → KeyRetry → List ℕ → List ℕ → ℕ → Type 0
  GoneAfter st r resolved failed n =
      Memᴰ n resolved ⊎ ((gives_up st r failed ≡ true) × Memᴰ n failed)

  survivors-Left :
      (st : RetryState) (r : KeyRetry) (resolved failed : List ℕ)
      → Left
          (GoneAfter st r resolved failed)
          (parsed_of r.records)
          (parsed_of (survivors st r resolved failed))
  unfolding survivors
  survivors-Left st r resolved failed = of (gives_up st r failed) refl
    where
      of :
          (b : Bool)
          → gives_up st r failed ≡ b
          → Left (GoneAfter st r resolved failed) (parsed_of r.records) (
              parsed_of (
                if b then retain failed (retain resolved r.records) else retain resolved r.records))
      of true e =
          Left-both (GoneAfter st r resolved failed) resolved failed (λ n m. inl m)
            (λ n m. inr (e, m)) (λ n. left_by n) r.records
        where
          left_by : (n : ℕ) → GoneAfter st r resolved failed n → Memᴰ n resolved ⊎ Memᴰ n failed
          left_by n (inl m) = inl m
          left_by n (inr (g, m)) = inr m
      of false e =
          Left-retain (GoneAfter st r resolved failed) resolved (λ n m. inl m) (λ n. left_by n)
            r.records
        where
          left_by : (n : ℕ) → GoneAfter st r resolved failed n → Memᴰ n resolved
          left_by n (inl m) = m
          left_by n (inr (g, m)) = absurd (cc (e, g))

  known-records :
      (st : RetryState) (key j : ℕ) (r : KeyRetry) (resolved failed : List ℕ) (now : ℕ)
      → IsValid st
      → get key st.keys ≡ some r
      → records (finish latest st key resolved failed now).0 j
        ≡ (if key == j then parsed_of (survivors st r resolved failed) else records st j)
  unfolding finish records
  known-records st key j r resolved failed now v e = rw e (
      ap parsed_of (finish_known-get st key j r resolved failed now v.distinct)
      ∙ elim (Bool-cases (key == j)) [ inl h ↦ rw h | inr h ↦ rw h ])

  before_is :
      (st : RetryState) (key j : ℕ) (r : KeyRetry)
      → get key st.keys ≡ some r
      → key ≡ j
      → parsed_of r.records ≡ records st j
  unfolding records
  before_is st key j r e k = sym (ap (λ o. parsed_of (pending_of o)) e) ∙ ap (records st) k

  -- An attempt on a known key of a well-formed schedule leaves out exactly those of its pending records whose
  -- offset it completed or, where it gives up, failed; the others stay in their order. Every other
  -- key keeps its records.
  pub finish-records :
      (st : RetryState) (key j : ℕ) (r : KeyRetry) (resolved failed : List ℕ) (now : ℕ)
      → IsValid st
      → get key st.keys ≡ some r
      → Changed key j
          (GoneAfter st r resolved failed)
          (records st j)
          (records (finish latest st key resolved failed now).0 j)
  finish-records st key j r resolved failed now v e =
      let a = known-records st key j r resolved failed now v e in
      elim (Bool-cases (key == j)) [
        | inl h ↦
            let k : key ≡ j = (==_iff key j).0 h in
            attempted_key k (
              subst
                (λ l.
                  Left (GoneAfter st r resolved failed) l
                    (records (finish latest st key resolved failed now).0 j))
                (before_is st key j r e k)
                (subst (Left (GoneAfter st r resolved failed) (parsed_of r.records))
                  (sym (a ∙ rw h refl)) (survivors-Left st r resolved failed)))
        | inr h ↦ other_key (λ k. absurd (cc (h, (==_iff key j).1 k))) (a ∙ rw h refl)
      ]
