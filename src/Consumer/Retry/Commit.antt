-- ===== src/Consumer/Retry/Commit.antt =====
-- The offset that `committable` (wakuwaku-iggy/src/consumer/retry.rs) lets the task store.
use wakuwaku.Base.{
  ℕ, suc, ◌≤◌, ◌≡◌, refl, ◌∙◌, ◌⊎◌, inl, inr, false, List, [], ◌∷◌, none, some, arith, Option-cases,
  dec_le, subst,
}
use wakuwaku.Consumer.Retry.{
  PendingRecord, KeyRetry, RetryState, is_empty, minimum, fronts, committable,
}
use wakuwaku.Consumer.Retry.Map.{AllValues}
use wakuwaku.Consumer.Retry.Invariant.{Above, Rising, KeyIsValid, IsValid}

-- Every pending record lies at or behind an offset.
abbrev pub AllFrom : ℕ → List PendingRecord → Type 0
AllFrom o [] = Unit {0}
AllFrom o (p ∷ ps) = (o ≤ p.record_.offset) × AllFrom o ps

-- An offset among the pending ones.
abbrev pub Occurs : ℕ → List PendingRecord → Type 0
Occurs o [] = ⊥
Occurs o (p ∷ ps) = (p.record_.offset ≡ o) ⊎ Occurs o ps

abbrev pub OccursIn : ℕ → List (ℕ × KeyRetry) → Type 0
OccursIn o [] = ⊥
OccursIn o ((k, r) ∷ m) = Occurs o r.records ⊎ OccursIn o m

Above-AllFrom : (o b : ℕ) (ps : List PendingRecord) → o ≤ b → Above b ps → AllFrom o ps
Above-AllFrom o b [] h a = tt
Above-AllFrom o b (p ∷ ps) h (g, a) = (omega arith, Above-AllFrom o b ps h a)

-- A bound on the first offset of each key bounds all.
abbrev AllLe : ℕ → List ℕ → Type 0
AllLe o [] = Unit {0}
AllLe o (b ∷ l) = (o ≤ b) × AllLe o l

AllLe-mono : (a b : ℕ) (l : List ℕ) → a ≤ b → AllLe b l → AllLe a l
AllLe-mono a b [] h k = tt
AllLe-mono a b (c ∷ l) h (k, ks) = (omega arith, AllLe-mono a b l h ks)

minimum-AllLe : (l : List ℕ) (o : ℕ) → minimum l ≡ some o → AllLe o l
unfolding minimum
minimum-AllLe [] o e = tt
minimum-AllLe (a ∷ l) o e = elim (Option-cases (minimum l)) [
  | inl n ↦ (ground arith, nothing l n)
  | inr (b, s) ↦ (ground arith, AllLe-mono o b l (ground arith) (minimum-AllLe l b s))
]
  where
    nothing : (l : List ℕ) → minimum l ≡ none → AllLe o l
    nothing [] n = tt
    nothing (b ∷ l) n = absurd (ground arith)

fronts-AllFrom :
    (o : ℕ) (m : List (ℕ × KeyRetry))
    → AllValues KeyIsValid m
    → AllLe o (fronts m)
    → AllValues (λ r. AllFrom o r.records) m
unfolding fronts
fronts-AllFrom o [] v h = tt
fronts-AllFrom o ((k, r) ∷ m) (a, v) h =
    split r.records a.occupied a.rising h (fronts-AllFrom o m v)
  where
    split :
        (ps : List PendingRecord)
        → is_empty ps ≡ false
        → Rising ps
        → AllLe o (elim ps [ [] ↦ fronts m | p ∷ qs ↦ p.record_.offset ∷ fronts m ])
        → (AllLe o (fronts m) → AllValues (λ r. AllFrom o r.records) m)
        → AllFrom o ps × AllValues (λ r. AllFrom o r.records) m
    split [] e s g rest = cc
    split (p ∷ ps) e s (g, gs) rest = ((g, Above-AllFrom o p.record_.offset ps g s.0), rest gs)

-- A member of a list of offsets.
abbrev Among : ℕ → List ℕ → Type 0
Among o [] = ⊥
Among o (b ∷ l) = (b ≡ o) ⊎ Among o l

minimum-Among : (l : List ℕ) (o : ℕ) → minimum l ≡ some o → Among o l
unfolding minimum
minimum-Among [] o e = cc
minimum-Among (a ∷ l) o e = elim (Option-cases (minimum l)) [
  | inl n ↦ inl (ground arith)
  | inr (b, s) ↦ elim (dec_le a b) [
    | yes h ↦ inl (ground arith)
    | no h ↦ inr (minimum-Among l o (s ∙ ground arith))
  ]
]

fronts-OccursIn : (o : ℕ) (m : List (ℕ × KeyRetry)) → Among o (fronts m) → OccursIn o m
unfolding fronts
fronts-OccursIn o [] h = h
fronts-OccursIn o ((k, r) ∷ m) h = split r.records h (fronts-OccursIn o m)
  where
    split :
        (ps : List PendingRecord)
        → Among o (elim ps [ [] ↦ fronts m | p ∷ qs ↦ p.record_.offset ∷ fronts m ])
        → (Among o (fronts m) → OccursIn o m)
        → Occurs o ps ⊎ OccursIn o m
    split [] g rest = inr (rest g)
    split (p ∷ ps) (inl e) rest = inl (inl e)
    split (p ∷ ps) (inr g) rest = inr (rest g)

-- No first record: no key.
fronts-none :
    (m : List (ℕ × KeyRetry)) → AllValues KeyIsValid m → minimum (fronts m) ≡ none → m ≡ []
unfolding fronts minimum
fronts-none [] v e = refl
fronts-none ((k, r) ∷ m) (a, v) e = split r.records a.occupied e
  where
    split :
        (ps : List PendingRecord)
        → is_empty ps ≡ false
        → minimum (elim ps [ [] ↦ fronts m | p ∷ qs ↦ p.record_.offset ∷ fronts m ]) ≡ none
        → (k, r) ∷ m ≡ []
    split [] o g = cc
    split (p ∷ ps) o g = absurd (ground arith)

-- An offset that may be stored for a well-formed schedule lies before every pending record, and the
-- offset after it is that of a pending record or, if no key is left, of the next record to read.
pub committable_lem :
    (st : RetryState) (next_read c : ℕ)
    → IsValid st
    → committable st next_read ≡ some c
    → AllValues (λ r. AllFrom (suc c) r.records) st.keys
      × (OccursIn (suc c) st.keys ⊎ ((st.keys ≡ []) × (next_read ≡ suc c)))
unfolding committable
committable_lem st next_read c v e = elim (Option-cases (minimum (fronts st.keys))) [
  | inl n ↦
      let none_left : st.keys ≡ [] = fronts-none st.keys v.keys_valid n in
      (rw none_left tt, inr (none_left, ground arith))
  | inr (o, s) ↦
      let here : o ≡ suc c = ground arith in
      (
        fronts-AllFrom (suc c) st.keys v.keys_valid
            (subst (λ x. AllLe x (fronts st.keys)) here (minimum-AllLe (fronts st.keys) o s)),
        inl (
            subst (λ x. OccursIn x st.keys) here
              (fronts-OccursIn o st.keys (minimum-Among (fronts st.keys) o s))),
      )
]
