-- ===== src/Consumer/Retry/Left.antt =====
-- The records that `retain` leaves (wakuwaku-iggy/src/consumer/retry.rs), by their offsets.
use mathlib.Core.List.{Memᴰ}
use mathlib.Core.List.Memᴰ.{head, tail}
use wakuwaku.Base.{
  ◌⊎◌, ℕ, ◌==◌, true, false, ◌≡◌, refl, sym, ◌∙◌, inl, inr, List, [], ◌∷◌, map, Bool-cases, ==_iff,
}
use wakuwaku.Consumer.Record.{ParsedRecord}
use wakuwaku.Consumer.Retry.{PendingRecord, contains, retain}

-- What stays of records when those whose offset is gone are left out, in their order.
pub data Left (Gone : ℕ → Type 0) : List ParsedRecord → List ParsedRecord → Type 0 where
  nothing : Left Gone [] []
  gone :
      (r : ParsedRecord) (rs stay : List ParsedRecord)
      → Gone r.offset
      → Left Gone rs stay
      → Left Gone (r ∷ rs) stay
  stays :
      (r : ParsedRecord) (rs stay : List ParsedRecord)
      → ¬ Gone r.offset
      → Left Gone rs stay
      → Left Gone (r ∷ rs) (r ∷ stay)

-- The pending records of the key `j` before and after an attempt on `key`.
pub data Changed (key j : ℕ) (Gone : ℕ → Type 0) (before after : List ParsedRecord) : Type 0 where
  attempted_key : key ≡ j → Left Gone before after → Changed key j Gone before after
  other_key : ¬ (key ≡ j) → after ≡ before → Changed key j Gone before after

contains-Memᴰ : (os : List ℕ) (n : ℕ) → contains os n ≡ true → Memᴰ n os
unfolding contains
contains-Memᴰ [] n e = absurd (cc e)
contains-Memᴰ (o ∷ os) n e = elim (Bool-cases (o == n)) [
  | inl h ↦ Memᴰ.head (sym ((==_iff o n).0 h))
  | inr h ↦ Memᴰ.tail (contains-Memᴰ os n (sym (rw h refl) ∙ e))
]

Memᴰ-contains : (os : List ℕ) (n : ℕ) → Memᴰ n os → contains os n ≡ true
unfolding contains
Memᴰ-contains [] n m = elim m [ ]
Memᴰ-contains (o ∷ os) n (head e) = rw ((==_iff o n).1 (sym e)) refl
Memᴰ-contains (o ∷ os) n (tail m) = elim (Bool-cases (o == n)) [
  | inl h ↦ rw h refl
  | inr h ↦ rw h (Memᴰ-contains os n m)
]

not_in : (os : List ℕ) (n : ℕ) → contains os n ≡ false → ¬ Memᴰ n os
not_in os n e m = absurd (cc (e, Memᴰ-contains os n m))

abbrev pub parsed_of : List PendingRecord → List ParsedRecord
parsed_of ps = map (λ (p : PendingRecord). p.record_) ps

pub Left-retain :
    (Gone : ℕ → Type 0) (os : List ℕ)
    → ((n : ℕ) → Memᴰ n os → Gone n)
    → ((n : ℕ) → Gone n → Memᴰ n os)
    → (ps : List PendingRecord) → Left Gone (parsed_of ps) (parsed_of (retain os ps))
unfolding retain
Left-retain Gone os f g [] = nothing
Left-retain Gone os f g (p ∷ ps) = elim (Bool-cases (contains os p.record_.offset)) [
  | inl e ↦
      rw e (
        gone p.record_ _ _ (f _ (contains-Memᴰ os p.record_.offset e)) (Left-retain Gone os f g ps))
  | inr e ↦
      rw e (
        stays p.record_ _ _ (λ q. not_in os p.record_.offset e (g _ q))
          (Left-retain Gone os f g ps))
]

-- The records that are left by two lists, one after the other.
pub Left-both :
    (Gone : ℕ → Type 0) (cs bs : List ℕ)
    → ((n : ℕ) → Memᴰ n cs → Gone n)
    → ((n : ℕ) → Memᴰ n bs → Gone n)
    → ((n : ℕ) → Gone n → Memᴰ n cs ⊎ Memᴰ n bs)
    → (ps : List PendingRecord) → Left Gone (parsed_of ps) (parsed_of (retain bs (retain cs ps)))
unfolding retain
Left-both Gone cs bs f g h [] = nothing
Left-both Gone cs bs f g h (p ∷ ps) =
    let o = p.record_.offset in
    let rest = Left-both Gone cs bs f g h ps in
    elim (Bool-cases (contains cs p.record_.offset)) [
      | inl e ↦ rw e (gone p.record_ _ _ (f _ (contains-Memᴰ cs o e)) rest)
      | inr e ↦ elim (Bool-cases (contains bs p.record_.offset)) [
        | inl k ↦ rw (e, k) (gone p.record_ _ _ (g _ (contains-Memᴰ bs o k)) rest)
        | inr k ↦ rw (e, k) (stays p.record_ _ _ (neither cs bs o (h o) e k) rest)
      ]
    ]
  where
    neither :
        {A : Type 0} (cs bs : List ℕ) (o : ℕ)
        → (A → Memᴰ o cs ⊎ Memᴰ o bs)
        → contains cs o ≡ false
        → contains bs o ≡ false
        → ¬ A
    neither cs bs o h e k a = elim (h a) [ inl m ↦ not_in cs o e m | inr m ↦ not_in bs o k m ]
