-- ===== src/Partition/Algebra/Effect.antt =====
-- Applying a reduced run (wakuwaku-iggy/src/partition/algebra.rs) has the effect of the run.
use wakuwaku.Base.{List, [], ◌∷◌, foldl, true, ◌≡◌, refl, ap, ap₂, ◌∙◌, inl, inr, Bool-cases}
use mathlib.Core.List.{Permᴰ}
use mathlib.Core.List.Permᴰ.{nil, cons, swap, trans}
use wakuwaku.Partition.Algebra.{
  EventEq, EventSemigroup, dedup_from, dedup, fold_run, Algebra, non_associative, commutative,
  idempotent, idempotent_commutative, associative, reduce,
}

-- `apply s e` is the state `s · e` of the module's documentation.
module _ {S E : Type 0} (apply : S → E → S) where
  -- Equal events have the same effect: `Eq` ignores no part that matters.
  abbrev pub Respects : EventEq E → Type 0
  Respects eq = (s : S) (a b : E) → eq.beq a b ≡ true → apply s a ≡ apply s b

  -- The law that each marker's documentation asks for, and, of the markers that drop equal events, that these
  -- have the same effect.
  abbrev pub Law : Algebra E → Type 0
  Law non_associative = Unit {0}
  Law commutative = (s : S) (a b : E) → apply (apply s a) b ≡ apply (apply s b) a
  Law (idempotent eq) = Respects eq × ((s : S) (a : E) → apply (apply s a) a ≡ apply s a)
  Law (idempotent_commutative ord) =
      Respects ord.eq
      × ((s : S) (a b : E) → apply (apply s a) b ≡ apply (apply s b) a)
      × ((s : S) (a : E) → apply (apply s a) a ≡ apply s a)
  Law (associative sg) = (s : S) (a b : E) → apply s (sg.combine a b) ≡ apply (apply s a) b

  dedup_from-effect :
      (eq : EventEq E)
      → Respects eq
      → ((s : S) (a : E) → apply (apply s a) a ≡ apply s a)
      → (s : S) (a : E) (run : List E)
      → foldl apply (apply s a) (dedup_from eq a run) ≡ foldl apply (apply s a) run
  unfolding dedup_from
  dedup_from-effect eq same law s a [] = refl
  dedup_from-effect eq same law s a (b ∷ run) = elim (Bool-cases (eq.beq a b)) [
    | inl e ↦ rw (e, ← same (apply s a) a b e, law s a) (dedup_from-effect eq same law s a run)
    | inr e ↦ rw e (dedup_from-effect eq same law (apply s a) b run)
  ]

  dedup-effect :
      (eq : EventEq E)
      → Respects eq
      → ((s : S) (a : E) → apply (apply s a) a ≡ apply s a)
      → (s : S) (run : List E) → foldl apply s (dedup eq run) ≡ foldl apply s run
  unfolding dedup
  dedup-effect eq same law s [] = refl
  dedup-effect eq same law s (a ∷ run) = dedup_from-effect eq same law s a run

  Permᴰ-effect :
      ((s : S) (a b : E) → apply (apply s a) b ≡ apply (apply s b) a)
      → (s : S) (xs ys : List E) → Permᴰ xs ys
      → foldl apply s xs ≡ foldl apply s ys
  Permᴰ-effect law s _ _ nil = refl
  Permᴰ-effect law s _ _ (cons {a = a} {b = b} {l₁ = xs} {l₂ = ys} e p) =
      ap (λ x. foldl apply (apply s x) xs) e ∙ Permᴰ-effect law (apply s b) xs ys p
  Permᴰ-effect law s _ _ (swap {a = a} {b = b} {a' = c} {b' = d} {l = xs} e f) =
      ap (λ x. foldl apply x xs) (law s a b ∙ ap₂ (λ x y. apply (apply s x) y) f e)
  Permᴰ-effect law s _ _ (trans {l₁ = xs} {l₂ = ys} {l₃ = zs} p q) =
      Permᴰ-effect law s xs ys p ∙ Permᴰ-effect law s ys zs q

  fold_run-effect :
      (sg : EventSemigroup E)
      → ((s : S) (a b : E) → apply s (sg.combine a b) ≡ apply (apply s a) b)
      → (s : S) (a : E) (run : List E)
      → apply s (foldl sg.combine a run) ≡ foldl apply (apply s a) run
  fold_run-effect sg law s a [] = refl
  fold_run-effect sg law s a (b ∷ run) =
      fold_run-effect sg law s (sg.combine a b) run ∙ ap (λ x. foldl apply x run) (law s a b)

  -- If applying events obeys the law of a marker, and, where the marker drops equal events, events that Eq finds
  -- equal have the same effect, applying the reduced run has the effect of applying the whole run,
  -- for every marker, state and run. The standard library's sort permutes the run.
  pub reduce-effect :
      (algebra : Algebra E)
      → Law algebra
      → (s : S) (run : List E) → foldl apply s (reduce algebra run) ≡ foldl apply s run
  unfolding reduce fold_run
  reduce-effect non_associative law s run = refl
  reduce-effect commutative law s run = refl
  reduce-effect (idempotent eq) (same, law) s run = dedup-effect eq same law s run
  reduce-effect (idempotent_commutative ord) (same, commutes, law) s run =
      dedup-effect ord.eq same law s (ord.sort_unstable run)
      ∙ Permᴰ-effect commutes s (ord.sort_unstable run) run (ord.sort_perm run)
  reduce-effect (associative sg) law s [] = refl
  reduce-effect (associative sg) law s (a ∷ run) = fold_run-effect sg law s a run
