-- ===== src/Partition/Algebra.antt =====
-- wakuwaku-iggy/src/partition/algebra.rs: the reductions of a run, one for each marker type. The
-- event type is generic; `Eq`, `Ord` and `EventSemigroup` are an interface each, and the standard
-- library's sort is a part of that of `Ord`.
pub mod Effect
pub mod Once
mod Examples
use wakuwaku.Base.{
  Bool, true, false, List, [], ◌∷◌, Option, none, some, foldl, ◌≡◌, ◌↔◌, ◌⊎◌, if◌then◌else◌,
}
use mathlib.Core.List.{Permᴰ}
use wakuwaku.Events.{EventAssociativity}

-- `Eq`: an equivalence, which may hold of events that are not the same.
pub record EventEq (E : Type 0) : Type 0 where
  pub beq : E → E → Bool
  pub beq_refl : (a : E) → beq a a ≡ true
  pub beq_sym : (a b : E) → beq a b ≡ true → beq b a ≡ true
  pub beq_trans : (a b c : E) → beq a b ≡ true → beq b c ≡ true → beq a c ≡ true

-- `a` is at most each event of the list.
abbrev pub AllAbove : {E : Type 0} → (E → E → Bool) → E → List E → Type 0
AllAbove le a [] = Unit {0}
AllAbove le a (b ∷ run) = (le a b ≡ true) × AllAbove le a run

abbrev pub Sorted : {E : Type 0} → (E → E → Bool) → List E → Type 0
Sorted le [] = Unit {0}
Sorted le (a ∷ run) = AllAbove le a run × Sorted le run

-- `Ord`: a total order, whose equal events are those of `Eq`, and the standard library's `sort_unstable`, which makes
-- a sorted permutation of a run, in which equal events may stand in any order.
pub record EventOrd (E : Type 0) : Type 0 where
  pub eq : EventEq E
  pub le : E → E → Bool
  pub le_total : (a b : E) → (le a b ≡ true) ⊎ (le b a ≡ true)
  pub le_trans : (a b c : E) → le a b ≡ true → le b c ≡ true → le a c ≡ true
  pub le_antisymm : (a b : E) → le a b ≡ true → le b a ≡ true → eq.beq a b ≡ true
  pub le_eq : (a b : E) → eq.beq a b ≡ true → le a b ≡ true
  pub sort_unstable : List E → List E
  pub sort_perm : (run : List E) → Permᴰ (sort_unstable run) run
  pub sort_sorted : (run : List E) → Sorted le (sort_unstable run)

-- `EventSemigroup`
pub record EventSemigroup (E : Type 0) : Type 0 where
  pub combine : E → E → E

module _ {E : Type 0} where
  -- `Vec::dedup`: of each stretch of equal events the first stays.
  pub dedup_from : EventEq E → E → List E → List E
  dedup_from eq a [] = []
  dedup_from eq a (b ∷ run) = if eq.beq a b then dedup_from eq a run else b ∷ dedup_from eq b run

  unfoldable pub dedup : EventEq E → List E → List E
  unfolding dedup_from
  dedup eq [] = []
  dedup eq (a ∷ run) = a ∷ dedup_from eq a run

  -- `NonAssociative::reduce` and `Commutative::reduce`
  unfoldable pub reduce_nothing : List E → List E
  reduce_nothing run = run

  -- `Idempotent::reduce`
  unfoldable pub reduce_idempotent : EventEq E → List E → List E
  unfolding dedup
  reduce_idempotent eq run = dedup eq run

  -- `IdempotentCommutative::reduce`
  unfoldable pub reduce_idempotent_commutative : EventOrd E → List E → List E
  unfolding dedup
  reduce_idempotent_commutative ord run = dedup ord.eq (ord.sort_unstable run)

  -- `run.drain(..).reduce(E::combine)`
  fold_run : EventSemigroup E → List E → Option E
  fold_run sg [] = none
  fold_run sg (a ∷ run) = some (foldl sg.combine a run)

  abbrev to_list : Option E → List E
  to_list none = []
  to_list (some a) = a ∷ []

  -- `Associative::reduce`
  unfoldable pub reduce_associative : EventSemigroup E → List E → List E
  unfolding fold_run
  reduce_associative sg run = to_list (fold_run sg run)

-- The markers, with what each asks of the event type.
pub data Algebra (E : Type 0) : Type 0 where
  non_associative commutative : Algebra E
  idempotent : EventEq E → Algebra E
  idempotent_commutative : EventOrd E → Algebra E
  associative : EventSemigroup E → Algebra E

-- `Algebra::ASSOCIATIVITY`
unfoldable pub associativity : {E : Type 0} → Algebra E → EventAssociativity
associativity non_associative = EventAssociativity.non_associative
associativity commutative = EventAssociativity.commutative
associativity (idempotent eq) = EventAssociativity.idempotent
associativity (idempotent_commutative ord) = EventAssociativity.idempotent_commutative
associativity (associative sg) = EventAssociativity.associative

-- `Algebra::reduce`
unfoldable pub reduce : {E : Type 0} → Algebra E → List E → List E
unfolding reduce_nothing reduce_idempotent reduce_idempotent_commutative reduce_associative
reduce non_associative run = reduce_nothing run
reduce commutative run = reduce_nothing run
reduce (idempotent eq) run = reduce_idempotent eq run
reduce (idempotent_commutative ord) run = reduce_idempotent_commutative ord run
reduce (associative sg) run = reduce_associative sg run
