-- ===== src/Partition/Algebra/Once.antt =====
-- `IdempotentCommutative::reduce` keeps of equal events one (wakuwaku-iggy/src/partition/algebra.rs).
use wakuwaku.Base.{false, List, [], ◌∷◌, ◌≡◌}
use wakuwaku.Partition.Algebra.{EventEq}

-- No event of the list equals another, by `Eq`.
abbrev pub NoneEquals : {E : Type 0} → EventEq E → E → List E → Type 0
NoneEquals eq a [] = Unit {0}
NoneEquals eq a (b ∷ run) = (eq.beq a b ≡ false) × NoneEquals eq a run

abbrev pub AllUnequal : {E : Type 0} → EventEq E → List E → Type 0
AllUnequal eq [] = Unit {0}
AllUnequal eq (a ∷ run) = NoneEquals eq a run × AllUnequal eq run
