-- ===== src/Proof/Examples.antt =====
-- Predicates on numbers, whose evidence is the number they were checked of, after the documentation of
-- `TermDerive`.
use wakuwaku.Base.{ℕ, suc, ◌==◌, ◌%◌, ltb, ◌≡◌, refl, Result, ok, err, if◌then◌else◌, Bool}
use wakuwaku.Proof.{
  ValidateError, deny, parallel, sequential, Predicate, Proven, And, and, Or, right, both, prove,
  from_both, check_and, check_or,
}
use wakuwaku.Proof.Check.{
  Conjunction, Disjunction, Combined, check_and-Conjunction, check_or-Disjunction,
  from_both-Combined,
}
use wakuwaku.Proof.Laws.{derive}
use wakuwaku.Proof.Derive.{
  Proposition, atom, ◌⋏◌, ◌⋎◌, Chain, stop, step, commute_disj, distribute_conj, Evidence, apply,
  derive_all,
}
use wakuwaku.Proof.Derive.Reversible.{distributes_disj, back, forth, back-forth}

abbrev decide : Bool → ℕ → ℕ → Result (ValidateError ℕ) ℕ
decide holds n reason = if holds then ok n else err (deny reason)

abbrev decide_even : ℕ → Unit {0} → Result (ValidateError ℕ) ℕ
decide_even n ctx = decide (n % 2 == 0) n 1

abbrev decide_small : ℕ → Unit {0} → Result (ValidateError ℕ) ℕ
decide_small n ctx = decide (ltb n 100) n 2

-- The world counts the checks.
abbrev check_even : Predicate ℕ ℕ (Unit {0}) ℕ ℕ
check_even w n ctx order = (suc w, decide_even n ctx)

abbrev check_small : Predicate ℕ ℕ (Unit {0}) ℕ ℕ
check_small w n ctx order = (suc w, decide_small n ctx)

abbrev one_by_one : {A B : Type 0} → (ℕ → ℕ × A) → (ℕ → ℕ × B) → ℕ → ℕ × (A × B)
one_by_one f g w = let (w', a) = f w in let (w'', b) = g w' in (w'', (a, b))

one_by_one_runs :
    {A B : Type 0} (f : ℕ → ℕ × A) (g : ℕ → ℕ × B) (w : ℕ)
    → (v : ℕ) × (v' : ℕ) × ((one_by_one f g w).1 ≡ ((f v).1, (g v').1))
one_by_one_runs f g w = (w, (f w).0, refl)

abbrev even_and_small : Predicate ℕ ℕ (Unit {0}) ℕ (And ℕ ℕ)
even_and_small = check_and one_by_one (λ c. c) (λ e. e) check_even check_small

abbrev even_or_small : Predicate ℕ ℕ (Unit {0}) ℕ (Or ℕ ℕ)
even_or_small = check_or one_by_one (λ c. c) (λ e. e) check_even check_small

-- A sequential check stops at the first operand that fails, a parallel one does not.
seven_fails_early :
    (prove even_and_small 0 7 tt sequential ≡ (1, err (deny 1)))
    × (prove even_and_small 0 7 tt parallel ≡ (2, err (deny 1)))
unfolding prove check_and
seven_fails_early = (refl, refl)

seven_is_small :
    prove even_or_small 0 7 tt sequential ≡ (2, ok (record { subject = 7; evidence = right 7 }))
unfolding prove check_or
seven_is_small = refl

check_and-Conjunction_example :
    Conjunction {E' = ℕ}
      (λ e. e)
      (decide_even 7 tt)
      (decide_small 7 tt)
      (even_and_small 0 7 tt sequential).1
check_and-Conjunction_example =
    check_and-Conjunction one_by_one one_by_one_runs (λ c. c) (λ e. e) check_even check_small
      decide_even decide_small (λ w s ctx order. refl) (λ w s ctx order. refl) 0 7 tt sequential

check_or-Disjunction_example :
    Disjunction {E' = ℕ} (decide_even 7 tt) (decide_small 7 tt) (even_or_small 0 7 tt parallel).1
check_or-Disjunction_example =
    check_or-Disjunction one_by_one one_by_one_runs (λ c. c) (λ e. e) check_even check_small
      decide_even decide_small (λ w s ctx order. refl) (λ w s ctx order. refl) 0 7 tt parallel

abbrev even_four : Proven ℕ ℕ
even_four = record { subject = 4; evidence = 4 }

abbrev small_five : Proven ℕ ℕ
small_five = record { subject = 5; evidence = 5 }

from_both-Combined_example :
    Combined ◌==◌ even_four small_five (from_both ◌==◌ even_four small_five)
from_both-Combined_example = from_both-Combined ◌==◌ even_four small_five

different_subjects : from_both ◌==◌ even_four small_five ≡ err (even_four, small_five)
unfolding from_both
different_subjects = refl

-- even ⋏ (small ⋎ positive) to (even ⋏ positive) ⋎ (even ⋏ small)
abbrev even : Proposition
even = atom 0

abbrev small : Proposition
small = atom 1

abbrev positive : Proposition
positive = atom 2

abbrev swapped : Chain (λ n. ℕ) (even ⋏ (small ⋎ positive)) ((even ⋏ positive) ⋎ (even ⋏ small))
swapped = step distribute_conj (step commute_disj stop)

abbrev forty_two : Proven ℕ (Evidence (λ n. ℕ) (even ⋏ (small ⋎ positive)))
forty_two = record { subject = 42; evidence = and 42 (both 42 42) }

derive_all-swapped :
    derive_all (λ n. ℕ) swapped forty_two ≡ record { subject = 42; evidence = right (and 42 42) }
unfolding derive_all derive
derive_all-swapped = refl

back-forth_example :
    apply
      (λ n. ℕ)
      (back (distributes_disj {p = even} {q = small} {r = positive}))
      (apply
        (λ n. ℕ)
        (forth (distributes_disj {p = even} {q = small} {r = positive}))
        (both 1 (and 2 3)))
    ≡ both 1 (and 2 3)
back-forth_example =
    back-forth (λ n. ℕ) (distributes_disj {p = even} {q = small} {r = positive}) (both 1 (and 2 3))
