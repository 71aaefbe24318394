-- ===== src/Proof/Check.antt =====
-- What the checks of `And` and `Or` (wakuwaku-proof/src/lib.rs) decide when their operands decide by the
-- subject and the context alone.
use wakuwaku.Base.{
  Bool, false, Bool-cases, inl, inr, subst, true, ◌≡◌, refl, sym, ap, ap₂, ◌∙◌, Result, ok, err,
}
use wakuwaku.Proof.{
  ValidateError, io_error, deny, DeniedReason, Or, left, right, both, CheckOrder, parallel,
  sequential, Predicate, Proven, And, and, from_both, into_a, into_b, conjoin, disjoin,
  conjoin_both, check_and, check_or,
}

-- What a conjunction's outcome is to be, given its operands': both evidences, else the error of the first that
-- fails, and of the second a denial as it is and an error of its input or output converted.
pub data Conjunction {A B E E' : Type 0} (into_error : E' → E)
    : Result (ValidateError E) A
      → Result (ValidateError E') B
      → Result (ValidateError E) (And A B)
      → Type 0 where
  both_hold : (a : A) (b : B) → Conjunction into_error (ok a) (ok b) (ok (and a b))
  first_fails :
      (e : ValidateError E) (b : Result (ValidateError E') B)
      → Conjunction into_error (err e) b (err e)
  second_denies :
      (a : A) (reason : DeniedReason)
      → Conjunction into_error (ok a) (err (deny reason)) (err (deny reason))
  second_breaks :
      (a : A) (e : E')
      → Conjunction into_error (ok a) (err (io_error e)) (err (io_error (into_error e)))

-- What a disjunction's outcome is to be: the evidence of each operand that holds, and the first one's error if none
-- does.
pub data Disjunction {A B E E' : Type 0}
    : Result (ValidateError E) A
      → Result (ValidateError E') B
      → Result (ValidateError E) (Or A B)
      → Type 0 where
  both_hold : (a : A) (b : B) → Disjunction (ok a) (ok b) (ok (both a b))
  first_holds : (a : A) (e : ValidateError E') → Disjunction (ok a) (err e) (ok (left a))
  second_holds : (e : ValidateError E) (b : B) → Disjunction (err e) (ok b) (ok (right b))
  neither_holds :
      (e : ValidateError E) (e' : ValidateError E') → Disjunction (err e) (err e') (err e)

conjoin_both-Conjunction :
    {A B E E' : Type 0} (into_error : E' → E) (a : Result (ValidateError E) A)
    (b : Result (ValidateError E') B)
    → Conjunction into_error a b (conjoin_both into_error a b)
conjoin_both-Conjunction into_error (err e) b = first_fails e b
conjoin_both-Conjunction into_error (ok a) (ok b) = Conjunction.both_hold a b
conjoin_both-Conjunction into_error (ok a) (err (deny reason)) = second_denies a reason
conjoin_both-Conjunction into_error (ok a) (err (io_error e)) = second_breaks a e

disjoin-Disjunction :
    {A B E E' : Type 0} (a : Result (ValidateError E) A) (b : Result (ValidateError E') B)
    → Disjunction a b (disjoin a b)
disjoin-Disjunction (ok a) (ok b) = Disjunction.both_hold a b
disjoin-Disjunction (ok a) (err e) = first_holds a e
disjoin-Disjunction (err e) (ok b) = second_holds e b
disjoin-Disjunction (err e) (err e') = neither_holds e e'

-- In every world and order, the outcome of the check is that of the decision.
abbrev pub Decides :
    {W T C E P : Type 0} → Predicate W T C E P → (T → C → Result (ValidateError E) P) → Type 0
Decides {W} {T} {C} check decision =
    (w : W) (s : T) (ctx : C) (order : CheckOrder) → (check w s ctx order).1 ≡ decision s ctx

module _ {W T C C' E E' A B : Type 0}
    (join : (W → W × Result (ValidateError E) A)
      → (W → W × Result (ValidateError E') B)
      → W
      → W × (Result (ValidateError E) A × Result (ValidateError E') B))
    (join_runs : (f : W → W × Result (ValidateError E) A) (g : W → W × Result (ValidateError E') B)
        (w : W)
      → (v : W) × (v' : W) × ((join f g w).1 ≡ ((f v).1, (g v').1)))
    (into_ctx : C → C') (into_error : E' → E) (check_a : Predicate W T C E A)
    (check_b : Predicate W T C' E' B) (decide_a : T → C → Result (ValidateError E) A)
    (decide_b : T → C' → Result (ValidateError E') B) (a_decides : Decides check_a decide_a)
    (b_decides : Decides check_b decide_b) where
  joined :
      (w : W) (s : T) (ctx : C)
      → (join (λ v. check_a v s ctx parallel) (λ v. check_b v s (into_ctx ctx) parallel) w).1
        ≡ (decide_a s ctx, decide_b s (into_ctx ctx))
  joined w s ctx =
      let (v, v', e) =
        join_runs (λ v. check_a v s ctx parallel) (λ v. check_b v s (into_ctx ctx) parallel) w in
      e ∙ ap₂ (λ a b. (a, b)) (a_decides v s ctx parallel) (b_decides v' s (into_ctx ctx) parallel)

  -- The rest of a sequential check of `And` once the first operand has the outcome `a`.
  conjoin_after :
      (w : W) (s : T) (ctx : C) (a : Result (ValidateError E) A)
      → (elim a as (λ _. W × Result (ValidateError E) (And A B)) [
        | err e ↦ (w, err e)
        | ok a' ↦
            let (w', b) = check_b w s (into_ctx ctx) sequential in (w', conjoin into_error a' b)
      ]).1
        ≡ conjoin_both into_error a (decide_b s (into_ctx ctx))
  conjoin_after w s ctx (err e) = refl
  conjoin_after w s ctx (ok a) = ap (conjoin into_error a) (b_decides w s (into_ctx ctx) sequential)

  check_and-Decides :
      Decides
        (check_and join into_ctx into_error check_a check_b)
        (λ s ctx. conjoin_both into_error (decide_a s ctx) (decide_b s (into_ctx ctx)))
  unfolding check_and
  check_and-Decides w s ctx parallel = ap (λ p. conjoin_both into_error p.0 p.1) (joined w s ctx)
  check_and-Decides w s ctx sequential =
      conjoin_after (check_a w s ctx sequential).0 s ctx (check_a w s ctx sequential).1
      ∙ ap (λ a. conjoin_both into_error a (decide_b s (into_ctx ctx)))
          (a_decides w s ctx sequential)

  check_or-Decides :
      Decides
        (check_or join into_ctx into_error check_a check_b)
        (λ s ctx. disjoin (decide_a s ctx) (decide_b s (into_ctx ctx)))
  unfolding check_or
  check_or-Decides w s ctx parallel = ap (λ p. disjoin p.0 p.1) (joined w s ctx)
  check_or-Decides w s ctx sequential =
      ap₂ disjoin (a_decides w s ctx sequential)
        (b_decides (check_a w s ctx sequential).0 s (into_ctx ctx) sequential)

  -- If both operands decide by the subject and the context, so does their conjunction, in either
  -- order and in every world: with both evidences if both hold, else with the error of the first that
  -- fails, where the second one's denial stays as it is and the error of its input or output is
  -- converted.
  pub check_and-Conjunction :
      (w : W) (s : T) (ctx : C) (order : CheckOrder)
      → Conjunction into_error
          (decide_a s ctx)
          (decide_b s (into_ctx ctx))
          (check_and join into_ctx into_error check_a check_b w s ctx order).1
  check_and-Conjunction w s ctx order =
      subst (Conjunction into_error (decide_a s ctx) (decide_b s (into_ctx ctx)))
        (sym (check_and-Decides w s ctx order))
        (conjoin_both-Conjunction into_error (decide_a s ctx) (decide_b s (into_ctx ctx)))

  -- If both operands decide by the subject and the context, so does their disjunction, in either
  -- order and in every world: with the evidence of each operand that holds, and the first one's
  -- error if none does.
  pub check_or-Disjunction :
      (w : W) (s : T) (ctx : C) (order : CheckOrder)
      → Disjunction
          (decide_a s ctx)
          (decide_b s (into_ctx ctx))
          (check_or join into_ctx into_error check_a check_b w s ctx order).1
  check_or-Disjunction w s ctx order =
      subst (Disjunction (decide_a s ctx) (decide_b s (into_ctx ctx)))
        (sym (check_or-Decides w s ctx order))
        (disjoin-Disjunction (decide_a s ctx) (decide_b s (into_ctx ctx)))

-- What combining two proofs is to give: where their subjects are equal, a proof of the first's subject from which
-- both evidences come back, and else both proofs.
pub data Combined {T A B : Type 0} (eq : T → T → Bool) (a : Proven T A) (b : Proven T B)
    : Result (Proven T A × Proven T B) (Proven T (And A B)) → Type 0 where
  combined :
      (p : Proven T (And A B))
      → eq a.subject b.subject ≡ true
      → into_a p ≡ a
      → (into_b p).evidence ≡ b.evidence
      → Combined eq a b (ok p)
  refused : eq a.subject b.subject ≡ false → Combined eq a b (err (a, b))

-- Two proofs are combined exactly if Eq says that their subjects are equal: the first comes back from the
-- combination, and of the second the evidence. Otherwise both are handed back.
pub from_both-Combined :
    {T A B : Type 0} (eq : T → T → Bool) (a : Proven T A) (b : Proven T B)
    → Combined eq a b (from_both eq a b)
unfolding from_both into_a into_b
from_both-Combined eq a b = elim (Bool-cases (eq a.subject b.subject)) [
  | inl q ↦
      rw q (
        combined (record { subject = a.subject; evidence = and a.evidence b.evidence }) q refl refl)
  | inr q ↦ rw q (refused q)
]
