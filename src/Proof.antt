-- ===== src/Proof.antt =====
-- wakuwaku-proof/src/lib.rs: predicates decided at run time, and proofs that carry the evidence of a
-- check. A predicate's evidence is a type, and `Evidence`, a wrapper that only hides its field, is that
-- type. A check passes on a world `W`, what its input and output change.
pub mod Laws
pub mod Check
pub mod Derive
mod Examples
use wakuwaku.Base.{ℕ, Bool, Result, ok, err, if◌then◌else◌}

-- A `&'static str`, compared by address.
abbrev pub DeniedReason : Type 0
DeniedReason = ℕ

pub data ValidateError (E : Type 0) : Type 0 where
  io_error : E → ValidateError E
  deny : DeniedReason → ValidateError E

pub data CheckOrder : Type 0 where
  parallel sequential : CheckOrder

-- `Predicate::check` of a subject `T` in a context `C`, with evidence `P`.
abbrev pub Predicate : Type 0 → Type 0 → Type 0 → Type 0 → Type 0 → Type 0
Predicate W T C E P = W → T → C → CheckOrder → W × Result (ValidateError E) P

pub record Proven (T P : Type 0) : Type 0 where
  pub subject : T
  pub evidence : P

abbrev pub map_evidence : {T P Q : Type 0} → (P → Q) → Proven T P → Proven T Q
map_evidence f proof = record { subject = proof.subject; evidence = f proof.evidence }

-- What `?` and the struct literal of `prove` make of the outcome of a check.
abbrev pub wrap : {T P E : Type 0} → T → Result E P → Result E (Proven T P)
wrap subject (ok evidence) = ok (record { subject = subject; evidence = evidence })
wrap subject (err e) = err e

unfoldable pub prove :
    {W T C E P : Type 0}
    → Predicate W T C E P
    → W
    → T
    → C
    → CheckOrder
    → W × Result (ValidateError E) (Proven T P)
prove check w subject ctx order =
    let (w', outcome) = check w subject ctx order in (w', wrap subject outcome)

-- The only error of a pure check: `Infallible` has no values.
pub data Infallible : Type 0 where

-- `PureVerifier::prove`; `B` is the borrowed form of the subject.
unfoldable pub prove_pure :
    {T B P : Type 0}
    → (T → B)
    → (B → Result (ValidateError Infallible) P)
    → T
    → Result (ValidateError Infallible) (Proven T P)
prove_pure borrow check subject = wrap subject (check (borrow subject))

pub data And (A B : Type 0) : Type 0 where
  and : A → B → And A B

pub data Or (A B : Type 0) : Type 0 where
  left : A → Or A B
  right : B → Or A B
  both : A → B → Or A B

-- `Proven::from_both`; `eq` is the subject's `Eq`.
unfoldable pub from_both :
    {T A B : Type 0}
    → (T → T → Bool)
    → Proven T A
    → Proven T B
    → Result (Proven T A × Proven T B) (Proven T (And A B))
from_both eq a b =
    if eq a.subject b.subject
    then ok (record { subject = a.subject; evidence = and a.evidence b.evidence })
    else err (a, b)

abbrev pub and_first : {A B : Type 0} → And A B → A
and_first (and a b) = a

abbrev pub and_second : {A B : Type 0} → And A B → B
and_second (and a b) = b

unfoldable pub into_a : {T A B : Type 0} → Proven T (And A B) → Proven T A
into_a proof = map_evidence and_first proof

unfoldable pub into_b : {T A B : Type 0} → Proven T (And A B) → Proven T B
into_b proof = map_evidence and_second proof

unfoldable pub from_a : {T A B : Type 0} → Proven T A → Proven T (Or A B)
from_a proof = map_evidence left proof

unfoldable pub from_b : {T A B : Type 0} → Proven T B → Proven T (Or A B)
from_b proof = map_evidence right proof

-- `ValidateError` with the error of the input and output converted.
abbrev pub map_io : {E E' : Type 0} → (E → E') → ValidateError E → ValidateError E'
map_io f (io_error e) = io_error (f e)
map_io f (deny r) = deny r

-- The end of the check of `And`: the second operand's outcome with the first one's evidence.
abbrev pub conjoin :
    {A B E E' : Type 0}
    → (E' → E)
    → A
    → Result (ValidateError E') B
    → Result (ValidateError E) (And A B)
conjoin into_error a (ok b) = ok (and a b)
conjoin into_error a (err e) = err (map_io into_error e)

-- The end of the check of `Or`.
abbrev pub disjoin :
    {A B E E' : Type 0}
    → Result (ValidateError E) A
    → Result (ValidateError E') B
    → Result (ValidateError E) (Or A B)
disjoin (ok a) (ok b) = ok (both a b)
disjoin (ok a) (err e) = ok (left a)
disjoin (err e) (ok b) = ok (right b)
disjoin (err e) (err e') = err e

-- `A`'s outcome with `?`, then `conjoin`.
abbrev pub conjoin_both :
    {A B E E' : Type 0}
    → (E' → E)
    → Result (ValidateError E) A
    → Result (ValidateError E') B
    → Result (ValidateError E) (And A B)
conjoin_both into_error (ok a) b = conjoin into_error a b
conjoin_both into_error (err e) b = err e

-- `join` is `tokio::join!` of the two checks.
module _ {W T C C' E E' A B : Type 0}
    (join : (W → W × Result (ValidateError E) A)
      → (W → W × Result (ValidateError E') B)
      → W
      → W × (Result (ValidateError E) A × Result (ValidateError E') B))
    (into_ctx : C → C') (into_error : E' → E) (check_a : Predicate W T C E A)
    (check_b : Predicate W T C' E' B) where
  -- `check` of `And<A, B>`
  unfoldable pub check_and : Predicate W T C E (And A B)
  check_and w s ctx CheckOrder.parallel =
      let (w', (a, b)) =
        join (λ v. check_a v s ctx CheckOrder.parallel)
          (λ v. check_b v s (into_ctx ctx) CheckOrder.parallel) w in
      (w', conjoin_both into_error a b)
  check_and w s ctx CheckOrder.sequential =
      let (w', a) = check_a w s ctx CheckOrder.sequential in
      elim a [
        | err e ↦ (w', err e)
        | ok a' ↦
            let (w'', b) = check_b w' s (into_ctx ctx) CheckOrder.sequential in
            (w'', conjoin into_error a' b)
      ]

  -- `check` of `Or<A, B>`
  unfoldable pub check_or : Predicate W T C E (Or A B)
  check_or w s ctx CheckOrder.parallel =
      let (w', (a, b)) =
        join (λ v. check_a v s ctx CheckOrder.parallel)
          (λ v. check_b v s (into_ctx ctx) CheckOrder.parallel) w in
      (w', disjoin a b)
  check_or w s ctx CheckOrder.sequential =
      let (w', a) = check_a w s ctx CheckOrder.sequential in
      let (w'', b) = check_b w' s (into_ctx ctx) CheckOrder.sequential in (w'', disjoin a b)
