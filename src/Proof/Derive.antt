-- ===== src/Proof/Derive.antt =====
-- Chains of laws (wakuwaku-proof/src/boolean_algebra.rs) over propositions whose atoms are numbered.
pub mod Reversible
use wakuwaku.Base.{ℕ, ◌≡◌, refl, ap}
use wakuwaku.Proof.{Proven, And, and, Or, left, right, both}
use wakuwaku.Proof.Laws.{
  derive, commute_and, commute_or, absorb_and, expand_and, absorb_or, expand_or, merge_and,
  double_and, merge_or, double_or, associate_and, associate_and_back, associate_or,
  associate_or_back, distribute_and, factor_and, distribute_or, factor_or,
}

pub data Proposition : Type 0 where
  atom : ℕ → Proposition
  ◌⋏◌ ◌⋎◌ : Proposition → Proposition → Proposition

infixr 6 ◌⋏◌
infixr 5 ◌⋎◌
-- The laws of the table of `TermDerive`, each in both directions where there are two.
pub data Law : Proposition → Proposition → Type 0 where
  commute_conj : {p q : Proposition} → Law (p ⋏ q) (q ⋏ p)
  commute_disj : {p q : Proposition} → Law (p ⋎ q) (q ⋎ p)
  associate_conj : {p q r : Proposition} → Law ((p ⋏ q) ⋏ r) (p ⋏ (q ⋏ r))
  associate_conj_back : {p q r : Proposition} → Law (p ⋏ (q ⋏ r)) ((p ⋏ q) ⋏ r)
  associate_disj : {p q r : Proposition} → Law ((p ⋎ q) ⋎ r) (p ⋎ (q ⋎ r))
  associate_disj_back : {p q r : Proposition} → Law (p ⋎ (q ⋎ r)) ((p ⋎ q) ⋎ r)
  merge_conj : {p : Proposition} → Law (p ⋏ p) p
  double_conj : {p : Proposition} → Law p (p ⋏ p)
  merge_disj : {p : Proposition} → Law (p ⋎ p) p
  double_disj : {p : Proposition} → Law p (p ⋎ p)
  absorb_conj : {p q : Proposition} → Law (p ⋏ (p ⋎ q)) p
  expand_conj : {p q : Proposition} → Law p (p ⋏ (p ⋎ q))
  absorb_disj : {p q : Proposition} → Law (p ⋎ (p ⋏ q)) p
  expand_disj : {p q : Proposition} → Law p (p ⋎ (p ⋏ q))
  distribute_conj : {p q r : Proposition} → Law (p ⋏ (q ⋎ r)) ((p ⋏ q) ⋎ (p ⋏ r))
  factor_conj : {p q r : Proposition} → Law ((p ⋏ q) ⋎ (p ⋏ r)) (p ⋏ (q ⋎ r))
  distribute_disj : {p q r : Proposition} → Law (p ⋎ (q ⋏ r)) ((p ⋎ q) ⋏ (p ⋎ r))
  factor_disj : {p q r : Proposition} → Law ((p ⋎ q) ⋏ (p ⋎ r)) (p ⋎ (q ⋏ r))

module _ (Atom : ℕ → Type 0) where
  -- The evidence type of a proposition.
  abbrev pub Evidence : Proposition → Type 0
  Evidence (atom n) = Atom n
  Evidence (p ⋏ q) = And (Evidence p) (Evidence q)
  Evidence (p ⋎ q) = Or (Evidence p) (Evidence q)

  -- The function by which `term_derive` maps the evidence.
  abbrev pub apply : {p q : Proposition} → Law p q → Evidence p → Evidence q
  apply commute_conj e = commute_and e
  apply commute_disj e = commute_or e
  apply associate_conj e = associate_and e
  apply associate_conj_back e = associate_and_back e
  apply associate_disj e = associate_or e
  apply associate_disj_back e = associate_or_back e
  apply merge_conj e = merge_and e
  apply double_conj e = double_and e
  apply merge_disj e = merge_or e
  apply double_disj e = double_or e
  apply absorb_conj e = absorb_and e
  apply expand_conj e = expand_and e
  apply absorb_disj e = absorb_or e
  apply expand_disj e = expand_or e
  apply distribute_conj e = distribute_and e
  apply factor_conj e = factor_and e
  apply distribute_disj e = distribute_or e
  apply factor_disj e = factor_or e

  -- A chain of `derive` calls.
  pub data Chain : Proposition → Proposition → Type 0 where
    stop : {p : Proposition} → Chain p p
    step : {p q r : Proposition} → Law p q → Chain q r → Chain p r

  module _ {T : Type 0} where
    unfoldable pub derive_all :
        {p q : Proposition} → Chain p q → Proven T (Evidence p) → Proven T (Evidence q)
    unfolding derive
    derive_all stop proof = proof
    derive_all (step law chain) proof = derive_all chain (derive (apply law) proof)
