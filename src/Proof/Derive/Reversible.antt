-- ===== src/Proof/Derive/Reversible.antt =====
-- Laws that lose no evidence (wakuwaku-proof/src/boolean_algebra.rs).
use wakuwaku.Base.{ℕ, ◌≡◌, refl}
use wakuwaku.Proof.{and, left, right, both}
use wakuwaku.Proof.Derive.{
  Proposition, ◌⋏◌, ◌⋎◌, Law, commute_conj, commute_disj, associate_conj, associate_conj_back,
  associate_disj, associate_disj_back, merge_conj, double_conj, merge_disj, double_disj,
  absorb_conj, expand_conj, absorb_disj, expand_disj, distribute_disj, factor_disj, Evidence, apply,
}

-- The laws that another one takes back.
pub data Reversible : Proposition → Proposition → Type 0 where
  commutes_conj : {p q : Proposition} → Reversible (p ⋏ q) (q ⋏ p)
  commutes_disj : {p q : Proposition} → Reversible (p ⋎ q) (q ⋎ p)
  associates_conj : {p q r : Proposition} → Reversible ((p ⋏ q) ⋏ r) (p ⋏ (q ⋏ r))
  associates_conj_back : {p q r : Proposition} → Reversible (p ⋏ (q ⋏ r)) ((p ⋏ q) ⋏ r)
  associates_disj : {p q r : Proposition} → Reversible ((p ⋎ q) ⋎ r) (p ⋎ (q ⋎ r))
  associates_disj_back : {p q r : Proposition} → Reversible (p ⋎ (q ⋎ r)) ((p ⋎ q) ⋎ r)
  doubles_conj : {p : Proposition} → Reversible p (p ⋏ p)
  doubles_disj : {p : Proposition} → Reversible p (p ⋎ p)
  expands_conj : {p q : Proposition} → Reversible p (p ⋏ (p ⋎ q))
  expands_disj : {p q : Proposition} → Reversible p (p ⋎ (p ⋏ q))
  distributes_disj : {p q r : Proposition} → Reversible (p ⋎ (q ⋏ r)) ((p ⋎ q) ⋏ (p ⋎ r))

abbrev pub forth : {p q : Proposition} → Reversible p q → Law p q
forth commutes_conj = commute_conj
forth commutes_disj = commute_disj
forth associates_conj = associate_conj
forth associates_conj_back = associate_conj_back
forth associates_disj = associate_disj
forth associates_disj_back = associate_disj_back
forth doubles_conj = double_conj
forth doubles_disj = double_disj
forth expands_conj = expand_conj
forth expands_disj = expand_disj
forth distributes_disj = distribute_disj

abbrev pub back : {p q : Proposition} → Reversible p q → Law q p
back commutes_conj = commute_conj
back commutes_disj = commute_disj
back associates_conj = associate_conj_back
back associates_conj_back = associate_conj
back associates_disj = associate_disj_back
back associates_disj_back = associate_disj
back doubles_conj = merge_conj
back doubles_disj = merge_disj
back expands_conj = absorb_conj
back expands_disj = absorb_disj
back distributes_disj = factor_disj

-- Commutativity and associativity in each direction, duplication, expansion and the distribution of a
-- disjunction lose no evidence: the law in the other direction gives back what there was.
pub back-forth :
    (Atom : ℕ → Type 0) {p q : Proposition} (r : Reversible p q) (e : Evidence Atom p)
    → apply Atom (back r) (apply Atom (forth r) e) ≡ e
back-forth Atom commutes_conj (and a b) = refl
back-forth Atom commutes_disj (left a) = refl
back-forth Atom commutes_disj (right b) = refl
back-forth Atom commutes_disj (both a b) = refl
back-forth Atom associates_conj (and (and a b) c) = refl
back-forth Atom associates_conj_back (and a (and b c)) = refl
back-forth Atom associates_disj (left (left a)) = refl
back-forth Atom associates_disj (left (right b)) = refl
back-forth Atom associates_disj (left (both a b)) = refl
back-forth Atom associates_disj (right c) = refl
back-forth Atom associates_disj (both (left a) c) = refl
back-forth Atom associates_disj (both (right b) c) = refl
back-forth Atom associates_disj (both (both a b) c) = refl
back-forth Atom associates_disj_back (left a) = refl
back-forth Atom associates_disj_back (right (left b)) = refl
back-forth Atom associates_disj_back (right (right c)) = refl
back-forth Atom associates_disj_back (right (both b c)) = refl
back-forth Atom associates_disj_back (both a (left b)) = refl
back-forth Atom associates_disj_back (both a (right c)) = refl
back-forth Atom associates_disj_back (both a (both b c)) = refl
back-forth Atom doubles_conj e = refl
back-forth Atom doubles_disj e = refl
back-forth Atom expands_conj e = refl
back-forth Atom expands_disj e = refl
back-forth Atom distributes_disj (left a) = refl
back-forth Atom distributes_disj (right (and b c)) = refl
back-forth Atom distributes_disj (both a (and b c)) = refl
