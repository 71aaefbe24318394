-- ===== src/Proof/Laws.antt =====
-- wakuwaku-proof/src/boolean_algebra.rs: the laws as functions from the evidence of a proposition to that
-- of another. Where the source clones evidence, the value is used twice.
use wakuwaku.Proof.{Proven, map_evidence, And, and, Or, left, right, both}

module _ {A B : Type 0} where
  abbrev pub commute_and : And A B → And B A
  commute_and (and a b) = and b a

  abbrev pub commute_or : Or A B → Or B A
  commute_or (left a) = right a
  commute_or (right b) = left b
  commute_or (both a b) = both b a

  abbrev pub absorb_and : And A (Or A B) → A
  absorb_and (and a ab) = a

  abbrev pub expand_and : A → And A (Or A B)
  expand_and a = and a (left a)

  abbrev pub absorb_or : Or A (And A B) → A
  absorb_or (left a) = a
  absorb_or (right (and a b)) = a
  absorb_or (both a ab) = a

  abbrev pub expand_or : A → Or A (And A B)
  expand_or a = left a

module _ {A : Type 0} where
  abbrev pub merge_and : And A A → A
  merge_and (and a b) = a

  abbrev pub double_and : A → And A A
  double_and a = and a a

  abbrev pub merge_or : Or A A → A
  merge_or (left a) = a
  merge_or (right a) = a
  merge_or (both a b) = a

  abbrev pub double_or : A → Or A A
  double_or a = left a

module _ {A B C : Type 0} where
  abbrev pub associate_and : And (And A B) C → And A (And B C)
  associate_and (and (and a b) c) = and a (and b c)

  abbrev pub associate_and_back : And A (And B C) → And (And A B) C
  associate_and_back (and a (and b c)) = and (and a b) c

  abbrev pub associate_or : Or (Or A B) C → Or A (Or B C)
  associate_or (left (left a)) = left a
  associate_or (left (right b)) = right (left b)
  associate_or (left (both a b)) = both a (left b)
  associate_or (right c) = right (right c)
  associate_or (both (left a) c) = both a (right c)
  associate_or (both (right b) c) = right (both b c)
  associate_or (both (both a b) c) = both a (both b c)

  abbrev pub associate_or_back : Or A (Or B C) → Or (Or A B) C
  associate_or_back (left a) = left (left a)
  associate_or_back (right (left b)) = left (right b)
  associate_or_back (right (right c)) = right c
  associate_or_back (right (both b c)) = both (right b) c
  associate_or_back (both a (left b)) = left (both a b)
  associate_or_back (both a (right c)) = both (left a) c
  associate_or_back (both a (both b c)) = both (both a b) c

  abbrev pub distribute_and : And A (Or B C) → Or (And A B) (And A C)
  distribute_and (and a (left b)) = left (and a b)
  distribute_and (and a (right c)) = right (and a c)
  distribute_and (and a (both b c)) = left (and a b)

  abbrev pub factor_and : Or (And A B) (And A C) → And A (Or B C)
  factor_and (left (and a b)) = and a (left b)
  factor_and (right (and a c)) = and a (right c)
  factor_and (both (and a b) (and a' c)) = and a (both b c)

  abbrev pub distribute_or : Or A (And B C) → And (Or A B) (Or A C)
  distribute_or (left a) = and (left a) (left a)
  distribute_or (right (and b c)) = and (right b) (right c)
  distribute_or (both a (and b c)) = and (both a b) (both a c)

  abbrev pub factor_or : And (Or A B) (Or A C) → Or A (And B C)
  factor_or (and (both a b) (right c)) = both a (and b c)
  factor_or (and (both a b) (both a' c)) = both a (and b c)
  factor_or (and (right b) (both a c)) = both a (and b c)
  factor_or (and (right b) (right c)) = right (and b c)
  factor_or (and (left a) ac) = left a
  factor_or (and (both a b) (left a')) = left a
  factor_or (and (right b) (left a)) = left a

-- `Proven::derive` along a law.
unfoldable pub derive : {T P Q : Type 0} → (P → Q) → Proven T P → Proven T Q
derive law proof = map_evidence law proof
