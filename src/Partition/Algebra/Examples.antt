-- ===== src/Partition/Algebra/Examples.antt =====
-- The reductions on small runs, after the tests of wakuwaku-iggy/src/partition/algebra.rs.
use mathlib.Core.List.{Permᴰ}
use mathlib.Core.List.Permᴰ
use mathlib.Core.List.Permᴰ.{nil, cons, swap, trans}
use wakuwaku.Base.{
  inl, inr, ◌⊎◌, Bool-cases, ℕ, Bool, false, List, max, if◌then◌else◌, ◌+◌, ◌*◌, leb, ◌==◌, ◌≡◌,
  refl, true, [], ◌∷◌, foldl, arith,
}
use wakuwaku.Partition.Algebra.{
  AllAbove, Sorted, EventEq, EventOrd, reduce, idempotent, idempotent_commutative, associative,
}
use wakuwaku.Partition.Algebra.Effect.{reduce-effect}

-- Events with a value and a time, of which `Eq` and `Ord` read the value.
abbrev Timed : Type 0
Timed = ℕ × ℕ

abbrev same_value : Timed → Timed → Bool
same_value (a, t) (b, u) = a == b

same_value_refl : (a : Timed) → same_value a a ≡ true
same_value_refl (a, t) = ground arith

same_value_sym : (a b : Timed) → same_value a b ≡ true → same_value b a ≡ true
same_value_sym (a, t) (b, u) h = ground (arith, h)

same_value_trans :
    (a b c : Timed) → same_value a b ≡ true → same_value b c ≡ true → same_value a c ≡ true
same_value_trans (a, t) (b, u) (c, v) h k = ground (arith, h, k)

abbrev timed_eq : EventEq Timed
timed_eq = record {
  beq = same_value;
  beq_refl = same_value_refl;
  beq_sym = same_value_sym;
  beq_trans = same_value_trans;
}

abbrev put_in : Timed → List Timed → List Timed
put_in a [] = a ∷ []
put_in a (b ∷ run) = let rest = put_in a run in if leb a.0 b.0 then a ∷ b ∷ run else b ∷ rest

abbrev sorted : List Timed → List Timed
sorted [] = []
sorted (a ∷ run) = put_in a (sorted run)

put_in_perm : (a : Timed) (run : List Timed) → Permᴰ (put_in a run) (a ∷ run)
put_in_perm a [] = cons refl nil
put_in_perm a (b ∷ run) = of (leb a.0 b.0) (put_in_perm a run)
  where
    of :
        (c : Bool)
        → Permᴰ (put_in a run) (a ∷ run)
        → Permᴰ (if c then a ∷ b ∷ run else b ∷ put_in a run) (a ∷ b ∷ run)
    of true p = Permᴰ.refl (a ∷ b ∷ run)
    of false p = trans (cons refl p) (swap refl refl)

sorted_perm : (run : List Timed) → Permᴰ (sorted run) run
sorted_perm [] = nil
sorted_perm (a ∷ run) = trans (put_in_perm a (sorted run)) (cons refl (sorted_perm run))

abbrev le : Timed → Timed → Bool
le a b = leb a.0 b.0

le_total : (a b : Timed) → (le a b ≡ true) ⊎ (le b a ≡ true)
le_total (a, t) (b, u) = elim (Bool-cases (leb a b)) [
  | inl e ↦ inl e
  | inr e ↦ inr (ground (arith, e))
]

le_trans : (a b c : Timed) → le a b ≡ true → le b c ≡ true → le a c ≡ true
le_trans (a, t) (b, u) (c, v) h k = ground (arith, h, k)

le_antisymm : (a b : Timed) → le a b ≡ true → le b a ≡ true → same_value a b ≡ true
le_antisymm (a, t) (b, u) h k = ground (arith, h, k)

le_eq : (a b : Timed) → same_value a b ≡ true → le a b ≡ true
le_eq (a, t) (b, u) h = ground (arith, h)

above_all : (a b : Timed) (run : List Timed) → le a b ≡ true → AllAbove le b run → AllAbove le a run
above_all a b [] l h = tt
above_all a b (c ∷ run) l (k, h) = (le_trans a b c l k, above_all a b run l h)

put_in_above :
    (c a : Timed) (run : List Timed)
    → le c a ≡ true
    → AllAbove le c run
    → AllAbove le c (put_in a run)
put_in_above c a [] l h = (l, tt)
put_in_above c a (b ∷ run) l (k, h) = elim (Bool-cases (leb a.0 b.0)) [
  | inl e ↦ rw e (l, (k, h))
  | inr e ↦ rw e (k, put_in_above c a run l h)
]

put_in-Sorted : (a : Timed) (run : List Timed) → Sorted le run → Sorted le (put_in a run)
put_in-Sorted a [] s = (tt, tt)
put_in-Sorted a (b ∷ run) (h, s) = elim (Bool-cases (leb a.0 b.0)) [
  | inl e ↦ rw e (((e, above_all a b run e h), (h, s)))
  | inr e ↦ rw e ((put_in_above b a run (ground (arith, e)) h, put_in-Sorted a run s))
]

sorted-Sorted : (run : List Timed) → Sorted le (sorted run)
sorted-Sorted [] = tt
sorted-Sorted (a ∷ run) = put_in-Sorted a (sorted run) (sorted-Sorted run)

abbrev timed_ord : EventOrd Timed
timed_ord = record {
  eq = timed_eq;
  le = le;
  le_total = le_total;
  le_trans = le_trans;
  le_antisymm = le_antisymm;
  le_eq = le_eq;
  sort_unstable = sorted;
  sort_perm = sorted_perm;
  sort_sorted = sorted-Sorted;
}

abbrev timed : List Timed
timed = (1, 10) ∷ (1, 20) ∷ (2, 30) ∷ (1, 40) ∷ (1, 50) ∷ []

idempotent_adjacent : reduce (idempotent timed_eq) timed ≡ (1, 10) ∷ (2, 30) ∷ (1, 40) ∷ []
unfolding reduce
idempotent_adjacent = refl

idempotent_commutative_all :
    reduce (idempotent_commutative timed_ord) timed ≡ (1, 10) ∷ (2, 30) ∷ []
unfolding reduce
idempotent_commutative_all = refl

associative_log_order :
    reduce (associative (record { combine = λ a b. 10 * a + b })) (1 ∷ 2 ∷ 3 ∷ []) ≡ 123 ∷ []
unfolding reduce
associative_log_order = refl

-- The state is the greatest value.
abbrev raise : ℕ → Timed → ℕ
raise s (a, t) = max s a

raise_same : (s : ℕ) (a b : Timed) → same_value a b ≡ true → raise s a ≡ raise s b
raise_same s (a, t) (b, u) h = ground (arith, h)

raise_commutes : (s : ℕ) (a b : Timed) → raise (raise s a) b ≡ raise (raise s b) a
raise_commutes s (a, t) (b, u) = omega arith

raise_again : (s : ℕ) (a : Timed) → raise (raise s a) a ≡ raise s a
raise_again s (a, t) = omega arith

reduce-effect_example : foldl raise 0 (reduce (idempotent_commutative timed_ord) timed) ≡ 2
reduce-effect_example =
    reduce-effect raise (idempotent_commutative timed_ord) (raise_same, raise_commutes, raise_again)
      0 timed
