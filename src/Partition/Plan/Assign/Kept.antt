-- ===== src/Partition/Plan/Assign/Kept.antt =====
-- The order that the whole walk of `assign_segments` (wakuwaku-iggy/src/partition/plan.rs) keeps.
use wakuwaku.Base.{
  ℕ, zero, suc, ◌+◌, ◌<◌, ◌≡◌, subst, true, List, [], ◌∷◌, some, get_elem?, length, arith,
  get_elem?-append, get_elem?-append_last, length-append, some_inj,
}
use native.Mathlib.Nat.{add-zero}
use mathlib.Core.Path.{subst₂}
use wakuwaku.Partition.Plan.{PlanRecord}
use wakuwaku.Partition.Plan.Assign.{Walk, walk, step, start, assign_segments}
use wakuwaku.Partition.Plan.Assign.Meta.{MetasEvolve, MetasEvolve-refl, MetasEvolve-trans}
use wakuwaku.Partition.Plan.Assign.Stepped.{Inv, Placed, Stepped, step-Stepped, start-Inv}
use wakuwaku.Partition.Plan.Assign.Steps.{stepped-evolve, stepped-Placed, stepped-Inv, stepped_self}
use wakuwaku.Partition.Plan.Assign.Fences.{required, Fence, Fence-evolve, stepped-Fence}

abbrev pub after : (w : Walk) (r : PlanRecord) → Inv w → Inv (step w r)
after w r v = stepped-Inv w r (step w r) (step-Stepped w r v) v

pub walk-evolve : (w : Walk) (rs : List PlanRecord) → Inv w → MetasEvolve w.metas (walk w rs).metas
unfolding walk
walk-evolve w [] v = MetasEvolve-refl w.metas
walk-evolve w (r ∷ rs) v =
    MetasEvolve-trans w.metas (step w r).metas (walk (step w r) rs).metas
      (stepped-evolve w r (step w r) (step-Stepped w r v)) (walk-evolve (step w r) rs (after w r v))

pub walk-Placed :
    (w : Walk) (rs : List PlanRecord) (x : PlanRecord) (s : ℕ)
    → Inv w
    → Placed w x s
    → Placed (walk w rs) x s
unfolding walk
walk-Placed w [] x s v p = p
walk-Placed w (r ∷ rs) x s v p =
    walk-Placed (step w r) rs x s (after w r v)
      (stepped-Placed w r (step w r) (step-Stepped w r v) x s p)

-- The segments are given out once, in log order.
walk-segment :
    (w : Walk) (rs : List PlanRecord) (i s : ℕ)
    → Inv w
    → get_elem? w.segment_of i ≡ some s
    → get_elem? (walk w rs).segment_of i ≡ some s
unfolding walk
walk-segment w [] i s v e = e
walk-segment w (r ∷ rs) i s v e =
    let st : Stepped w r (step w r) = step-Stepped w r v in
    walk-segment (step w r) rs i s (after w r v)
      (rw st.seg_is (get_elem?-append w.segment_of (st.seg ∷ []) i s e))

-- The segment of the first record, after the rest of the walk.
pub head-segment :
    (w : Walk) (r : PlanRecord) (rs : List PlanRecord) (v : Inv w)
    → get_elem? (walk (step w r) rs).segment_of (length w.segment_of)
      ≡ some (step-Stepped w r v).seg
head-segment w r rs v =
    let st : Stepped w r (step w r) = step-Stepped w r v in
    walk-segment (step w r) rs (length w.segment_of) st.seg (after w r v)
      (rw st.seg_is (get_elem?-append_last w.segment_of st.seg))

pub step-length :
    (w : Walk) (r : PlanRecord) → Inv w → length (step w r).segment_of ≡ suc (length w.segment_of)
step-length w r v =
    let st : Stepped w r (step w r) = step-Stepped w r v in
    rw st.seg_is (omega (arith, length-append w.segment_of (st.seg ∷ [])))

-- A record that is still to come.
pub record After (w : Walk) (x : PlanRecord) (s : ℕ) (y : PlanRecord) (j : ℕ) : Type 0 where
  pub segment : ℕ
  pub segment_is : get_elem? w.segment_of j ≡ some segment
  pub placed : Placed w y segment
  pub fence : Fence w.metas x y s segment

walk-After :
    (w : Walk) (rs : List PlanRecord) (x : PlanRecord) (s : ℕ) (y : PlanRecord) (j : ℕ)
    → Inv w
    → Placed w x s
    → get_elem? rs j ≡ some y
    → required x y ≡ true
    → After (walk w rs) x s y (length w.segment_of + j)
unfolding walk
walk-After w [] x s y j v p e r = absurd (cc)
walk-After w (z ∷ rs) x s y zero v p e r =
    let st : Stepped w z (step w z) = step-Stepped w z v in
    subst (λ (u : PlanRecord). After (walk (step w z) rs) x s u (length w.segment_of + 0))
      (some_inj e)
      (record {
        segment = st.seg;
        segment_is = rw add-zero (head-segment w z rs v);
        placed = walk-Placed (step w z) rs z st.seg (after w z v) (stepped_self w z (step w z) st);
        fence =
            Fence-evolve (step w z).metas _ x z s st.seg (walk-evolve (step w z) rs (after w z v))
              (stepped-Fence w z (step w z) st x s (rw (some_inj e) r) p);
      })
walk-After w (z ∷ rs) x s y (suc j) v p e r =
    subst (After (walk (step w z) rs) x s y) (omega (arith, step-length w z v)) (
      walk-After (step w z) rs x s y j (after w z v)
        (stepped-Placed w z (step w z) (step-Stepped w z v) x s p) e r)

-- Two records of the log, and how their order is kept.
pub record Kept (w : Walk) (x y : PlanRecord) (i j : ℕ) : Type 0 where
  pub segment : ℕ
  pub segment_is : get_elem? w.segment_of i ≡ some segment
  pub placed : Placed w x segment
  pub later : After w x segment y j

walk-Kept :
    (w : Walk) (rs : List PlanRecord) (x y : PlanRecord) (i j : ℕ)
    → Inv w
    → get_elem? rs i ≡ some x
    → get_elem? rs j ≡ some y
    → i < j
    → required x y ≡ true
    → Kept (walk w rs) x y (length w.segment_of + i) (length w.segment_of + j)
unfolding walk
walk-Kept w [] x y i j v e f h r = absurd (cc)
walk-Kept w (z ∷ rs) x y i zero v e f h r = absurd (omega arith)
walk-Kept w (z ∷ rs) x y zero (suc j) v e f h r =
    let st : Stepped w z (step w z) = step-Stepped w z v in
    subst
      (λ (u : PlanRecord).
        Kept (walk (step w z) rs) u y (length w.segment_of + 0) (length w.segment_of + suc j))
      (some_inj e)
      (record {
        segment = st.seg;
        segment_is = rw add-zero (head-segment w z rs v);
        placed = walk-Placed (step w z) rs z st.seg (after w z v) (stepped_self w z (step w z) st);
        later = subst (After (walk (step w z) rs) z st.seg y) (omega (arith, step-length w z v)) (
            walk-After (step w z) rs z st.seg y j (after w z v) (stepped_self w z (step w z) st) f
              (rw (some_inj e) r));
      })
walk-Kept w (z ∷ rs) x y (suc i) (suc j) v e f h r =
    subst₂ (Kept (walk (step w z) rs) x y) (omega (arith, step-length w z v))
      (omega (arith, step-length w z v))
      (walk-Kept (step w z) rs x y i j (after w z v) e f (omega arith) r)

pub assign_segments-Kept :
    (records : List PlanRecord) (x y : PlanRecord) (i j : ℕ)
    → get_elem? records i ≡ some x
    → get_elem? records j ≡ some y
    → i < j
    → required x y ≡ true
    → Kept (assign_segments records) x y i j
unfolding assign_segments start
assign_segments-Kept records x y i j e f h r =
    subst₂ (Kept (walk start records) x y) (omega arith) (omega arith)
      (walk-Kept start records x y i j start-Inv e f h r)
