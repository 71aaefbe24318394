-- ===== src/Partition/Plan/Assign/Each.antt =====
-- Every record gets a segment, of a key that the plan has (`assign_segments` of
-- wakuwaku-iggy/src/partition/plan.rs).
use wakuwaku.Base.{
  ℕ, zero, suc, ◌+◌, ◌<◌, ◌≡◌, ◌≢◌, ◌≤◌, refl, sym, ap, subst, List, [], ◌∷◌, ◌++◌, Option, none,
  some, get_elem?, length, arith, get_elem?-lt, some_inj, ◌⊎◌, inl, inr,
}
use native.Mathlib.Nat.{add-zero}
use wakuwaku.Partition.Plan.{PlanRecord, KeyPlan}
use wakuwaku.Partition.Plan.Assign.{
  Slot, Walk, set_slot, entry, place, step, walk, start, assign_segments,
}
use wakuwaku.Partition.Plan.Assign.Stepped.{Inv, Placed, Stepped, step-Stepped, start-Inv}
use wakuwaku.Partition.Plan.Assign.Steps.{stepped_self}
use wakuwaku.Partition.Plan.Assign.Kept.{after, walk-Placed, head-segment, step-length}

-- None of the keys has a segment yet.
abbrev pub AllEmpty : List KeyPlan → Type 0
AllEmpty [] = Unit {0}
AllEmpty (k ∷ ks) = (k.segments.start ≡ k.segments.end) × AllEmpty ks

AllEmpty-last :
    (ks : List KeyPlan) (k : KeyPlan)
    → AllEmpty ks
    → k.segments.start ≡ k.segments.end
    → AllEmpty (ks ++ k ∷ [])
AllEmpty-last [] k a e = (e, tt)
AllEmpty-last (x ∷ ks) k (b, a) e = (b, AllEmpty-last ks k a e)

entry-AllEmpty :
    (o : Option Slot) (r : PlanRecord) (ks : List KeyPlan) → AllEmpty ks → AllEmpty (entry o r ks).1
unfolding entry
entry-AllEmpty (some slot) r ks a = a
entry-AllEmpty none r ks a = AllEmpty-last ks _ a refl

walk-AllEmpty : (w : Walk) (rs : List PlanRecord) → AllEmpty w.keys → AllEmpty (walk w rs).keys
unfolding walk step place
walk-AllEmpty w [] a = a
walk-AllEmpty w (r ∷ rs) a = walk-AllEmpty (step w r) rs (entry-AllEmpty (w.slots r.key) r w.keys a)

pub assign_segments-AllEmpty : (records : List PlanRecord) → AllEmpty (assign_segments records).keys
unfolding assign_segments start
assign_segments-AllEmpty records = walk-AllEmpty start records tt

walk-Inv : (w : Walk) (rs : List PlanRecord) → Inv w → Inv (walk w rs)
unfolding walk
walk-Inv w [] v = v
walk-Inv w (r ∷ rs) v = walk-Inv (step w r) rs (after w r v)

-- Where the record of an index was placed.
pub record Found (w : Walk) (i : ℕ) (x : PlanRecord) : Type 0 where
  pub segment : ℕ
  pub segment_is : get_elem? w.segment_of i ≡ some segment
  pub placed : Placed w x segment

walk-Found :
    (w : Walk) (rs : List PlanRecord) (i : ℕ) (x : PlanRecord)
    → Inv w
    → get_elem? rs i ≡ some x
    → Found (walk w rs) (length w.segment_of + i) x
unfolding walk
walk-Found w [] i x v e = absurd (cc)
walk-Found w (r ∷ rs) zero x v e =
    let st : Stepped w r (step w r) = step-Stepped w r v in
    subst (Found (walk (step w r) rs) (length w.segment_of + 0)) (some_inj e) (record {
      segment = st.seg;
      segment_is = rw add-zero (head-segment w r rs v);
      placed = walk-Placed (step w r) rs r st.seg (after w r v) (stepped_self w r (step w r) st);
    })
walk-Found w (r ∷ rs) (suc i) x v e =
    subst (λ (j : ℕ). Found (walk (step w r) rs) j x) (omega (arith, step-length w r v))
      (walk-Found (step w r) rs i x (after w r v) e)

-- The metadata of a record's segment name a key of the plan.
pub assign_segments-keyed :
    (records : List PlanRecord) (i : ℕ) (x : PlanRecord)
    → get_elem? records i ≡ some x
    → let w = assign_segments records in (f : Found w i x) × (f.placed.meta.key < length w.keys)
unfolding assign_segments start
assign_segments-keyed records i x e =
    let w = assign_segments records in
    let f : Found w i x =
      subst (λ (j : ℕ). Found w j x) (omega arith) (walk-Found start records i x start-Inv e) in
    let valid = walk-Inv start records start-Inv x.key f.placed.slot f.placed.slot_is in
    (
      f,
      omega (
        arith,
        f.placed.key_is,
        get_elem?-lt w.keys f.placed.slot.index valid.plan valid.plan_is,
      ),
    )

-- All the records have one key.
abbrev pub AllKey : ℕ → List PlanRecord → Type 0
AllKey k [] = Unit {0}
AllKey k (r ∷ rs) = (r.key ≡ k) × AllKey k rs

-- Either no record was seen, or the key is known and no other.
abbrev OneKey : ℕ → Walk → Type 0
OneKey k w = ((w.slots k ≡ none) × (w.keys ≡ [])) ⊎ ((w.slots k ≢ none) × (length w.keys ≡ 1))

set_slot_self : (j k : ℕ) (s : Slot) (slots : ℕ → Option Slot) → j ≡ k → set_slot j s slots k ≢ none
set_slot_self j k s slots e f = absurd (ground (arith, e, f))

one_more : (ks : List KeyPlan) (k : KeyPlan) → ks ≡ [] → length (ks ++ k ∷ []) ≡ 1
one_more ks k e = ap (λ (l : List KeyPlan). length (l ++ k ∷ [])) e

place-OneKey :
    (k : ℕ) (w : Walk) (r : PlanRecord)
    → r.key ≡ k
    → (o : Option Slot) → w.slots k ≡ o
    → OneKey k w
    → OneKey k (place r w (entry o r w.keys))
unfolding place entry
place-OneKey k w r e none f (inl (_, g)) =
    inr (set_slot_self r.key k _ w.slots e, one_more w.keys _ g)
place-OneKey k w r e none f (inr (h, g)) = absurd (h f)
place-OneKey k w r e (some s) f (inl (h, g)) = absurd (cc)
place-OneKey k w r e (some s) f (inr (h, g)) = inr (set_slot_self r.key k _ w.slots e, g)

walk-OneKey :
    (k : ℕ) (w : Walk) (rs : List PlanRecord) → AllKey k rs → OneKey k w → OneKey k (walk w rs)
unfolding walk step
walk-OneKey k w [] a o = o
walk-OneKey k w (r ∷ rs) (e, a) o = walk-OneKey k (step w r) rs a (
    subst (λ (j : ℕ). OneKey k (place r w (entry (w.slots j) r w.keys))) (sym e)
      (place-OneKey k w r e (w.slots k) refl o))

-- Records of one key make a plan of at most one key.
pub assign_segments-one_key :
    (k : ℕ) (records : List PlanRecord)
    → AllKey k records
    → length (assign_segments records).keys ≤ 1
unfolding assign_segments start
assign_segments-one_key k records a = elim (walk-OneKey k start records a (inl (refl, refl))) [
  | inl (_, e) ↦ omega (arith, ap length e)
  | inr (_, e) ↦ omega arith
]
