-- ===== src/Partition/Plan/Assign/Fences.antt =====
-- The order that `assign_segments` (wakuwaku-iggy/src/partition/plan.rs) keeps between two records.
use wakuwaku.Base.{
  ℕ, ◌≤◌, ◌<◌, ◌==◌, ◌≡◌, ◌≢◌, sym, subst, ◌∙◌, ◌⊎◌, inl, inr, Bool, true, false, ◌&&◌, ◌||◌, List,
  some, get_elem?, arith, ℕ_discrete, get_elem?-lt, get_elem?-modify_self, Bool-cases,
}
use wakuwaku.Events.{is_acquire, is_release}
use wakuwaku.Partition.Plan.{PlanRecord, SegmentMeta}
use wakuwaku.Partition.Plan.Assign.{Walk, update, cut}
use wakuwaku.Partition.Plan.Assign.Meta.{MetasEvolve, Joins, same_at}
use wakuwaku.Partition.Plan.Assign.Stepped.{Placed, Stepped}
use wakuwaku.Partition.Plan.Assign.Steps.{stepped-after, stepped-Placed}

-- `required` of the planner's tests: the log order of `x` before `y` must be kept.
unfoldable pub required : PlanRecord → PlanRecord → Bool
required x y =
    x.key == y.key
    && (x.tag == y.tag
        || (is_acquire x.ordering || (is_release y.ordering || is_acquire y.ordering)))

-- How the plan keeps `x`, in segment `s`, before `y`, in segment `t`.
pub data Fence (ms : List SegmentMeta) (x y : PlanRecord) (s t : ℕ) : Type 0 where
  earlier : s < t → Fence ms x y s t
  together : s ≡ t → x.tag ≡ y.tag → Fence ms x y s t
  headed :
      (m : SegmentMeta)
      → s ≡ t
      → get_elem? ms s ≡ some m
      → m.head ≡ some x.tag
      → x.tag ≢ y.tag
      → Fence ms x y s t
  tailed :
      (m : SegmentMeta)
      → s ≡ t
      → get_elem? ms s ≡ some m
      → m.head ≢ some y.tag
      → m.tail ≡ some y.tag
      → x.tag ≢ y.tag
      → Fence ms x y s t

pub Fence-evolve :
    (ms ms' : List SegmentMeta) (x y : PlanRecord) (s t : ℕ)
    → MetasEvolve ms ms'
    → Fence ms x y s t
    → Fence ms' x y s t
Fence-evolve ms ms' x y s t ev (earlier h) = earlier h
Fence-evolve ms ms' x y s t ev (together e g) = together e g
Fence-evolve ms ms' x y s t ev (headed m e f h n) =
    let (m', f', v) = ev s m f in headed m' e f' (v.head ∙ h) n
Fence-evolve ms ms' x y s t ev (tailed m e f h u n) =
    let (m', f', v) = ev s m f in tailed m' e f' (λ p. h (sym v.head ∙ p)) (v.tail y.tag u) n

-- A release that joins a segment headed by its own type finds that type only.
joined_release :
    (x y : PlanRecord) (m : SegmentMeta)
    → cut y (some m) ≡ false
    → is_release y.ordering ≡ true
    → x.tag ≢ y.tag
    → ((h : ℕ) → m.mixed ≡ false → m.head ≡ some h → x.tag ≡ h)
    → m.head ≢ some y.tag
unfolding cut
joined_release x y m c r n u h = elim (Bool-cases m.mixed) [
  | inl mixed ↦ ground arith
  | inr pure ↦ n (u y.tag pure h)
]

update_release :
    (y : PlanRecord) (m : SegmentMeta)
    → cut y (some m) ≡ false
    → is_release y.ordering ≡ true
    → ((update y m).head ≡ m.head) × ((update y m).tail ≡ some y.tag)
unfolding cut update
update_release y m c r = ground arith

not_acquired :
    (y : PlanRecord) (m : SegmentMeta) → cut y (some m) ≡ false → is_acquire y.ordering ≡ false
unfolding cut
not_acquired y m c = ground arith

required_cases :
    (x y : PlanRecord)
    → required x y ≡ true
    → is_acquire y.ordering ≡ false
    → x.tag ≢ y.tag
    → (is_acquire x.ordering ≡ true) ⊎ (is_release y.ordering ≡ true)
unfolding required
required_cases x y r a n = elim (Bool-cases (is_acquire x.ordering)) [
  | inl p ↦ inl p
  | inr p ↦ inr (ground arith)
]

pub required-key : (x y : PlanRecord) → required x y ≡ true → x.key ≡ y.key
unfolding required
required-key x y r = ground arith

module _ (w : Walk) (y : PlanRecord) (w' : Walk) (st : Stepped w y w') where
  joined_Fence :
      (x : PlanRecord) (s : ℕ)
      → required x y ≡ true
      → Placed w x s
      → Joins y w.metas st.slot.open_segment st.seg w'.metas
      → s ≡ st.seg
      → x.tag ≢ y.tag
      → Fence w'.metas x y s st.seg
  joined_Fence x s r p j e n =
      let later : Placed w' x s = stepped-Placed w y w' st x s p in
      elim (required_cases x y r (not_acquired y j.meta j.kept) n) [
        | inl a ↦ headed later.meta e later.meta_is (later.acquired a) n
        | inr q ↦
            let (same_head, tail) = update_release y j.meta j.kept q in
            tailed (update y j.meta) e (at_segment (sym e))
              (λ h. joined_release x y j.meta j.kept q n (unmixed e) (sym same_head ∙ h)) tail n
      ]
    where
      unmixed : s ≡ st.seg → (h : ℕ) → j.meta.mixed ≡ false → j.meta.head ≡ some h → x.tag ≡ h
      unmixed f =
          subst (λ m. (h : ℕ) → m.mixed ≡ false → m.head ≡ some h → x.tag ≡ h)
            (same_at w.metas s st.seg f p.meta j.meta p.meta_is j.meta_is) p.unmixed

      at_segment : {u : ℕ} → st.seg ≡ u → get_elem? w'.metas u ≡ some (update y j.meta)
      at_segment f =
          rw (← f, j.metas_are) (get_elem?-modify_self (update y) st.seg w.metas j.meta j.meta_is)

  -- The record that must come after `x` is placed behind it.
  pub stepped-Fence :
      (x : PlanRecord) (s : ℕ) → required x y ≡ true → Placed w x s → Fence w'.metas x y s st.seg
  stepped-Fence x s r p =
      let after : s ≤ st.seg = stepped-after w y w' st x s (required-key x y r) p in
      elim (ℕ_discrete s st.seg) [
        | no n ↦ earlier (omega (arith, after))
        | yes e ↦ elim st.metas_are [
          | inr o ↦ earlier (omega (arith, o.seg_is, get_elem?-lt w.metas s p.meta p.meta_is))
          | inl j ↦ elim (ℕ_discrete x.tag y.tag) [
            | yes g ↦ together e g
            | no n ↦ joined_Fence x s r p j e n
          ]
        ]
      ]
