-- ===== src/Partition/Plan/Ordering.antt =====
-- The order in which `Plan::new` (wakuwaku-iggy/src/partition/plan.rs) lists the records.
use mathlib.Core.List.{Perm}
use wakuwaku.Base.{
  ℕ, ◌<◌, ◌≡◌, ◌≢◌, sym, ap, subst, ◌∙◌, ◌⊎◌, inl, inr, Bool, true, false, List, some, get_elem?,
  length, arith, some_inj, dec_lt, ℕ_discrete,
}
use wakuwaku.Partition.Plan.{PlanRecord, SegmentMeta, rank, rank_num}
use wakuwaku.Partition.Plan.Assign.{Walk, assign_segments}
use wakuwaku.Partition.Plan.Assign.Stepped.{Placed}
use wakuwaku.Partition.Plan.Assign.Fences.{
  required, required-key, Fence, earlier, together, headed, tailed,
}
use wakuwaku.Partition.Plan.Assign.Kept.{Kept, assign_segments-Kept}
use wakuwaku.Partition.Plan.Order.{SortKey, key_le, range}
use wakuwaku.Partition.Plan.Order.Sorted.{sort_by_key-IsSorted, sort_by_key-perm, IsSorted-get}
use wakuwaku.Partition.Plan.Build.{
  sort_key, order_of, meta_key, meta_rank, meta_key_at, meta_rank_at, tag_of_lem, segment_at_lem,
}

-- `x`, of segment `s`, is handled before `y`, of segment `t`, or in the same run.
abbrev pub Ahead : List SegmentMeta → PlanRecord → PlanRecord → ℕ → ℕ → Type 0
Ahead ms x y s t =
    (s < t)
    ⊎ ((s ≡ t)
        × ((x.tag ≡ y.tag) ⊎ (rank_num (meta_rank ms s x.tag) < rank_num (meta_rank ms t y.tag))))

headed_rank :
    (m : SegmentMeta) (a b : ℕ)
    → m.head ≡ some a
    → a ≢ b
    → rank_num (rank m a) < rank_num (rank m b)
unfolding rank
headed_rank m a b h n = ground arith

tailed_rank :
    (m : SegmentMeta) (a b : ℕ)
    → m.head ≢ some b
    → m.tail ≡ some b
    → a ≢ b
    → rank_num (rank m a) < rank_num (rank m b)
unfolding rank
tailed_rank m a b h t n = ground arith

-- Two records of one segment, ranked by its metadata.
ranks :
    (ms : List SegmentMeta) (s t a b : ℕ) (m : SegmentMeta)
    → s ≡ t
    → get_elem? ms s ≡ some m
    → rank_num (rank m a) < rank_num (rank m b)
    → rank_num (meta_rank ms s a) < rank_num (meta_rank ms t b)
ranks ms s t a b m e f h =
    subst (λ u. rank_num (meta_rank ms s a) < rank_num (meta_rank ms u b)) e
      (omega
        (arith, ap rank_num (meta_rank_at ms s a m f), ap rank_num (meta_rank_at ms s b m f), h))

pub Fence-Ahead :
    (ms : List SegmentMeta) (x y : PlanRecord) (s t : ℕ) → Fence ms x y s t → Ahead ms x y s t
Fence-Ahead ms x y s t (earlier h) = inl h
Fence-Ahead ms x y s t (together e g) = inr (e, inl g)
Fence-Ahead ms x y s t (headed m e f h n) =
    inr (e, inr (ranks ms s t x.tag y.tag m e f (headed_rank m x.tag y.tag h n)))
Fence-Ahead ms x y s t (tailed m e f h u n) =
    inr (e, inr (ranks ms s t x.tag y.tag m e f (tailed_rank m x.tag y.tag h u n)))

-- Records of one key have segments of one key.
same_key :
    (w : Walk) (x y : PlanRecord) (s t : ℕ)
    → x.key ≡ y.key
    → Placed w x s
    → Placed w y t
    → meta_key w.metas s ≡ meta_key w.metas t
same_key w x y s t k p q =
    let slots : p.slot ≡ q.slot =
      some_inj (sym p.slot_is ∙ subst (λ z. w.slots z ≡ some q.slot) (sym k) q.slot_is) in
    meta_key_at w.metas s p.meta p.meta_is
    ∙ p.key_is
    ∙ ap (λ z. z.index) slots
    ∙ sym q.key_is
    ∙ sym (meta_key_at w.metas t q.meta q.meta_is)

SortKey-later :
    (a b : SortKey)
    → a.key ≡ b.key
    → a.index < b.index
    → (a.segment < b.segment)
      ⊎ ((a.segment ≡ b.segment) × (((a.tag ≡ b.tag) × (a.rank ≡ b.rank)) ⊎ (a.rank < b.rank)))
    → key_le b a ≡ false
unfolding key_le
SortKey-later a b k n h = ground arith

key_le-false :
    (records : List PlanRecord) (ms : List SegmentMeta) (segment_of : List ℕ) (x y : PlanRecord)
    (i j s t : ℕ)
    → get_elem? records i ≡ some x
    → get_elem? records j ≡ some y
    → get_elem? segment_of i ≡ some s
    → get_elem? segment_of j ≡ some t
    → i < j
    → meta_key ms s ≡ meta_key ms t
    → Ahead ms x y s t
    → key_le (sort_key records ms segment_of j) (sort_key records ms segment_of i) ≡ false
unfolding sort_key
key_le-false records ms segment_of x y i j s t e f g h n k a =
    SortKey-later (sort_key records ms segment_of i) (sort_key records ms segment_of j)
      (rw (segment_at_lem segment_of i s g, segment_at_lem segment_of j t h) k) n
      (rw
        (
          segment_at_lem segment_of i s g,
          segment_at_lem segment_of j t h,
          tag_of_lem records i x e,
          tag_of_lem records j y f,
        )
        (lexed a))
  where
    lexed :
        Ahead ms x y s t
        → (s < t)
          ⊎ ((s ≡ t)
              × (((x.tag ≡ y.tag)
                    × (rank_num (meta_rank ms s x.tag) ≡ rank_num (meta_rank ms t y.tag)))
                  ⊎ (rank_num (meta_rank ms s x.tag) < rank_num (meta_rank ms t y.tag))))
    lexed (inl p) = inl p
    lexed (inr (p, inl q)) = inr (p, inl (q, cc))
    lexed (inr (p, inr q)) = inr (p, inr q)

clash : {b : Bool} → b ≡ true → b ≡ false → ⊥
clash p q = cc

module _ (records : List PlanRecord) (x y : PlanRecord) (i j : ℕ)
    (at_i : get_elem? records i ≡ some x) (at_j : get_elem? records j ≡ some y) (before : i < j)
    (needed : required x y ≡ true) where
  abbrev w : Walk
  w = assign_segments records

  abbrev kept : Kept w x y i j
  kept = assign_segments-Kept records x y i j at_i at_j before needed

  -- If the log order of two records must be kept, both are given a segment, and the earlier one is
  -- in an earlier segment, or in an earlier stage of the same segment, or in the same run.
  pub assign_segments-Ahead :
      (s : ℕ) × (t : ℕ) × (get_elem? w.segment_of i ≡ some s)
      × (get_elem? w.segment_of j ≡ some t)
      × Ahead w.metas x y s t
  assign_segments-Ahead = (
    kept.segment,
    kept.later.segment,
    kept.segment_is,
    kept.later.segment_is,
    Fence-Ahead w.metas x y kept.segment kept.later.segment kept.later.fence,
  )

  sort_key-later :
      key_le (sort_key records w.metas w.segment_of j) (sort_key records w.metas w.segment_of i)
      ≡ false
  sort_key-later =
      key_le-false records w.metas w.segment_of x y i j kept.segment kept.later.segment at_i at_j
        kept.segment_is kept.later.segment_is before
        (same_key w x y kept.segment kept.later.segment (required-key x y needed) kept.placed
          kept.later.placed)
        (Fence-Ahead w.metas x y kept.segment kept.later.segment kept.later.fence)

  -- If the log order of two records must be kept, the earlier one comes first in the plan's order.
  pub order-respects :
      (a b : ℕ)
      → get_elem? (order_of records) a ≡ some i
      → get_elem? (order_of records) b ≡ some j
      → a < b
  unfolding order_of
  order-respects a b e f = elim (dec_lt a b) [
    | yes p ↦ p
    | no n ↦ elim (ℕ_discrete a b) [
      | yes p ↦ absurd (omega (arith, some_inj (sym e ∙ ap (get_elem? (order_of records)) p ∙ f)))
      | no m ↦ absurd (
          clash
            (IsSorted-get (sort_key records w.metas w.segment_of) (order_of records) b a j i
              (sort_by_key-IsSorted (sort_key records w.metas w.segment_of)
                (range 0 (length records)))
              (omega arith) f e)
            sort_key-later)
    ]
  ]

-- The plan's order holds each index of the batch once.
pub order-perm : (records : List PlanRecord) → Perm (order_of records) (range 0 (length records))
unfolding order_of
order-perm records =
    let w = assign_segments records in
    sort_by_key-perm (sort_key records w.metas w.segment_of) (range 0 (length records))
