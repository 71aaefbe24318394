-- ===== src/Partition/Plan/Tiling/Segments.antt =====
-- Segments that follow one another.
use wakuwaku.Base.{
  ℕ, suc, ◌≤◌, ◌≡◌, refl, sym, ap, ap₂, ◌∙◌, subst, List, [], ◌∷◌, ◌++◌, none, some, ◌⊎◌, inl, inr,
  arith,
}
use wakuwaku.Partition.Plan.{Run, Segment, Plan}
use wakuwaku.Partition.Plan.View
use wakuwaku.Partition.Plan.View.{slice}
use wakuwaku.Partition.Plan.Reading.{to_list, records_of, all_runs, segments_records}
use wakuwaku.Partition.Plan.Tiling.Ranges.{
  span, slice-append, slice-empty, slice-one, records_of-append,
}

-- The segment's stages, one after another, are the runs from `a` to `b`.
abbrev HeadAt : ℕ → Segment → Type 0
HeadAt a s = ((s.head ≡ none) × (s.body.start ≡ a)) ⊎ ((s.head ≡ some a) × (s.body.start ≡ suc a))

abbrev TailAt : Segment → ℕ → Type 0
TailAt s b =
    ((s.tail ≡ none) × (s.body.end ≡ b)) ⊎ ((s.tail ≡ some s.body.end) × (suc s.body.end ≡ b))

pub record Covers (s : Segment) (a b : ℕ) : Type 0 where
  pub head_at : HeadAt a s
  pub body_le : s.body.start ≤ s.body.end
  pub tail_at : TailAt s b

-- The segments cut the runs from `a` to `b` into pieces.
abbrev pub SegmentTiles : ℕ → List Segment → ℕ → Type 0
SegmentTiles a [] b = a ≡ b
SegmentTiles a (s ∷ ss) b = (m : ℕ) × Covers s a m × SegmentTiles m ss b

pub SegmentTiles-append :
    (a : ℕ) (ss : List Segment) (b c : ℕ) (s : Segment)
    → SegmentTiles a ss b
    → Covers s b c
    → SegmentTiles a (ss ++ s ∷ []) c
SegmentTiles-append a [] b c s t v = (c, subst (λ (x : ℕ). Covers s x c) (sym t) v, refl)
SegmentTiles-append a (r ∷ ss) b c s (m, w, t) v = (m, w, SegmentTiles-append m ss b c s t v)

Covers-le : (s : Segment) (a b : ℕ) → Covers s a b → a ≤ b
Covers-le s a b v = ground arith

module _ (plan : Plan) where
  head_runs :
      (s : Segment) (a : ℕ)
      → HeadAt a s
      → to_list (View.head plan s) ≡ slice plan.runs (span a s.body.start)
  unfolding View.head
  head_runs s a (inl (h, e)) =
      rw (View.head, h)
        (sym (slice-empty a plan.runs) ∙ ap (λ (x : ℕ). slice plan.runs (span a x)) (sym e))
  head_runs s a (inr (h, e)) =
      rw (View.head, h) (slice-one plan.runs a ∙ ap (λ (x : ℕ). slice plan.runs (span a x)) (sym e))

  tail_runs :
      (s : Segment) (b : ℕ)
      → TailAt s b
      → to_list (View.tail plan s) ≡ slice plan.runs (span s.body.end b)
  unfolding View.tail
  tail_runs s b (inl (t, e)) =
      rw (View.tail, t)
        (sym (slice-empty s.body.end plan.runs)
          ∙ ap (λ (x : ℕ). slice plan.runs (span s.body.end x)) e)
  tail_runs s b (inr (t, e)) =
      rw (View.tail, t)
        (slice-one plan.runs s.body.end ∙ ap (λ (x : ℕ). slice plan.runs (span s.body.end x)) e)

  all_runs-Covers :
      (s : Segment) (a b : ℕ) → Covers s a b → all_runs plan s ≡ slice plan.runs (span a b)
  unfolding View.body
  all_runs-Covers s a b v =
      ap₂ (λ (xs ys : List Run). xs ++ View.body plan s ++ ys) (head_runs s a v.head_at)
        (tail_runs s b v.tail_at)
      ∙ ap (λ (xs : List Run). xs ++ slice plan.runs (span s.body.end b))
          (slice-append a s.body.start s.body.end plan.runs (ground (arith, v.head_at)) v.body_le)
      ∙ slice-append a s.body.end b plan.runs (ground (arith, v.head_at, v.body_le))
          (ground (arith, v.tail_at))

  SegmentTiles-le : (a : ℕ) (ss : List Segment) (b : ℕ) → SegmentTiles a ss b → a ≤ b
  SegmentTiles-le a [] b t = omega arith
  SegmentTiles-le a (s ∷ ss) b (m, v, t) =
      omega (arith, Covers-le s a m v, SegmentTiles-le m ss b t)

  -- Segments that are tiles hold the records of the runs between the ends.
  pub segments_records-SegmentTiles :
      (a : ℕ) (ss : List Segment) (b : ℕ)
      → SegmentTiles a ss b
      → segments_records plan ss ≡ records_of plan (slice plan.runs (span a b))
  segments_records-SegmentTiles a [] b t =
      sym (ap (records_of plan) (slice-empty a plan.runs))
      ∙ ap (λ (x : ℕ). records_of plan (slice plan.runs (span a x))) t
  segments_records-SegmentTiles a (s ∷ ss) b (m, v, t) =
      ap₂ (λ (xs ys : List ℕ). xs ++ ys) (ap (records_of plan) (all_runs-Covers s a m v))
        (segments_records-SegmentTiles m ss b t)
      ∙ sym (records_of-append plan (slice plan.runs (span a m)) (slice plan.runs (span m b)))
      ∙ ap (records_of plan)
          (slice-append a m b plan.runs (Covers-le s a m v) (SegmentTiles-le m ss b t))
