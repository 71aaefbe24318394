-- ===== src/Partition/Plan/Tiling/Sorted.antt =====
-- In the order of `Plan::new` (wakuwaku-iggy/src/partition/plan.rs) each record may come right after
-- the one before it.
use wakuwaku.Base.{
  ℕ, ◌≤◌, ◌<◌, ◌≡◌, ◌≢◌, sym, ap, ◌∙◌, List, [], ◌∷◌, get_elem?, true, false, arith, ℕ_discrete,
  Option-cases, inl, inr, ==_iff,
}
use wakuwaku.Partition.Plan.{PlanRecord, SegmentMeta, Rank, rank, rank_num}
use wakuwaku.Partition.Plan.Order.{SortKey, key_le}
use wakuwaku.Partition.Plan.Order.Sorted.{IsSorted}
use wakuwaku.Partition.Plan.Build.{
  OpenRun, meta_key, meta_rank, meta_rank_at, same_run, run_here, sort_key, tag_of, segment_at,
}
use wakuwaku.Partition.Plan.Tiling.Scan.{here, Step, Chained}
use wakuwaku.Partition.Plan.Tiling.Exact.{AllChained}

-- Only the body of a segment may hold two tags.
rank_body :
    (m : SegmentMeta) (a b : ℕ)
    → rank_num (rank m a) ≡ rank_num (rank m b)
    → a ≢ b
    → (rank_num (rank m a) < 2) × (0 < rank_num (rank m b))
unfolding rank
rank_body m a b e n = ground arith

rank_bound : (r : Rank) → rank_num r < 3
rank_bound r = ground arith

meta_rank_body :
    (metas : List SegmentMeta) (s a b : ℕ)
    → rank_num (meta_rank metas s a) ≡ rank_num (meta_rank metas s b)
    → a ≢ b
    → (rank_num (meta_rank metas s a) < 2) × (0 < rank_num (meta_rank metas s b))
meta_rank_body metas s a b e n = elim (Option-cases (get_elem? metas s)) [
  | inl h ↦ (ground (arith, h), ground (arith, h))
  | inr (m, h) ↦
      let (p, q) =
        rank_body m a b
          (sym (ap rank_num (meta_rank_at metas s a m h))
            ∙ e
            ∙ ap rank_num (meta_rank_at metas s b m h))
          n in
      (
        omega (arith, ap rank_num (meta_rank_at metas s a m h)),
        omega (arith, ap rank_num (meta_rank_at metas s b m h)),
      )
]

key_le-ranks :
    (a b : SortKey)
    → key_le a b ≡ true
    → (a.key ≤ b.key) × (a.key ≡ b.key → a.segment ≡ b.segment → a.rank ≤ b.rank)
unfolding key_le
key_le-ranks a b h = (ground arith, λ p q. ground arith)

same_run-false :
    (r h : OpenRun)
    → same_run r h ≡ false
    → r.segment ≡ h.segment
    → rank_num r.rank ≡ rank_num h.rank
    → r.tag ≢ h.tag
same_run-false r h d p q e = absurd (
    ground (
      arith,
      ==_iff r.segment h.segment,
      ==_iff (rank_num r.rank) (rank_num h.rank),
      ==_iff r.tag h.tag,
    ))

module _ (records : List PlanRecord) (metas : List SegmentMeta) (segment_of : List ℕ) where
  key_le-Step :
      (i j : ℕ)
      → key_le (sort_key records metas segment_of i) (sort_key records metas segment_of j) ≡ true
      → Step records metas segment_of
          (here records metas segment_of i)
          (here records metas segment_of j)
  unfolding sort_key run_here
  key_le-Step i j h =
      let (p, r) =
        key_le-ranks (sort_key records metas segment_of i) (sort_key records metas segment_of j)
          h in
      record {
        key_le = p;
        stage_lt = λ d q.
            let l = r (ap (meta_key metas) q) q in
            elim (ℕ_discrete (rank_num (here records metas segment_of i).rank)
              (rank_num (here records metas segment_of j).rank)) [
                | yes e ↦
                    let n =
                      same_run-false (here records metas segment_of i)
                        (here records metas segment_of j) d q e in
                    let same : meta_rank metas (segment_at segment_of i) (tag_of records j)
                        ≡ meta_rank metas (segment_at segment_of j) (tag_of records j) =
                      ap (λ (x : ℕ). meta_rank metas x (tag_of records j)) q in
                    let (u, v) =
                      meta_rank_body metas (segment_at segment_of i) (tag_of records i)
                        (tag_of records j) (e ∙ sym (ap rank_num same)) n in
                    (u, omega (arith, ap rank_num same))
                | no e ↦
                    (omega (arith, rank_bound (here records metas segment_of j).rank), omega arith)
              ];
      }

  abbrev pub AllIn : ℕ → List ℕ → Type 0
  AllIn n [] = Unit {0}
  AllIn n (i ∷ is) = (meta_key metas (here records metas segment_of i).segment < n) × AllIn n is

  sorted-Chained :
      (n i : ℕ) (is : List ℕ)
      → IsSorted (sort_key records metas segment_of) (i ∷ is)
      → AllIn n is
      → Chained records metas segment_of n (here records metas segment_of i) is
  sorted-Chained n i [] s a = tt
  sorted-Chained n i (j ∷ is) ((h, _), s) (m, a) = (key_le-Step i j h, m, sorted-Chained n j is s a)

  pub sorted-AllChained :
      (n : ℕ) (order : List ℕ)
      → IsSorted (sort_key records metas segment_of) order
      → AllIn n order
      → AllChained records metas segment_of n order
  sorted-AllChained n [] s a = tt
  sorted-AllChained n (i ∷ is) s (m, a) = (m, sorted-Chained n i is s a)
