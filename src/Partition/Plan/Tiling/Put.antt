-- ===== src/Partition/Plan/Tiling/Put.antt =====
-- Where `push_run` puts a run in its segment (wakuwaku-iggy/src/partition/plan.rs).
use wakuwaku.Base.{ℕ, suc, ◌<◌, ◌≡◌, refl, sym, ap, inl, inr, none, some, arith}
use wakuwaku.Partition.Plan.{Segment, Rank, rank_num}
use wakuwaku.Partition.Plan.Build.{put_run}
use wakuwaku.Partition.Plan.Tiling.Ranges.{span}
use wakuwaku.Partition.Plan.Tiling.Segments.{Covers}

-- The first run of a segment.
pub put_run-new :
    (rank : Rank) (n : ℕ)
    → let seg = put_run rank n (record { head = none; body = span n n; tail = none }) in
      Covers seg n (suc n) × (rank_num rank < 2 → seg.tail ≡ none)
unfolding put_run
put_run-new Rank.head n = (
  record { head_at = inr (refl, refl); body_le = omega arith; tail_at = inl (refl, refl) },
  λ h. refl,
)
put_run-new Rank.body n = (
  record { head_at = inl (refl, refl); body_le = omega arith; tail_at = inl (refl, refl) },
  λ h. refl,
)
put_run-new Rank.tail n = (
  record { head_at = inl (refl, refl); body_le = omega arith; tail_at = inr (refl, refl) },
  λ h. absurd (omega arith),
)

-- A further run of a segment.
pub put_run-more :
    (rank : Rank) (s : Segment) (a n : ℕ)
    → Covers s a n
    → s.tail ≡ none
    → 0 < rank_num rank
    → let seg = put_run rank n s in Covers seg a (suc n) × (rank_num rank < 2 → seg.tail ≡ none)
unfolding put_run
put_run-more Rank.head s a n v t h = absurd (omega arith)
put_run-more Rank.body s a n v t h = (
  record {
    head_at = v.head_at;
    body_le = ground (arith, v.body_le, v.tail_at);
    tail_at = inl (t, refl);
  },
  λ h. t,
)
put_run-more Rank.tail s a n v t h = (
  record {
    head_at = v.head_at;
    body_le = v.body_le;
    tail_at =
        let e : s.body.end ≡ n = ground (arith, v.tail_at, t) in inr (ap some (sym e), ap suc e);
  },
  λ h. absurd (omega arith),
)
