-- ===== src/Partition/Plan/Tiling/Exact.antt =====
-- The rest of `Plan::new` after the sort (wakuwaku-iggy/src/partition/plan.rs) loses no record and
-- doubles none.
use wakuwaku.Base.{
  ℕ, ◌+◌, ◌<◌, ◌≡◌, refl, ap, ◌∙◌, subst, List, [], ◌∷◌, Option, none, some, length, arith,
}
use wakuwaku.Partition.Plan.{PlanRecord, KeyPlan, Plan, SegmentMeta}
use wakuwaku.Partition.Plan.Reading.{keys_records, segments_records, records_of}
use wakuwaku.Partition.Plan.Build.{
  Builder, OpenRun, meta_key, close_run, finish_segment, run_here, scan, scan_step, build,
}
use wakuwaku.Partition.Plan.Tiling.Ranges.{slice-full, records_of-Tiles}
use wakuwaku.Partition.Plan.Tiling.Segments.{segments_records-SegmentTiles}
use wakuwaku.Partition.Plan.Assign.Each.{AllEmpty}
use wakuwaku.Partition.Plan.Tiling.Keys.{KeysAt-empty, keys_records-KeysAt}
use wakuwaku.Partition.Plan.Tiling.Pushed.{Closed, none_open, finish_segment-Closed}
use wakuwaku.Partition.Plan.Tiling.Scan.{here, Chained, Finished, scan-Finished}

module _ (records : List PlanRecord) (metas : List SegmentMeta) (segment_of : List ℕ) where
  -- A builder that is closed at the end of the order makes a plan of all its records.
  Closed-exact :
      (order : List ℕ) (b : Builder)
      → Closed metas b (length order)
      → let plan : Plan = record {
        order = order;
        runs = b.runs;
        segments = b.segments;
        keys = b.keys;
      } in
        keys_records plan b.keys ≡ order
  Closed-exact order b c =
      let plan : Plan = record {
        order = order;
        runs = b.runs;
        segments = b.segments;
        keys = b.keys;
      } in
      keys_records-KeysAt plan 0 b.keys c.last_key (length b.segments) c.keys_at
      ∙ ap (segments_records plan) (slice-full b.segments (length b.segments) refl)
      ∙ segments_records-SegmentTiles plan 0 b.segments (length b.runs) c.segments_tile
      ∙ ap (records_of plan) (slice-full b.runs (length b.runs) refl)
      ∙ records_of-Tiles plan 0 b.runs (length order) c.tiles
      ∙ slice-full order (length order) refl

  abbrev empty_builder : List KeyPlan → Builder
  empty_builder keys = record { runs = []; segments = []; keys = keys; open_segment = none }

  abbrev Closed-start : (keys : List KeyPlan) → AllEmpty keys → Closed metas (empty_builder keys) 0
  Closed-start keys e = record {
    open_is = refl;
    tiles = refl;
    segments_tile = refl;
    last_key = 0;
    keys_at = KeysAt-empty 0 keys e;
  }

  -- The order of a plan is one that the scan can take.
  abbrev pub AllChained : ℕ → List ℕ → Type 0
  AllChained n [] = Unit {0}
  AllChained n (i ∷ is) =
      (meta_key metas (here records metas segment_of i).segment < n)
      × Chained records metas segment_of n (here records metas segment_of i) is

  Finished-exact :
      (order : List ℕ) (n p : ℕ) (run : Option OpenRun) (b : Builder)
      → Finished records metas segment_of n p (close_run metas p run b)
      → p ≡ length order
      → let done = finish_segment metas (close_run metas (length order) run b) in
        let plan : Plan = record {
          order = order;
          runs = done.runs;
          segments = done.segments;
          keys = done.keys;
        } in
        (keys_records plan done.keys ≡ order) × (length done.keys ≡ n)
  Finished-exact order n p run b f e =
      let g =
        subst (λ (x : ℕ). Finished records metas segment_of n x (close_run metas x run b)) e f in
      let (d, _, k) =
        finish_segment-Closed metas (close_run metas (length order) run b) g.segment g.pushed.seg
          (length order) g.pushed.holds in
      (
        Closed-exact order (finish_segment metas (close_run metas (length order) run b)) d,
        k ∙ g.keys_keep,
      )

  pub build-exact :
      (keys : List KeyPlan) (order : List ℕ)
      → AllEmpty keys
      → AllChained (length keys) order
      → (keys_records
            (build records metas segment_of keys order)
            (build records metas segment_of keys order).keys
          ≡ order)
        × (length (build records metas segment_of keys order).keys ≡ length keys)
  unfolding build scan scan_step run_here close_run finish_segment
  build-exact keys [] e c = (Closed-exact [] (empty_builder keys) (Closed-start keys e), refl)
  build-exact keys (i ∷ is) e (m, c) =
      Finished-exact (i ∷ is) (length keys) (1 + length is)
        (scan records metas segment_of 1 is
          (some (here records metas segment_of i), empty_builder keys)).0
        (scan records metas segment_of 1 is
          (some (here records metas segment_of i), empty_builder keys)).1
        (scan-Finished records metas segment_of (length keys) is 1 (here records metas segment_of i)
          (empty_builder keys) (none_open (Closed-start keys e) (omega arith) m) (omega arith) refl
          c)
        (omega arith)
