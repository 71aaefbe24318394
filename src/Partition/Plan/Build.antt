-- ===== src/Partition/Plan/Build.antt =====
-- `Plan::new` and `Builder` of wakuwaku-iggy/src/partition/plan.rs: the scan of the sorted order
-- into runs and segments.
use wakuwaku.Base.{
  ℕ, suc, ◌==◌, Bool, false, ◌&&◌, not, ◌≡◌, arith, List, [], ◌∷◌, ◌++◌, Option, none, some,
  get_elem?, length, modify, if◌then◌else◌,
}
use wakuwaku.Partition.Plan.{
  PlanRecord, Range, KeyPlan, Segment, Run, Plan, SegmentMeta, Rank, rank, rank_num,
}
use wakuwaku.Partition.Plan.Assign.{assign_segments}
use wakuwaku.Partition.Plan.Order.{SortKey, sort_by_key, range}

pub record Builder : Type 0 where
  pub runs : List Run
  pub segments : List Segment
  pub keys : List KeyPlan
  pub open_segment : Option (ℕ × Segment)

-- `metas[i].key`
abbrev pub meta_key : List SegmentMeta → ℕ → ℕ
meta_key metas i = elim (get_elem? metas i) [ none ↦ 0 | some m ↦ m.key ]

-- `metas[i].rank(tag)`
abbrev pub meta_rank : List SegmentMeta → ℕ → ℕ → Rank
meta_rank metas i tag = elim (get_elem? metas i) [ none ↦ Rank.body | some m ↦ rank m tag ]

-- `records[i].tag`
abbrev pub tag_of : List PlanRecord → ℕ → ℕ
tag_of records i = elim (get_elem? records i) [ none ↦ 0 | some r ↦ r.tag ]

-- `segment_of[i]`
abbrev pub segment_at : List ℕ → ℕ → ℕ
segment_at segment_of i = elim (get_elem? segment_of i) [ none ↦ 0 | some s ↦ s ]

pub meta_key_at :
    (ms : List SegmentMeta) (s : ℕ) (m : SegmentMeta)
    → get_elem? ms s ≡ some m
    → meta_key ms s ≡ m.key
meta_key_at ms s m e = ground arith

pub meta_rank_at :
    (ms : List SegmentMeta) (s tag : ℕ) (m : SegmentMeta)
    → get_elem? ms s ≡ some m
    → meta_rank ms s tag ≡ rank m tag
meta_rank_at ms s tag m e = ground arith

pub tag_of_lem :
    (records : List PlanRecord) (i : ℕ) (x : PlanRecord)
    → get_elem? records i ≡ some x
    → tag_of records i ≡ x.tag
tag_of_lem records i x e = ground arith

pub segment_at_lem :
    (segment_of : List ℕ) (i s : ℕ) → get_elem? segment_of i ≡ some s → segment_at segment_of i ≡ s
segment_at_lem segment_of i s e = ground arith

-- The new range of a key whose segment `index` was finished.
unfoldable pub extend_range : ℕ → Range → Range
extend_range index r =
    if r.start == r.end
    then record { start = index; end = suc index }
    else record r { end = suc index }

unfoldable pub finish_open : List SegmentMeta → Builder → Option (ℕ × Segment) → Builder
unfolding extend_range
finish_open metas b none = b
finish_open metas b (some (meta, segment)) = record {
  runs = b.runs;
  segments = b.segments ++ segment ∷ [];
  keys =
      modify (λ k. record k { segments = extend_range (length b.segments) k.segments })
        (meta_key metas meta) b.keys;
  open_segment = none;
}

unfoldable pub finish_segment : List SegmentMeta → Builder → Builder
unfolding finish_open
finish_segment metas b = finish_open metas b b.open_segment

-- `self.open.as_ref().is_some_and(|(open, _)| *open != segment)`
abbrev pub is_other : Option (ℕ × Segment) → ℕ → Bool
is_other none segment = false
is_other (some (o, _)) segment = not (o == segment)

-- `self.open.get_or_insert(..)` for the run of number `index`.
unfoldable pub opened : Option (ℕ × Segment) → ℕ → ℕ → ℕ × Segment
opened (some o) segment index = o
opened none segment index =
    (segment, record { head = none; body = record { start = index; end = index }; tail = none })

-- The place of the run of number `index` in its segment.
unfoldable pub put_run : Rank → ℕ → Segment → Segment
put_run Rank.head index s = record s {
  head = some index;
  body = record { start = suc index; end = suc index };
}
put_run Rank.body index s = record s { body = record { start = s.body.start; end = suc index } }
put_run Rank.tail index s = record s { tail = some index }

unfoldable pub add_run : ℕ → Rank → ℕ → Range → Builder → Builder
unfolding opened put_run
add_run segment rank tag records b =
    let index = length b.runs in
    let (meta, building) = opened b.open_segment segment index in
    record b {
      runs = b.runs ++ record { tag = tag; records = records } ∷ [];
      open_segment = some (meta, put_run rank index building);
    }

unfoldable pub push_run : List SegmentMeta → ℕ → Rank → ℕ → Range → Builder → Builder
unfolding finish_segment add_run
push_run metas segment rank tag records b =
    add_run segment rank tag records
      (if is_other b.open_segment segment then finish_segment metas b else b)

-- The run being scanned.
pub record OpenRun : Type 0 where
  pub segment : ℕ
  pub rank : Rank
  pub tag : ℕ
  pub start : ℕ

-- Closes the run being scanned at a position.
unfoldable pub close_run : List SegmentMeta → ℕ → Option OpenRun → Builder → Builder
unfolding push_run
close_run metas position none b = b
close_run metas position (some r) b =
    push_run metas r.segment r.rank r.tag (record { start = r.start; end = position }) b

-- `(open_segment, open_rank, open_tag) == (segment, rank, tag)`
abbrev pub same_run : OpenRun → OpenRun → Bool
same_run a b = a.segment == b.segment && (rank_num a.rank == rank_num b.rank && a.tag == b.tag)

abbrev continues : Option OpenRun → OpenRun → Bool
continues none here = false
continues (some r) here = same_run r here

module _ (records : List PlanRecord) (metas : List SegmentMeta) (segment_of : List ℕ) where
  -- The segment, rank and tag of the record of index `i`, at a position of the order.
  unfoldable pub run_here : ℕ → ℕ → OpenRun
  run_here i position =
      let segment = segment_at segment_of i in
      let tag = tag_of records i in
      record { segment = segment; rank = meta_rank metas segment tag; tag = tag; start = position }

  -- One round of the scan.
  unfoldable pub scan_step : ℕ → ℕ → Option OpenRun × Builder → Option OpenRun × Builder
  unfolding run_here close_run
  scan_step position i (run, b) =
      let here = run_here i position in
      if continues run here then (run, b) else (some here, close_run metas position run b)

  unfoldable pub scan : ℕ → List ℕ → Option OpenRun × Builder → Option OpenRun × Builder
  unfolding scan_step
  scan position [] s = s
  scan position (i ∷ is) s = scan (suc position) is (scan_step position i s)

  -- The key by which the order is sorted.
  unfoldable pub sort_key : ℕ → SortKey
  sort_key i =
      let segment = segment_at segment_of i in
      let tag = tag_of records i in
      record {
        key = meta_key metas segment;
        segment = segment;
        rank = rank_num (meta_rank metas segment tag);
        tag = tag;
        index = i;
      }

  -- The rest of `Plan::new` after the sort.
  unfoldable pub build : List KeyPlan → List ℕ → Plan
  unfolding scan finish_segment close_run
  build keys order =
      let (run, b) =
        scan 0 order
          (none, record { runs = []; segments = []; keys = keys; open_segment = none }) in
      let done = finish_segment metas (close_run metas (length order) run b) in
      record { order = order; runs = done.runs; segments = done.segments; keys = done.keys }

-- The sorted indices.
unfoldable pub order_of : List PlanRecord → List ℕ
unfolding assign_segments sort_by_key range sort_key
order_of records =
    let w = assign_segments records in
    sort_by_key (sort_key records w.metas w.segment_of) (range 0 (length records))

-- `Plan::new`
unfoldable pub new : List PlanRecord → Plan
unfolding order_of build
new records =
    let w = assign_segments records in build records w.metas w.segment_of w.keys (order_of records)
