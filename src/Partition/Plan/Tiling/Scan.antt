-- ===== src/Partition/Plan/Tiling/Scan.antt =====
-- The scan of `Plan::new` (wakuwaku-iggy/src/partition/plan.rs) over an order in which no record
-- comes before one that must go first.
use wakuwaku.Base.{
  ℕ, suc, ◌+◌, ◌≤◌, ◌<◌, ◌≡◌, sym, ◌∙◌, subst, List, [], ◌∷◌, Option, some, Bool, true, false,
  length, arith, Bool-cases, ℕ_discrete, inl, inr, if◌then◌else◌,
}
use wakuwaku.Partition.Plan.{PlanRecord, SegmentMeta, Rank, rank_num}
use wakuwaku.Partition.Plan.Build.{
  Builder, OpenRun, meta_key, close_run, same_run, run_here, scan_step, scan,
}
use wakuwaku.Partition.Plan.Tiling.Pushed.{
  Holds, Pushed, Ready, same_open, other_open, push_run-Pushed,
}

module _ (records : List PlanRecord) (metas : List SegmentMeta) (segment_of : List ℕ) where
  abbrev pub here : ℕ → OpenRun
  here i = run_here records metas segment_of i 0

  -- A record may come right after the records of a run.
  pub record Step (r h : OpenRun) : Type 0 where
    pub key_le : meta_key metas r.segment ≤ meta_key metas h.segment
    pub stage_lt :
        same_run r h ≡ false → r.segment ≡ h.segment → (rank_num r.rank < 2) × (0 < rank_num h.rank)

  abbrev pub Chained : ℕ → OpenRun → List ℕ → Type 0
  Chained n r [] = Unit {0}
  Chained n r (i ∷ is) =
      Step r (here i) × (meta_key metas (here i).segment < n) × Chained n (here i) is

  Step-same : (r h k : OpenRun) → same_run r h ≡ true → Step h k → Step r k
  Step-same r h k e s = record {
    key_le = subst (λ (x : ℕ). meta_key metas x ≤ meta_key metas k.segment) (ground arith) s.key_le;
    stage_lt = λ d q. let (a, b) = s.stage_lt (ground arith) (ground arith) in (ground arith, b);
  }

  Chained-same :
      (n : ℕ) (r h : OpenRun) (is : List ℕ) → same_run r h ≡ true → Chained n h is → Chained n r is
  Chained-same n r h [] e c = tt
  Chained-same n r h (i ∷ is) e (s, m, c) = (Step-same r h (here i) e s, m, c)

  -- Where the run starts does not matter.
  Chained-other :
      (n : ℕ) (h : OpenRun) (p : ℕ) (is : List ℕ)
      → Chained n h is
      → Chained n (record h { start = p }) is
  Chained-other n h p [] c = tt
  Chained-other n h p (i ∷ is) (s, m, c) =
      (record { key_le = s.key_le; stage_lt = s.stage_lt }, m, c)

  -- All runs are pushed, and a segment is open.
  pub record Finished (n : ℕ) (p : ℕ) (b : Builder) : Type 0 where
    pub segment : ℕ
    pub rank : Rank
    pub pushed : Pushed metas b segment rank p
    pub keys_keep : length b.keys ≡ n

  Finished-Ready :
      (n : ℕ) (p : ℕ) (b : Builder) (r h : OpenRun)
      → Pushed metas b r.segment r.rank p
      → length b.keys ≡ n
      → same_run r h ≡ false
      → Step r h
      → meta_key metas h.segment < n
      → Ready metas b h.segment h.rank p
  Finished-Ready n p b r h q k d s l = elim (ℕ_discrete r.segment h.segment) [
    | yes e ↦
        let (a, c) = s.stage_lt d e in
        same_open q.seg (subst (λ (x : ℕ). Holds metas b x q.seg p) e q.holds) (q.untailed a) c
    | no e ↦ other_open r.segment q.seg q.holds e s.key_le (omega (arith, k))
  ]

  -- After the rest of the scan the last run is closed, and then all runs are pushed.
  abbrev Scanned : ℕ → ℕ → List ℕ → Option OpenRun × Builder → Type 0
  Scanned n p is s =
      let (run, b) = scan records metas segment_of p is s in
      Finished n (p + length is) (close_run metas (p + length is) run b)

  Scanned-step :
      (n p i : ℕ) (is : List ℕ) (r : OpenRun) (b : Builder) (e : Bool)
      → same_run r (here i) ≡ e
      → Scanned n (suc p) is (
          if e
          then (some r, b)
          else (some (run_here records metas segment_of i p), close_run metas p (some r) b))
      → Scanned n p (i ∷ is) (some r, b)
  unfolding scan scan_step run_here
  Scanned-step n p i is r b e q f =
      let g =
        subst
          (λ (x : Bool). Scanned n (suc p) is (
            if x
            then (some r, b)
            else (some (run_here records metas segment_of i p), close_run metas p (some r) b)))
          (sym q) f in
      subst
        (λ (x : ℕ). Finished n x (
          close_run metas x (scan records metas segment_of p (i ∷ is) (some r, b)).0
            (scan records metas segment_of p (i ∷ is) (some r, b)).1))
        (omega arith) g

  pub scan-Finished :
      (n : ℕ) (is : List ℕ) (p : ℕ) (r : OpenRun) (b : Builder)
      → Ready metas b r.segment r.rank r.start
      → r.start ≤ p
      → length b.keys ≡ n
      → Chained n r is
      → Scanned n p is (some r, b)
  unfolding scan close_run run_here
  scan-Finished n [] p r b y l k c =
      let (a, e) = push_run-Pushed metas r.segment r.rank r.tag r.start (p + 0) (omega arith) b y in
      record { segment = r.segment; rank = r.rank; pushed = a; keys_keep = e ∙ k }
  scan-Finished n (i ∷ is) p r b y l k (s, m, c) = elim (Bool-cases (same_run r (here i))) [
    | inl e ↦
        Scanned-step n p i is r b true e
          (scan-Finished n is (suc p) r b y (omega arith) k (Chained-same n r (here i) is e c))
    | inr e ↦
        let (a, f) = push_run-Pushed metas r.segment r.rank r.tag r.start p l b y in
        Scanned-step n p i is r b false e (
          scan-Finished n is (suc p) (run_here records metas segment_of i p)
            (close_run metas p (some r) b)
            (Finished-Ready n p (close_run metas p (some r) b) r (here i) a (f ∙ k) e s m)
            (omega arith) (f ∙ k) (Chained-other n (here i) p is c))
  ]
