-- ===== src/Partition/Plan/Tiling/Pushed.antt =====
-- `push_run` and `finish_segment` (wakuwaku-iggy/src/partition/plan.rs) keep the pieces together.
use wakuwaku.Base.{
  ℕ, suc, ◌≤◌, ◌<◌, ◌≡◌, ◌≢◌, refl, sym, ap, ◌∙◌, subst, List, [], ◌∷◌, ◌++◌, Option, none, some,
  Bool, true, false, length, length-append, length-modify, modify, map, arith, ==_refl,
  if◌then◌else◌,
}
use wakuwaku.Partition.Plan.{Range, Segment, Run, SegmentMeta, Rank, rank_num}
use wakuwaku.Partition.Plan.Build.{
  Builder, meta_key, finish_open, finish_segment, opened, put_run, add_run, push_run, is_other,
}
use wakuwaku.Partition.Plan.Tiling.Ranges.{span, Tiles, Tiles-append}
use wakuwaku.Partition.Plan.Tiling.Segments.{Covers, SegmentTiles, SegmentTiles-append}
use wakuwaku.Partition.Plan.Tiling.Keys.{KeysAt, KeysAt-extend, extend}
use wakuwaku.Partition.Plan.Tiling.Put.{put_run-new, put_run-more}

module _ (metas : List SegmentMeta) where
  -- The builder has no open segment, and its runs end at position `p` of the order.
  pub record Closed (b : Builder) (p : ℕ) : Type 0 where
    pub open_is : b.open_segment ≡ none
    pub tiles : Tiles 0 (map (λ (r : Run). r.records) b.runs) p
    pub segments_tile : SegmentTiles 0 b.segments (length b.runs)
    pub last_key : ℕ
    pub keys_at : KeysAt 0 b.keys last_key (length b.segments)

  -- The segment `seg` of the metadata `meta` is open.
  pub record Holds (b : Builder) (meta : ℕ) (seg : Segment) (p : ℕ) : Type 0 where
    pub open_is : b.open_segment ≡ some (meta, seg)
    pub tiles : Tiles 0 (map (λ (r : Run). r.records) b.runs) p
    pub first : ℕ
    pub segments_tile : SegmentTiles 0 b.segments first
    pub covers : Covers seg first (length b.runs)
    pub last_key : ℕ
    pub keys_at : KeysAt 0 b.keys last_key (length b.segments)
    pub key_le : last_key ≤ meta_key metas meta
    pub in_keys : meta_key metas meta < length b.keys

  length-last {ℓ} : {A : Type ℓ} (xs : List A) (a : A) → length (xs ++ a ∷ []) ≡ suc (length xs)
  length-last xs a = omega (arith, length-append xs (a ∷ []))

  pub finish_segment-Closed :
      (b : Builder) (meta : ℕ) (seg : Segment) (p : ℕ)
      → (h : Holds b meta seg p)
      → (c : Closed (finish_segment metas b) p) × (c.last_key ≡ meta_key metas meta)
        × (length (finish_segment metas b).keys ≡ length b.keys)
  unfolding finish_segment finish_open
  finish_segment-Closed b meta seg p h =
      rw (finish_segment, h.open_is)
        (
          record {
            open_is = refl;
            tiles = h.tiles;
            segments_tile =
                SegmentTiles-append 0 b.segments h.first (length b.runs) seg h.segments_tile
                  h.covers;
            last_key = meta_key metas meta;
            keys_at =
                subst
                  (KeysAt 0 (modify (extend (length b.segments)) (meta_key metas meta) b.keys)
                    (meta_key metas meta))
                  (sym (length-last b.segments seg))
                  (KeysAt-extend 0 b.keys h.last_key (meta_key metas meta) (length b.segments)
                    h.keys_at (omega arith) h.key_le h.in_keys);
          },
          refl,
          length-modify (extend (length b.segments)) (meta_key metas meta) b.keys,
        )

  map_last :
      (f : Run → Range) (runs : List Run) (r : Run)
      → map f (runs ++ r ∷ []) ≡ map f runs ++ f r ∷ []
  map_last f [] r = refl
  map_last f (x ∷ runs) r = ap (◌∷◌ (f x)) (map_last f runs r)

  Tiles-last :
      (runs : List Run) (tag p q : ℕ)
      → Tiles 0 (map (λ (r : Run). r.records) runs) p
      → p ≤ q
      → Tiles 0
          (map (λ (r : Run). r.records) (runs ++ record { tag = tag; records = span p q } ∷ []))
          q
  Tiles-last runs tag p q t l =
      rw (map_last (λ (r : Run). r.records) runs (record { tag = tag; records = span p q }))
        (Tiles-append 0 (map (λ (r : Run). r.records) runs) p q t l)

  -- The segment `segment` is open, and has no tail unless the last run is one.
  pub record Pushed (b : Builder) (segment : ℕ) (rank : Rank) (p : ℕ) : Type 0 where
    pub seg : Segment
    pub holds : Holds b segment seg p
    pub untailed : rank_num rank < 2 → seg.tail ≡ none

  -- What the builder must be for a run of a segment and rank to be pushed.
  pub data Ready (b : Builder) (segment : ℕ) (rank : Rank) (p : ℕ) : Type 0 where
    none_open :
        (c : Closed b p)
        → c.last_key ≤ meta_key metas segment
        → meta_key metas segment < length b.keys
        → Ready b segment rank p
    same_open :
        (seg : Segment)
        → Holds b segment seg p
        → seg.tail ≡ none
        → 0 < rank_num rank
        → Ready b segment rank p
    other_open :
        (meta : ℕ) (seg : Segment)
        → Holds b meta seg p
        → meta ≢ segment
        → meta_key metas meta ≤ meta_key metas segment
        → meta_key metas segment < length b.keys
        → Ready b segment rank p

  module _ (segment : ℕ) (rank : Rank) (tag : ℕ) (p q : ℕ) (le : p ≤ q) where
    add_run-Closed :
        (b : Builder) (c : Closed b p)
        → c.last_key ≤ meta_key metas segment
        → meta_key metas segment < length b.keys
        → Pushed (add_run segment rank tag (span p q) b) segment rank q
    unfolding add_run opened
    add_run-Closed b c l k =
        let (v, u) = put_run-new rank (length b.runs) in
        rw (add_run, c.open_is)
          (record {
            seg =
                put_run rank (length b.runs) (record {
                  head = none;
                  body = span (length b.runs) (length b.runs);
                  tail = none;
                });
            holds = record {
              open_is = refl;
              tiles = Tiles-last b.runs tag p q c.tiles le;
              first = length b.runs;
              segments_tile = c.segments_tile;
              covers = subst (Covers _ (length b.runs)) (sym (length-last b.runs _)) v;
              last_key = c.last_key;
              keys_at = c.keys_at;
              key_le = l;
              in_keys = k;
            };
            untailed = u;
          })

    add_run-Holds :
        (b : Builder) (seg : Segment)
        → Holds b segment seg p
        → seg.tail ≡ none
        → 0 < rank_num rank
        → Pushed (add_run segment rank tag (span p q) b) segment rank q
    unfolding add_run opened
    add_run-Holds b seg h t k =
        let (v, u) = put_run-more rank seg h.first (length b.runs) h.covers t k in
        rw (add_run, h.open_is)
          (record {
            seg = put_run rank (length b.runs) seg;
            holds = record {
              open_is = refl;
              tiles = Tiles-last b.runs tag p q h.tiles le;
              first = h.first;
              segments_tile = h.segments_tile;
              covers = subst (Covers _ h.first) (sym (length-last b.runs _)) v;
              last_key = h.last_key;
              keys_at = h.keys_at;
              key_le = h.key_le;
              in_keys = h.in_keys;
            };
            untailed = u;
          })

    add_run-keys : (b : Builder) → (add_run segment rank tag (span p q) b).keys ≡ b.keys
    unfolding add_run
    add_run-keys b = refl

    -- The builder to which `push_run` adds the run.
    abbrev choose : Bool → Builder → Builder
    choose other b =
        add_run segment rank tag (span p q) (if other then finish_segment metas b else b)

    is_other-of :
        (b : Builder) (o : Option (ℕ × Segment))
        → b.open_segment ≡ o
        → is_other b.open_segment segment ≡ is_other o segment
    is_other-of b o e = ap (λ (x : Option (ℕ × Segment)). is_other x segment) e

    abbrev Result : Builder → Builder → Type 0
    Result b b' = Pushed b' segment rank q × (length b'.keys ≡ length b.keys)

    push_run_case :
        (b : Builder) (other : Bool)
        → is_other b.open_segment segment ≡ other
        → Result b (choose other b)
        → Result b (push_run metas segment rank tag (span p q) b)
    unfolding push_run
    push_run_case b other e r = subst (λ (x : Bool). Result b (choose x b)) (sym e) r

    pub push_run-Pushed :
        (b : Builder)
        → Ready b segment rank p
        → Result b (push_run metas segment rank tag (span p q) b)
    push_run-Pushed b (none_open c l k) =
        push_run_case b false (is_other-of b none c.open_is)
          (add_run-Closed b c l k, ap length (add_run-keys b))
    push_run-Pushed b (same_open seg h t k) =
        push_run_case b false (is_other-of b _ h.open_is ∙ ground (arith, ==_refl segment))
          (add_run-Holds b seg h t k, ap length (add_run-keys b))
    push_run-Pushed b (other_open meta seg h n l k) =
        let (c, e, g) = finish_segment-Closed b meta seg p h in
        push_run_case b true (is_other-of b _ h.open_is ∙ ground arith) (
          add_run-Closed (finish_segment metas b) c (omega (arith, e)) (omega (arith, g)),
          ap length (add_run-keys (finish_segment metas b)) ∙ g,
        )
