-- ===== src/Partition/Plan/Tiling/Complete.antt =====
-- The plan of a batch (`Plan::new` of wakuwaku-iggy/src/partition/plan.rs) holds each record once.
use mathlib.Core.List.{Perm}
use wakuwaku.Base.{
  ℕ, zero, suc, ◌+◌, ◌≤◌, ◌<◌, ◌≡◌, refl, sym, subst, List, [], ◌∷◌, some, get_elem?, length, arith,
  Bool-cases, inl, inr,
}
use wakuwaku.Partition.Plan.{PlanRecord}
use wakuwaku.Partition.Plan.Reading.{keys_records}
use wakuwaku.Partition.Plan.Assign.{Walk, assign_segments}
use wakuwaku.Partition.Plan.Assign.Each.{assign_segments-AllEmpty, assign_segments-keyed}
use wakuwaku.Partition.Plan.Order.{SortKey, key_le, insert, sort_by_key, range}
use wakuwaku.Partition.Plan.Order.Sorted.{sort_by_key-IsSorted}
use wakuwaku.Partition.Plan.Ordering.{order-perm}
use wakuwaku.Partition.Plan.Build.{
  meta_key, meta_key_at, segment_at_lem, sort_key, run_here, order_of, new,
}
use wakuwaku.Partition.Plan.Tiling.Exact.{build-exact}
use wakuwaku.Partition.Plan.Tiling.Scan.{here}
use wakuwaku.Partition.Plan.Tiling.Sorted.{AllIn, sorted-AllChained}

-- The indices of the list are below `n`.
abbrev Under : ℕ → List ℕ → Type 0
Under n [] = Unit {0}
Under n (i ∷ is) = (i < n) × Under n is

range-Under : (from k n : ℕ) → from + k ≤ n → Under n (range from k)
unfolding range
range-Under from zero n h = tt
range-Under from (suc k) n h = (omega arith, range-Under (suc from) k n (omega arith))

insert-Under :
    (key : ℕ → SortKey) (n i : ℕ) (is : List ℕ) → i < n → Under n is → Under n (insert key i is)
unfolding insert
insert-Under key n i [] h u = (h, tt)
insert-Under key n i (j ∷ is) h (g, u) = elim (Bool-cases (key_le (key i) (key j))) [
  | inl e ↦ rw e (h, (g, u))
  | inr e ↦ rw e (g, insert-Under key n i is h u)
]

sort_by_key-Under :
    (key : ℕ → SortKey) (n : ℕ) (is : List ℕ) → Under n is → Under n (sort_by_key key is)
unfolding sort_by_key
sort_by_key-Under key n [] u = tt
sort_by_key-Under key n (i ∷ is) (h, u) =
    insert-Under key n i (sort_by_key key is) h (sort_by_key-Under key n is u)

get_elem?-some {ℓ} :
    {A : Type ℓ} (xs : List A) (i : ℕ) → i < length xs → (x : A) × (get_elem? xs i ≡ some x)
get_elem?-some [] i h = absurd (omega arith)
get_elem?-some (x ∷ xs) zero h = (x, refl)
get_elem?-some (x ∷ xs) (suc i) h = get_elem?-some xs i (omega arith)

module _ (records : List PlanRecord) where
  abbrev w : Walk
  w = assign_segments records

  keyed :
      (i : ℕ)
      → i < length records
      → meta_key w.metas (here records w.metas w.segment_of i).segment < length w.keys
  unfolding run_here
  keyed i h =
      let (x, e) = get_elem?-some records i h in
      let (f, l) = assign_segments-keyed records i x e in
      rw
        (
          segment_at_lem w.segment_of i f.segment f.segment_is,
          meta_key_at w.metas f.segment f.placed.meta f.placed.meta_is,
        )
        l

  Under-AllIn :
      (is : List ℕ)
      → Under (length records) is
      → AllIn records w.metas w.segment_of (length w.keys) is
  Under-AllIn [] u = tt
  Under-AllIn (i ∷ is) (h, u) = (keyed i h, Under-AllIn is u)

  built :
      (keys_records (new records) (new records).keys ≡ order_of records)
      × (length (new records).keys ≡ length w.keys)
  unfolding new order_of
  built =
      let key = sort_key records w.metas w.segment_of in
      build-exact records w.metas w.segment_of w.keys (order_of records)
        (assign_segments-AllEmpty records)
        (sorted-AllChained records w.metas w.segment_of (length w.keys) (order_of records)
          (sort_by_key-IsSorted key (range 0 (length records)))
          (Under-AllIn (order_of records) (
            sort_by_key-Under key (length records) (range 0 (length records))
              (range-Under 0 (length records) (length records) (omega arith)))))

  -- The plan has the keys that the walk of the log found.
  pub new-keys : length (new records).keys ≡ length w.keys
  new-keys = built.1

  -- Read key by key, segment by segment and stage by stage, the plan of a batch holds the records in
  -- the order of `order_of`, and so each index of the batch once.
  pub new-exact :
      (keys_records (new records) (new records).keys ≡ order_of records)
      × Perm (keys_records (new records) (new records).keys) (range 0 (length records))
  new-exact = (
    built.0,
    subst (λ (is : List ℕ). Perm is (range 0 (length records))) (sym built.0) (order-perm records),
  )
