-- ===== src/Partition/Plan/Order.antt =====
-- `order.sort_unstable_by_key(..)` of wakuwaku-iggy/src/partition/plan.rs. The keys of the records
-- are all different (the index is the last component), so that every sort gives the same list.
pub mod Sorted
use wakuwaku.Base.{
  ℕ, zero, suc, ◌==◌, ltb, leb, Bool, true, false, List, [], ◌∷◌, Option, none, some, get_elem?,
  length, if◌then◌else◌,
}
use wakuwaku.Partition.Plan.{PlanRecord, SegmentMeta, rank, rank_num, Rank}

-- The tuple `(meta.key, segment, meta.rank(tag), tag.get(), i)`.
pub record SortKey : Type 0 where
  pub key : ℕ
  pub segment : ℕ
  pub rank : ℕ
  pub tag : ℕ
  pub index : ℕ

abbrev pub lex : ℕ → ℕ → Bool → Bool
lex a b rest = if ltb a b then true else if a == b then rest else false

-- The derived order on tuples.
unfoldable pub key_le : SortKey → SortKey → Bool
key_le a b =
    lex a.key b.key
      (lex a.segment b.segment (lex a.rank b.rank (lex a.tag b.tag (leb a.index b.index))))

unfoldable pub insert : (ℕ → SortKey) → ℕ → List ℕ → List ℕ
insert key i [] = i ∷ []
insert key i (j ∷ js) =
    let rest = insert key i js in if key_le (key i) (key j) then i ∷ j ∷ js else j ∷ rest

unfoldable pub sort_by_key : (ℕ → SortKey) → List ℕ → List ℕ
unfolding insert key_le
sort_by_key key [] = []
sort_by_key key (i ∷ is) = insert key i (sort_by_key key is)

-- `(from..from + n).collect()`
unfoldable pub range : ℕ → ℕ → List ℕ
range from zero = []
range from (suc n) = from ∷ range (suc from) n
