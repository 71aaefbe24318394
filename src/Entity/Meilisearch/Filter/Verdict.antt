-- ===== src/Entity/Meilisearch/Filter/Verdict.antt =====
-- What a filter needs to be rendered (wakuwaku-entity/src/meilisearch/filter.rs).
use wakuwaku.Base.{ℕ, suc, max, ◌≡◌, true, List, [], ◌∷◌, Result, ok, err}
use wakuwaku.Entity.Meilisearch.Filter.{
  Text, Numbers, Value, bool, int, uint, float, text, Filter, eq, ne, gt, gte, lt, lte, between,
  among, exists, is_null, is_empty, negation, conjunction, disjunction, dangerously_raw, Filters,
  no_filters, filters, FilterError, empty_group, non_finite_number, too_deep,
}

-- A result that is a success if the floats are finite, the groups have members and the depth is allowed, and that is
-- otherwise the error of one of these that fails.
abbrev pub Judged : Type 0 → Type 0 → Type 0 → Result FilterError Text → Type 0
Judged finite grouped allowed (ok rendered) = finite × grouped × allowed
Judged finite grouped allowed (err empty_group) = ¬ grouped
Judged finite grouped allowed (err non_finite_number) = ¬ finite
Judged finite grouped allowed (err too_deep) = ¬ allowed

-- How many groups and negations lie around the innermost condition.
abbrev mutual
  pub nesting : {F Float : Type 0} → Filter F Float → ℕ
  nesting (negation f) = suc (nesting f)
  nesting (conjunction fs) = nesting_all fs
  nesting (disjunction fs) = nesting_all fs
  nesting (eq field v) = 0
  nesting (ne field v) = 0
  nesting (gt field v) = 0
  nesting (gte field v) = 0
  nesting (lt field v) = 0
  nesting (lte field v) = 0
  nesting (between field low high) = 0
  nesting (among field vs) = 0
  nesting (exists field) = 0
  nesting (is_null field) = 0
  nesting (is_empty field) = 0
  nesting (dangerously_raw expression) = 0

  pub nesting_all : {F Float : Type 0} → Filters F Float → ℕ
  nesting_all no_filters = 0
  nesting_all (filters f fs) = max (suc (nesting f)) (nesting_all fs)

abbrev pub NonEmpty : {F Float : Type 0} → Filters F Float → Type 0
NonEmpty no_filters = ⊥
NonEmpty (filters f fs) = Unit {0}

-- Every group has a member.
abbrev mutual
  pub Grouped : {F Float : Type 0} → Filter F Float → Type 0
  Grouped (negation f) = Grouped f
  Grouped (conjunction fs) = NonEmpty fs × AllGrouped fs
  Grouped (disjunction fs) = NonEmpty fs × AllGrouped fs
  Grouped (eq field v) = Unit {0}
  Grouped (ne field v) = Unit {0}
  Grouped (gt field v) = Unit {0}
  Grouped (gte field v) = Unit {0}
  Grouped (lt field v) = Unit {0}
  Grouped (lte field v) = Unit {0}
  Grouped (between field low high) = Unit {0}
  Grouped (among field vs) = Unit {0}
  Grouped (exists field) = Unit {0}
  Grouped (is_null field) = Unit {0}
  Grouped (is_empty field) = Unit {0}
  Grouped (dangerously_raw expression) = Unit {0}

  pub AllGrouped : {F Float : Type 0} → Filters F Float → Type 0
  AllGrouped no_filters = Unit {0}
  AllGrouped (filters f fs) = Grouped f × AllGrouped fs

module _ {Float : Type 0} (std : Numbers Float) where
  abbrev pub FiniteValue : Value Float → Type 0
  FiniteValue (float x) = std.is_finite x ≡ true
  FiniteValue (bool b) = Unit {0}
  FiniteValue (int n) = Unit {0}
  FiniteValue (uint n) = Unit {0}
  FiniteValue (text cs) = Unit {0}

  abbrev pub FiniteValues : List (Value Float) → Type 0
  FiniteValues [] = Unit {0}
  FiniteValues (v ∷ vs) = FiniteValue v × FiniteValues vs

  -- Every float is finite.
  abbrev mutual
    pub Finite : {F : Type 0} → Filter F Float → Type 0
    Finite (negation f) = Finite f
    Finite (conjunction fs) = AllFinite fs
    Finite (disjunction fs) = AllFinite fs
    Finite (eq field v) = FiniteValue v
    Finite (ne field v) = FiniteValue v
    Finite (gt field v) = FiniteValue v
    Finite (gte field v) = FiniteValue v
    Finite (lt field v) = FiniteValue v
    Finite (lte field v) = FiniteValue v
    Finite (between field low high) = FiniteValue low × FiniteValue high
    Finite (among field vs) = FiniteValues vs
    Finite (exists field) = Unit {0}
    Finite (is_null field) = Unit {0}
    Finite (is_empty field) = Unit {0}
    Finite (dangerously_raw expression) = Unit {0}

    pub AllFinite : {F : Type 0} → Filters F Float → Type 0
    AllFinite no_filters = Unit {0}
    AllFinite (filters f fs) = Finite f × AllFinite fs
