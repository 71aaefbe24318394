-- ===== src/Entity/Meilisearch/Filter/Failures.antt =====
-- When the rendering of a filter fails, and how (wakuwaku-entity/src/meilisearch/filter.rs).
use wakuwaku.Base.{
  ℕ, suc, ◌+◌, ◌≤◌, ◌≡◌, refl, ltb, Bool-cases, inl, inr, List, [], ◌∷◌, ◌++◌, if◌then◌else◌,
  Result, ok, err, ◌>>=◌, saturating_add, ◌↔◌, arith,
}
use wakuwaku.Entity.Meilisearch.Keywords.{and_word, or_word, comma_word, not_word, to_word, in_word}
use wakuwaku.Entity.Meilisearch.Filter.{
  Text, Numbers, Value, bool, int, uint, float, text, Filter, eq, ne, gt, gte, lt, lte, between,
  among, exists, is_null, is_empty, negation, conjunction, disjunction, dangerously_raw, Filters,
  no_filters, filters, FilterError, empty_group, non_finite_number, too_deep, max_depth, space,
  push, write_value, write_values, compare, postfix, write_between, write_among, quote, unless_deep,
  write_grouped, write_group, write_node, write_members, write, render,
}
use wakuwaku.Entity.Meilisearch.Filter.Verdict.{
  Judged, nesting, nesting_all, NonEmpty, Grouped, AllGrouped, FiniteValue, FiniteValues, Finite,
  AllFinite,
}

-- Two steps, of which the second needs nothing of the first.
bind-Judged :
    (f g a f' g' a' : Type 0) (r : Result FilterError Text) (k : Text → Result FilterError Text)
    → Judged f g a r
    → ((out : Text) → Judged f' g' a' (k out))
    → Judged (f × f') (g × g') (a × a') (r >>= k)
bind-Judged f g a f' g' a' (ok out) k (x, y, z) next = both (k out) (next out)
  where
    both : (r : Result FilterError Text) → Judged f' g' a' r → Judged (f × f') (g × g') (a × a') r
    both (ok t) (x', y', z') = ((x, x'), (y, y'), (z, z'))
    both (err empty_group) n = λ (p, q). n q
    both (err non_finite_number) n = λ (p, q). n q
    both (err too_deep) n = λ (p, q). n q
bind-Judged f g a f' g' a' (err empty_group) k n next = λ (p, q). n p
bind-Judged f g a f' g' a' (err non_finite_number) k n next = λ (p, q). n p
bind-Judged f g a f' g' a' (err too_deep) k n next = λ (p, q). n p

iff-Judged :
    (f g a f' g' a' : Type 0) (r : Result FilterError Text)
    → f ↔ f'
    → g ↔ g'
    → a ↔ a'
    → Judged f g a r
    → Judged f' g' a' r
iff-Judged f g a f' g' a' (ok t) (p, p') (q, q') (s, s') (x, y, z) = (p x, q y, s z)
iff-Judged f g a f' g' a' (err empty_group) (p, p') (q, q') (s, s') n = λ x. n (q' x)
iff-Judged f g a f' g' a' (err non_finite_number) (p, p') (q, q') (s, s') n = λ x. n (p' x)
iff-Judged f g a f' g' a' (err too_deep) (p, p') (q, q') (s, s') n = λ x. n (s' x)

refl_iff : (a : Type 0) → a ↔ a
refl_iff a = (λ x. x, λ x. x)

module _ {Float : Type 0} (std : Numbers Float) where
  value-Judged :
      (out : Text) (v : Value Float)
      → Judged (FiniteValue std v) (Unit {0}) (Unit {0}) (write_value std out v)
  unfolding write_value
  value-Judged out (bool b) = (tt, tt, tt)
  value-Judged out (int n) = (tt, tt, tt)
  value-Judged out (uint n) = (tt, tt, tt)
  value-Judged out (text cs) = (tt, tt, tt)
  value-Judged out (float x) = elim (Bool-cases (std.is_finite x)) [
    | inl q ↦ rw q (refl, tt, tt)
    | inr q ↦ rw q (λ e. cc)
  ]

  values-Judged :
      (out : Text) (i : ℕ) (vs : List (Value Float))
      → Judged (FiniteValues std vs) (Unit {0}) (Unit {0}) (write_values std out i vs)
  unfolding write_values
  values-Judged out i [] = (tt, tt, tt)
  values-Judged out i (v ∷ vs) =
      iff-Judged _ _ _ _ _ _ (write_values std out i (v ∷ vs))
        (refl_iff (FiniteValue std v × FiniteValues std vs)) (λ x. tt, λ x. (tt, tt))
        (λ x. tt, λ x. (tt, tt))
        (bind-Judged (FiniteValue std v) (Unit {0}) (Unit {0}) (FiniteValues std vs) (Unit {0})
          (Unit {0}) (write_value std (if ltb 0 i then out ++ comma_word else out) v)
          (λ out'. write_values std out' (suc i) vs)
          (value-Judged (if ltb 0 i then out ++ comma_word else out) v)
          (λ out'. values-Judged out' (suc i) vs))

  module _ {F : Type 0} (name : F → Text) where
    -- A condition at an allowed depth.
    leaf-Judged :
        (fin : Type 0) (depth : ℕ) (r : Result FilterError Text)
        → depth ≤ max_depth
        → Judged fin (Unit {0}) (Unit {0}) r
        → Judged fin (Unit {0}) (depth + 0 ≤ max_depth) r
    leaf-Judged fin depth r h j =
        iff-Judged fin (Unit {0}) (Unit {0}) fin (Unit {0}) (depth + 0 ≤ max_depth) r (refl_iff fin)
          (refl_iff (Unit {0})) (λ x. omega arith, λ x. tt) j

    compare-Judged :
        (out : Text) (field : F) (operator : Text) (v : Value Float)
        → Judged (FiniteValue std v) (Unit {0}) (Unit {0}) (compare std name out field operator v)
    unfolding compare
    compare-Judged out field operator v =
        value-Judged (push (push (quote out (name field)) space ++ operator) space) v

    between-Judged :
        (out : Text) (field : F) (low high : Value Float)
        → Judged
            (FiniteValue std low × FiniteValue std high)
            (Unit {0})
            (Unit {0})
            (write_between std name out field low high)
    unfolding write_between
    between-Judged out field low high =
        iff-Judged _ _ _ _ _ _ (write_between std name out field low high)
          (refl_iff (FiniteValue std low × FiniteValue std high)) (λ x. tt, λ x. (tt, tt))
          (λ x. tt, λ x. (tt, tt))
          (bind-Judged (FiniteValue std low) (Unit {0}) (Unit {0}) (FiniteValue std high) (Unit {0})
            (Unit {0}) (write_value std (push (quote out (name field)) space) low)
            (λ out'. write_value std (out' ++ to_word) high)
            (value-Judged (push (quote out (name field)) space) low)
            (λ out'. value-Judged (out' ++ to_word) high))

    among-Judged :
        (out : Text) (field : F) (vs : List (Value Float))
        → Judged (FiniteValues std vs) (Unit {0}) (Unit {0}) (write_among std name out field vs)
    unfolding write_among
    among-Judged out field vs =
        iff-Judged _ _ _ _ _ _ (write_among std name out field vs) (λ (x, y). x, λ x. (x, tt))
          (λ x. tt, λ x. (tt, tt)) (λ x. tt, λ x. (tt, tt))
          (bind-Judged (FiniteValues std vs) (Unit {0}) (Unit {0}) (Unit {0}) (Unit {0}) (Unit {0})
            (write_values std (quote out (name field) ++ in_word) 0 vs) (λ out'. ok (push out' 93))
            (values-Judged (quote out (name field) ++ in_word) 0 vs) (λ out'. (tt, tt, tt)))

    unless_deep-Judged :
        (fin grp : Type 0) (depth n : ℕ) (r : Result FilterError Text)
        → (depth ≤ max_depth → Judged fin grp (depth + n ≤ max_depth) r)
        → Judged fin grp (depth + n ≤ max_depth) (unless_deep depth r)
    unless_deep-Judged fin grp depth n r f = elim (Bool-cases (ltb max_depth depth)) [
      | inl q ↦ rw q (λ x. absurd (ground (arith, q, x)))
      | inr q ↦ rw q (f (ground (arith, q)))
    ]

    grouped-Judged :
        (fin grp : Type 0) (n : ℕ) (out : Text) (depth : ℕ)
        (node : Text → ℕ → Result FilterError Text)
        → depth ≤ max_depth
        → ((out : Text) (depth : ℕ)
            → depth ≤ max_depth
            → Judged fin grp (depth + n ≤ max_depth) (node out depth))
        → Judged fin grp (depth + suc n ≤ max_depth) (write_grouped node out depth)
    grouped-Judged fin grp n out depth node h f =
        let d = saturating_add depth 1 in
        let e : d ≡ depth + 1 = ground (arith, h) in
        iff-Judged _ _ _ _ _ _ (write_grouped node out depth) (λ (x, y). x, λ x. (x, tt))
          (λ (x, y). x, λ x. (x, tt)) (λ (x, y). omega arith, λ x. (omega arith, tt))
          (bind-Judged fin grp (d + n ≤ max_depth) (Unit {0}) (Unit {0}) (Unit {0})
            (unless_deep d (node (push out 40) d)) (λ out'. ok (push out' 41))
            (unless_deep-Judged fin grp d n (node (push out 40) d) (f (push out 40) d))
            (λ out'. (tt, tt, tt)))

    group-Judged :
        (fs : Filters F Float) (allowed : Type 0) (loop : Result FilterError Text)
        → Judged (AllFinite std fs) (AllGrouped fs) allowed loop
        → Judged (AllFinite std fs) (NonEmpty fs × AllGrouped fs) allowed (write_group fs loop)
    group-Judged no_filters allowed loop j = λ (x, y). x
    group-Judged (filters f fs) allowed loop j =
        iff-Judged _ _ _ _ _ _ loop (refl_iff (Finite std f × AllFinite std fs))
          (λ x. (tt, x), λ (x, y). y) (refl_iff allowed) j

    mutual
      unfolding write_node postfix

      node-Judged :
          (f : Filter F Float) (out : Text) (depth : ℕ)
          → depth ≤ max_depth
          → Judged
              (Finite std f)
              (Grouped f)
              (depth + nesting f ≤ max_depth)
              (write_node std name f out depth)
      node-Judged (eq field v) out depth h = leaf-Judged _ depth _ h (compare-Judged out field _ v)
      node-Judged (ne field v) out depth h = leaf-Judged _ depth _ h (compare-Judged out field _ v)
      node-Judged (gt field v) out depth h = leaf-Judged _ depth _ h (compare-Judged out field _ v)
      node-Judged (gte field v) out depth h = leaf-Judged _ depth _ h (compare-Judged out field _ v)
      node-Judged (lt field v) out depth h = leaf-Judged _ depth _ h (compare-Judged out field _ v)
      node-Judged (lte field v) out depth h = leaf-Judged _ depth _ h (compare-Judged out field _ v)
      node-Judged (between field low high) out depth h =
          leaf-Judged _ depth _ h (between-Judged out field low high)
      node-Judged (among field vs) out depth h = leaf-Judged _ depth _ h (among-Judged out field vs)
      node-Judged (exists field) out depth h = (tt, tt, omega arith)
      node-Judged (is_null field) out depth h = (tt, tt, omega arith)
      node-Judged (is_empty field) out depth h = (tt, tt, omega arith)
      node-Judged (dangerously_raw expression) out depth h = (tt, tt, omega arith)
      node-Judged (negation f) out depth h =
          grouped-Judged (Finite std f) (Grouped f) (nesting f) (out ++ not_word) depth
            (write_node std name f) h (λ o d. node-Judged f o d)
      node-Judged (conjunction fs) out depth h =
          group-Judged fs (depth + nesting_all fs ≤ max_depth) _
            (members-Judged fs and_word 0 out depth h)
      node-Judged (disjunction fs) out depth h =
          group-Judged fs (depth + nesting_all fs ≤ max_depth) _
            (members-Judged fs or_word 0 out depth h)

      members-Judged :
          (fs : Filters F Float) (operator : Text) (i : ℕ) (out : Text) (depth : ℕ)
          → depth ≤ max_depth
          → Judged
              (AllFinite std fs)
              (AllGrouped fs)
              (depth + nesting_all fs ≤ max_depth)
              (write_members std name fs operator i out depth)
      members-Judged no_filters operator i out depth h = (tt, tt, omega arith)
      members-Judged (filters f fs) operator i out depth h =
          let start = if ltb 0 i then out ++ operator else out in
          iff-Judged _ _ _ _ _ _ (write_members std name (filters f fs) operator i out depth)
            (refl_iff (Finite std f × AllFinite std fs)) (refl_iff (Grouped f × AllGrouped fs))
            (λ (x, y). omega arith, λ x. (omega arith, omega arith))
            (bind-Judged (Finite std f) (Grouped f) (depth + suc (nesting f) ≤ max_depth)
              (AllFinite std fs) (AllGrouped fs) (depth + nesting_all fs ≤ max_depth)
              (write_grouped (write_node std name f) start depth)
              (λ out'. write_members std name fs operator (suc i) out' depth)
              (grouped-Judged (Finite std f) (Grouped f) (nesting f) start depth
                (write_node std name f) h (λ o d. node-Judged f o d))
              (λ out'. members-Judged fs operator (suc i) out' depth h))

    -- `render` succeeds exactly for the filters whose floats are finite, whose groups all have members and that are
    -- nested at most 64 deep; otherwise its error names one of these that the filter lacks.
    pub render-Judged :
        (f : Filter F Float)
        → Judged (Finite std f) (Grouped f) (nesting f ≤ max_depth) (render std name f)
    unfolding render write
    render-Judged f =
        iff-Judged _ _ _ _ _ _ (render std name f) (refl_iff (Finite std f)) (refl_iff (Grouped f))
          (λ x. omega arith, λ x. omega arith) (node-Judged f [] 0 (omega arith))
