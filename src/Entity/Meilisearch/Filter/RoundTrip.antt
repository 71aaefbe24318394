-- ===== src/Entity/Meilisearch/Filter/RoundTrip.antt =====
-- A rendered filter is read back as its tokens (wakuwaku-entity/src/meilisearch/filter.rs).
use wakuwaku.Base.{
  ℕ, suc, ◌≡◌, refl, sym, ap, ◌∙◌, subst, ltb, Bool, true, false, List, [], ◌∷◌, ◌++◌, append-nil,
  if◌then◌else◌, Result, ok, err, saturating_add, some,
}
use wakuwaku.Entity.Meilisearch.Keywords.{
  and_word, or_word, not_word, exists_word, null_word, empty_word,
}
use wakuwaku.Entity.Meilisearch.Filter.{
  Text, Numbers, Filter, eq, ne, gt, gte, lt, lte, between, among, exists, is_null, is_empty,
  negation, conjunction, disjunction, dangerously_raw, Filters, no_filters, filters, FilterError,
  too_deep, max_depth, push, unless_deep, write_grouped, write_group, write_node, write_members,
  write, render,
}
use wakuwaku.Entity.Meilisearch.Filter.Lexer.{Token, plains, is_plain, lex, nil-Lexes, Lexes-lex}
use wakuwaku.Entity.Meilisearch.Filter.Layout.{
  each, joined, NoRaw, AllNoRaw, Displays, in_parentheses, layout, layouts,
}
use wakuwaku.Entity.Meilisearch.Filter.Rendered.{
  Wrote, from-Wrote, bind-Wrote, word-Lexes, word-Wrote, members_later, compare-Wrote,
  between-Wrote, among-Wrote, postfix-Wrote,
}

module _ {Float : Type 0} (std : Numbers Float) (displays : Displays std) {F : Type 0}
    (name : F → Text) where
  unless_deep-Wrote :
      (out : Text) (ts : List Token) (depth : ℕ) (r : Result FilterError Text)
      → Wrote out ts r
      → Wrote out ts (unless_deep depth r)
  unless_deep-Wrote out ts depth r w = of (ltb max_depth depth)
    where
      of : (b : Bool) → Wrote out ts (if b then err too_deep else r)
      of true = tt
      of false = w

  grouped-Wrote :
      (out : Text) (ts : List Token) (depth : ℕ) (node : Text → ℕ → Result FilterError Text)
      → ((out : Text) (depth : ℕ) → Wrote out ts (node out depth))
      → Wrote out (in_parentheses std name ts) (write_grouped node out depth)
  grouped-Wrote out ts depth node f =
      let d = saturating_add depth 1 in
      from-Wrote out (40 ∷ []) (plains (40 ∷ [])) (ts ++ plains (41 ∷ [])) _
        (word-Lexes (40 ∷ []) refl)
        (bind-Wrote (push out 40) ts (plains (41 ∷ [])) (unless_deep d (node (push out 40) d))
          (λ o. ok (push o 41))
          (unless_deep-Wrote (push out 40) ts d (node (push out 40) d) (f (push out 40) d))
          (λ o. word-Wrote o (41 ∷ []) refl))

  group-Wrote :
      (fs : Filters F Float) (out : Text) (ts : List Token) (loop : Result FilterError Text)
      → Wrote out ts loop
      → Wrote out ts (write_group fs loop)
  group-Wrote no_filters out ts loop w = tt
  group-Wrote (filters f fs) out ts loop w = w

  -- The members from the index 1 on.
  each_member :
      (fs : Filters F Float) (operator : Text)
      → is_plain operator ≡ true
      → (f : Filter F Float) (i depth : ℕ) (out : Text)
      → ((out : Text) (depth : ℕ) → Wrote out (layout std name f) (write_node std name f out depth))
      → ((out : Text)
          → Wrote out
              (each (plains operator) (layouts std name fs))
              (write_members std name fs operator (suc (suc i)) out depth))
      → Wrote out
          (each (plains operator) (layouts std name (filters f fs)))
          (write_members std name (filters f fs) operator (suc i) out depth)
  unfolding write_node
  each_member fs operator h f i depth out w ws =
      let ts = in_parentheses std name (layout std name f) in
      let us = each (plains operator) (layouts std name fs) in
      rw (members_later i) (
        from-Wrote out operator (plains operator) (ts ++ us) _ (word-Lexes operator h) (
          bind-Wrote (out ++ operator) ts us
            (write_grouped (write_node std name f) (out ++ operator) depth)
            (λ o. write_members std name fs operator (suc (suc i)) o depth)
            (grouped-Wrote (out ++ operator) (layout std name f) depth (write_node std name f) w)
            ws))

  mutual
    unfolding write_node

    node-Wrote :
        (f : Filter F Float)
        → NoRaw f
        → (out : Text) (depth : ℕ) → Wrote out (layout std name f) (write_node std name f out depth)
    node-Wrote (eq field v) n out depth = compare-Wrote std displays name out field (61 ∷ []) v refl
    node-Wrote (ne field v) n out depth =
        compare-Wrote std displays name out field (33 ∷ 61 ∷ []) v refl
    node-Wrote (gt field v) n out depth = compare-Wrote std displays name out field (62 ∷ []) v refl
    node-Wrote (gte field v) n out depth =
        compare-Wrote std displays name out field (62 ∷ 61 ∷ []) v refl
    node-Wrote (lt field v) n out depth = compare-Wrote std displays name out field (60 ∷ []) v refl
    node-Wrote (lte field v) n out depth =
        compare-Wrote std displays name out field (60 ∷ 61 ∷ []) v refl
    node-Wrote (between field low high) n out depth =
        between-Wrote std displays name out field low high
    node-Wrote (among field vs) n out depth = among-Wrote std displays name out field vs
    node-Wrote (exists field) n out depth =
        postfix-Wrote std displays name out field exists_word refl
    node-Wrote (is_null field) n out depth =
        postfix-Wrote std displays name out field null_word refl
    node-Wrote (is_empty field) n out depth =
        postfix-Wrote std displays name out field empty_word refl
    node-Wrote (dangerously_raw expression) n out depth = absurd n
    node-Wrote (negation f) n out depth =
        from-Wrote out not_word (plains not_word) (in_parentheses std name (layout std name f)) _
          (word-Lexes not_word refl)
          (grouped-Wrote (out ++ not_word) (layout std name f) depth (write_node std name f)
            (λ o d. node-Wrote f n o d))
    node-Wrote (conjunction fs) n out depth =
        group-Wrote fs out (joined (plains and_word) (layouts std name fs)) _
          (members-Wrote fs n and_word refl out depth)
    node-Wrote (disjunction fs) n out depth =
        group-Wrote fs out (joined (plains or_word) (layouts std name fs)) _
          (members-Wrote fs n or_word refl out depth)

    members-Wrote :
        (fs : Filters F Float)
        → AllNoRaw fs
        → (operator : Text) → is_plain operator ≡ true
        → (out : Text) (depth : ℕ)
        → Wrote out
            (joined (plains operator) (layouts std name fs))
            (write_members std name fs operator 0 out depth)
    members-Wrote no_filters n operator h out depth = ([], sym (append-nil out), nil-Lexes)
    members-Wrote (filters f fs) (n, m) operator h out depth =
        let ts = in_parentheses std name (layout std name f) in
        let us = each (plains operator) (layouts std name fs) in
        bind-Wrote out ts us (write_grouped (write_node std name f) out depth)
          (λ o. write_members std name fs operator 1 o depth)
          (grouped-Wrote out (layout std name f) depth (write_node std name f)
            (λ o d. node-Wrote f n o d))
          (λ o. others-Wrote fs m operator h 0 o depth)

    others-Wrote :
        (fs : Filters F Float)
        → AllNoRaw fs
        → (operator : Text) → is_plain operator ≡ true
        → (i : ℕ) (out : Text) (depth : ℕ)
        → Wrote out
            (each (plains operator) (layouts std name fs))
            (write_members std name fs operator (suc i) out depth)
    others-Wrote no_filters n operator h i out depth = ([], sym (append-nil out), nil-Lexes)
    others-Wrote (filters f fs) (n, m) operator h i out depth =
        each_member fs operator h f i depth out (λ o d. node-Wrote f n o d)
          (λ o. others-Wrote fs m operator h (suc i) o depth)

  -- A rendered filter without raw expressions is read back, by a reader of quoted strings that knows nothing of filters,
  -- as the tokens of the filter: its names and values are whole strings, each where the filter has it,
  -- whatever their characters are, and all the rest is the filter's own operators, separators and
  -- parentheses. The standard library prints numbers without quotes and backslashes.
  pub lex-render :
      (f : Filter F Float) (rendered : Text)
      → NoRaw f
      → render std name f ≡ ok rendered
      → lex rendered ≡ some (layout std name f)
  unfolding render write
  lex-render f rendered n q =
      let (cs, e, g) = subst (Wrote [] (layout std name f)) q (node-Wrote f n [] 0) in
      ap lex e ∙ Lexes-lex cs (layout std name f) g
