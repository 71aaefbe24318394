-- ===== src/Entity/Meilisearch/Filter/Layout.antt =====
-- The tokens of a filter's expression (wakuwaku-entity/src/meilisearch/filter.rs): names and values are strings,
-- which no other token depends on.
use wakuwaku.Base.{ℕ, List, [], ◌∷◌, ◌++◌, true, ◌≡◌}
use wakuwaku.Entity.Meilisearch.Keywords.{
  and_word, or_word, comma_word, not_word, to_word, in_word, exists_word, null_word, empty_word,
}
use wakuwaku.Entity.Meilisearch.Filter.{
  Text, ℤ, Numbers, Value, bool, int, uint, float, text, Filter, eq, ne, gt, gte, lt, lte, between,
  among, exists, is_null, is_empty, negation, conjunction, disjunction, dangerously_raw, Filters,
  no_filters, filters, bool_word, space,
}
use wakuwaku.Entity.Meilisearch.Filter.Lexer.{Token, quoted, plains, Plain}

-- What stands between members, and the members that follow the first.
abbrev pub each : List Token → List (List Token) → List Token
each separator [] = []
each separator (ts ∷ tss) = separator ++ (ts ++ each separator tss)

abbrev pub joined : List Token → List (List Token) → List Token
joined separator [] = []
joined separator (ts ∷ tss) = ts ++ each separator tss

-- No expression of a caller stands in the filter.
abbrev mutual
  pub NoRaw : {F Float : Type 0} → Filter F Float → Type 0
  NoRaw (dangerously_raw expression) = ⊥
  NoRaw (negation f) = NoRaw f
  NoRaw (conjunction fs) = AllNoRaw fs
  NoRaw (disjunction fs) = AllNoRaw fs
  NoRaw (eq field v) = Unit {0}
  NoRaw (ne field v) = Unit {0}
  NoRaw (gt field v) = Unit {0}
  NoRaw (gte field v) = Unit {0}
  NoRaw (lt field v) = Unit {0}
  NoRaw (lte field v) = Unit {0}
  NoRaw (between field low high) = Unit {0}
  NoRaw (among field vs) = Unit {0}
  NoRaw (exists field) = Unit {0}
  NoRaw (is_null field) = Unit {0}
  NoRaw (is_empty field) = Unit {0}

  pub AllNoRaw : {F Float : Type 0} → Filters F Float → Type 0
  AllNoRaw no_filters = Unit {0}
  AllNoRaw (filters f fs) = NoRaw f × AllNoRaw fs

module _ {Float : Type 0} (std : Numbers Float) where
  -- `Display` writes digits, signs, points and letters.
  pub record Displays : Type 0 where
    pub int_plain : (n : ℤ) → Plain (std.display_int n)
    pub uint_plain : (n : ℕ) → Plain (std.display_uint n)
    pub float_plain : (x : Float) → std.is_finite x ≡ true → Plain (std.display_float x)

  abbrev pub content : Value Float → Text
  content (bool b) = bool_word b
  content (int n) = std.display_int n
  content (uint n) = std.display_uint n
  content (float x) = std.display_float x
  content (text cs) = cs

  abbrev pub contents : List (Value Float) → List (List Token)
  contents [] = []
  contents (v ∷ vs) = (quoted (content v) ∷ []) ∷ contents vs

  module _ {F : Type 0} (name : F → Text) where
    abbrev pub comparison : F → Text → Value Float → List Token
    comparison field operator v =
        (quoted (name field) ∷ [])
        ++ (plains (space ∷ [])
            ++ (plains operator ++ (plains (space ∷ []) ++ quoted (content v) ∷ [])))

    abbrev pub in_parentheses : List Token → List Token
    in_parentheses ts = plains (40 ∷ []) ++ (ts ++ plains (41 ∷ []))

    abbrev mutual
      pub layout : Filter F Float → List Token
      layout (eq field v) = comparison field (61 ∷ []) v
      layout (ne field v) = comparison field (33 ∷ 61 ∷ []) v
      layout (gt field v) = comparison field (62 ∷ []) v
      layout (gte field v) = comparison field (62 ∷ 61 ∷ []) v
      layout (lt field v) = comparison field (60 ∷ []) v
      layout (lte field v) = comparison field (60 ∷ 61 ∷ []) v
      layout (between field low high) =
          (quoted (name field) ∷ [])
          ++ (plains (space ∷ [])
              ++ ((quoted (content low) ∷ []) ++ (plains to_word ++ quoted (content high) ∷ [])))
      layout (among field vs) =
          (quoted (name field) ∷ [])
          ++ (plains in_word ++ (joined (plains comma_word) (contents vs) ++ plains (93 ∷ [])))
      layout (exists field) = (quoted (name field) ∷ []) ++ plains exists_word
      layout (is_null field) = (quoted (name field) ∷ []) ++ plains null_word
      layout (is_empty field) = (quoted (name field) ∷ []) ++ plains empty_word
      layout (negation f) = plains not_word ++ in_parentheses (layout f)
      layout (conjunction fs) = joined (plains and_word) (layouts fs)
      layout (disjunction fs) = joined (plains or_word) (layouts fs)
      layout (dangerously_raw expression) = plains expression

      pub layouts : Filters F Float → List (List Token)
      layouts no_filters = []
      layouts (filters f fs) = in_parentheses (layout f) ∷ layouts fs
