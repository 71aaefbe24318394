-- ===== src/Entity/Meilisearch/Filter.antt =====
-- wakuwaku-entity/src/meilisearch/filter.rs: filters and sorts, and their rendering. A string is the list of
-- its characters' codes. Floats and the printing of numbers are the standard library's: parameters.
pub mod Lexer
pub mod Layout
pub mod Rendered
pub mod RoundTrip
pub mod Verdict
pub mod Failures
mod Examples
use wakuwaku.Base.{
  ℕ, zero, suc, ◌+◌, ◌==◌, ltb, Bool, true, false, ◌||◌, List, [], ◌∷◌, ◌++◌, if◌then◌else◌, Result,
  ok, err, ◌>>=◌, saturating_add,
}
use wakuwaku.Entity.Meilisearch.Keywords.{
  to_word, in_word, exists_word, null_word, empty_word, not_word, and_word, or_word, comma_word,
}

abbrev pub Text : Type 0
Text = List ℕ

pub data ℤ : Type 0 where
  pos : ℕ → ℤ
  negsuc : ℕ → ℤ

-- What the module uses of the standard library's floats and of `Display`.
pub record Numbers (Float : Type 0) : Type 0 where
  pub is_finite : Float → Bool
  pub display_int : ℤ → Text
  pub display_uint : ℕ → Text
  pub display_float : Float → Text

-- The characters that the module writes.
abbrev pub double_quote : ℕ
double_quote = 34

abbrev pub backslash : ℕ
backslash = 92

abbrev pub space : ℕ
space = 32

pub data Value (Float : Type 0) : Type 0 where
  bool : Bool → Value Float
  int : ℤ → Value Float
  uint : ℕ → Value Float
  float : Float → Value Float
  text : Text → Value Float

mutual
  pub data Filter (F Float : Type 0) : Type 0 where
    eq ne gt gte lt lte : F → Value Float → Filter F Float
    between : F → Value Float → Value Float → Filter F Float
    among : F → List (Value Float) → Filter F Float
    exists is_null is_empty : F → Filter F Float
    negation : Filter F Float → Filter F Float
    conjunction disjunction : Filters F Float → Filter F Float
    dangerously_raw : Text → Filter F Float

  pub data Filters (F Float : Type 0) : Type 0 where
    no_filters : Filters F Float
    filters : Filter F Float → Filters F Float → Filters F Float

pub data FilterError : Type 0 where
  empty_group non_finite_number too_deep : FilterError

abbrev pub max_depth : ℕ
max_depth = 64

-- `out.push(c)`
abbrev pub push : Text → ℕ → Text
push out c = out ++ c ∷ []

-- The loop of `quote`.
abbrev pub escape : Text → Text → Text
escape out [] = out
escape out (c ∷ cs) =
    escape (push (if (c == double_quote) || (c == backslash) then push out backslash else out) c) cs

unfoldable pub quote : Text → Text → Text
quote out cs = push (escape (push out double_quote) cs) double_quote

unfoldable pub quote_display : Text → Text → Text
quote_display out digits = push (push out double_quote ++ digits) double_quote

-- `true`, `false`
abbrev pub bool_word : Bool → Text
bool_word true = 116 ∷ 114 ∷ 117 ∷ 101 ∷ []
bool_word false = 102 ∷ 97 ∷ 108 ∷ 115 ∷ 101 ∷ []

unfoldable pub postfix : {F : Type 0} → (F → Text) → Text → F → Text → Result FilterError Text
unfolding quote
postfix name out field operator = ok (quote out (name field) ++ operator)

-- The first test of `write`.
abbrev pub unless_deep : ℕ → Result FilterError Text → Result FilterError Text
unless_deep depth written = if ltb max_depth depth then err too_deep else written

-- `write_grouped`, of a filter that `write_node` writes.
abbrev pub write_grouped : (Text → ℕ → Result FilterError Text) → Text → ℕ → Result FilterError Text
write_grouped write_node out depth =
    unless_deep (saturating_add depth 1) (write_node (push out 40) (saturating_add depth 1))
    >>= λ out'. ok (push out' 41)

-- `write_group`, with its loop.
abbrev pub write_group :
    {F Float : Type 0} → Filters F Float → Result FilterError Text → Result FilterError Text
write_group no_filters loop = err empty_group
write_group (filters f fs) loop = loop

module _ {Float : Type 0} (std : Numbers Float) where
  unfoldable pub write_value : Text → Value Float → Result FilterError Text
  unfolding quote quote_display
  write_value out (bool b) = ok (quote out (bool_word b))
  write_value out (int n) = ok (quote_display out (std.display_int n))
  write_value out (uint n) = ok (quote_display out (std.display_uint n))
  write_value out (float x) =
      if std.is_finite x
      then ok (quote_display out (std.display_float x))
      else err non_finite_number
  write_value out (text cs) = ok (quote out cs)

  -- The loop of `In`, from the index `i` on.
  unfoldable pub write_values : Text → ℕ → List (Value Float) → Result FilterError Text
  unfolding write_value
  write_values out i [] = ok out
  write_values out i (v ∷ vs) =
      write_value (if ltb 0 i then out ++ comma_word else out) v >>= λ out'.
      write_values out' (suc i) vs

  module _ {F : Type 0} (name : F → Text) where
    unfoldable pub compare : Text → F → Text → Value Float → Result FilterError Text
    unfolding quote write_value
    compare out field operator v =
        write_value (push (push (quote out (name field)) space ++ operator) space) v

    unfoldable pub write_between : Text → F → Value Float → Value Float → Result FilterError Text
    unfolding quote write_value
    write_between out field low high =
        write_value (push (quote out (name field)) space) low >>= λ out'.
        write_value (out' ++ to_word) high

    unfoldable pub write_among : Text → F → List (Value Float) → Result FilterError Text
    unfolding quote write_values
    write_among out field vs =
        write_values (quote out (name field) ++ in_word) 0 vs >>= λ out'. ok (push out' 93)

    unfoldable mutual
      unfolding compare postfix write_between write_among

      -- `write`, after the test.
      pub write_node : Filter F Float → Text → ℕ → Result FilterError Text
      write_node (eq field v) out depth = compare out field (61 ∷ []) v
      write_node (ne field v) out depth = compare out field (33 ∷ 61 ∷ []) v
      write_node (gt field v) out depth = compare out field (62 ∷ []) v
      write_node (gte field v) out depth = compare out field (62 ∷ 61 ∷ []) v
      write_node (lt field v) out depth = compare out field (60 ∷ []) v
      write_node (lte field v) out depth = compare out field (60 ∷ 61 ∷ []) v
      write_node (between field low high) out depth = write_between out field low high
      write_node (among field vs) out depth = write_among out field vs
      write_node (exists field) out depth = postfix name out field exists_word
      write_node (is_null field) out depth = postfix name out field null_word
      write_node (is_empty field) out depth = postfix name out field empty_word
      write_node (negation f) out depth = write_grouped (write_node f) (out ++ not_word) depth
      write_node (conjunction fs) out depth = write_group fs (write_members fs and_word 0 out depth)
      write_node (disjunction fs) out depth = write_group fs (write_members fs or_word 0 out depth)
      write_node (dangerously_raw expression) out depth = ok (out ++ expression)

      -- The loop of `write_group`, from the index `i` on.
      pub write_members : Filters F Float → Text → ℕ → Text → ℕ → Result FilterError Text
      write_members no_filters operator i out depth = ok out
      write_members (filters f fs) operator i out depth =
          write_grouped (write_node f) (if ltb 0 i then out ++ operator else out) depth >>= λ out'.
          write_members fs operator (suc i) out' depth

    unfoldable pub write : Filter F Float → Text → ℕ → Result FilterError Text
    unfolding write_node
    write f out depth = unless_deep depth (write_node f out depth)

    unfoldable pub render : Filter F Float → Result FilterError Text
    unfolding write
    render f = write f [] 0

pub data Order : Type 0 where
  asc desc : Order

pub record Sort (F : Type 0) : Type 0 where
  pub field : F
  pub order : Order

-- `asc`, `desc`
abbrev pub order_word : Order → Text
order_word asc = 97 ∷ 115 ∷ 99 ∷ []
order_word desc = 100 ∷ 101 ∷ 115 ∷ 99 ∷ []

unfoldable pub render_sort : {F : Type 0} → (F → Text) → Sort F → Text
render_sort name sort = push (name sort.field) 58 ++ order_word sort.order
