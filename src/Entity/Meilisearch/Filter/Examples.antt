-- ===== src/Entity/Meilisearch/Filter/Examples.antt =====
-- Filters on the fields of a post, after the tests of wakuwaku-entity/src/meilisearch/filter.rs. Numbers are printed
-- in unary here, and of the floats there are 2.5 and NaN.
use wakuwaku.Base.{ℕ, zero, suc, ◌≡◌, refl, Bool, true, false, [], ◌∷◌, ok, err, some, ◌≤◌}
use wakuwaku.Entity.Meilisearch.Filter.{
  Text, ℤ, pos, negsuc, Numbers, int, float, text, Filter, eq, gt, between, exists, negation,
  conjunction, disjunction, no_filters, filters, empty_group, non_finite_number, too_deep,
  max_depth, render, write, write_node, write_value, compare, postfix, quote, quote_display, desc,
  render_sort,
}
use wakuwaku.Entity.Meilisearch.Filter.Lexer.{Plain, is_plain-Plain, lex}
use wakuwaku.Entity.Meilisearch.Filter.Layout.{Displays, layout}
use wakuwaku.Entity.Meilisearch.Filter.Verdict.{Judged, Finite, Grouped, nesting}
use wakuwaku.Entity.Meilisearch.Filter.Failures.{render-Judged}
use wakuwaku.Entity.Meilisearch.Filter.RoundTrip.{lex-render}

data Post : Type 0 where
  author title : Post

-- `a`, `t`
abbrev name : Post → Text
name author = 97 ∷ []
name title = 116 ∷ []

abbrev unary : ℕ → Text
unary zero = []
unary (suc n) = 49 ∷ unary n

unary-Plain : (n : ℕ) → Plain (unary n)
unary-Plain zero = tt
unary-Plain (suc n) = (refl, refl, unary-Plain n)

abbrev display : ℤ → Text
display (pos n) = unary n
display (negsuc n) = 45 ∷ 49 ∷ unary n

display-Plain : (n : ℤ) → Plain (display n)
display-Plain (pos n) = unary-Plain n
display-Plain (negsuc n) = (refl, refl, (refl, refl, unary-Plain n))

-- `true` is 2.5, and `false` is NaN.
abbrev digits : Bool → Text
digits true = 50 ∷ 46 ∷ 53 ∷ []
digits false = 78 ∷ 97 ∷ 78 ∷ []

digits-Plain : (b : Bool) → Plain (digits b)
digits-Plain true = is_plain-Plain (digits true) refl
digits-Plain false = is_plain-Plain (digits false) refl

abbrev numbers : Numbers Bool
numbers = record {
  is_finite = λ b. b;
  display_int = display;
  display_uint = unary;
  display_float = digits;
}

numbers-Displays : Displays numbers
numbers-Displays = record {
  int_plain = display-Plain;
  uint_plain = unary-Plain;
  float_plain = λ x q. digits-Plain x;
}

-- The title is `"\`: it stays inside its quotes.
abbrev injection : Filter Post Bool
injection = eq title (text (34 ∷ 92 ∷ []))

injection_rendered :
    render numbers name injection
    ≡ ok (34 ∷ 116 ∷ 34 ∷ 32 ∷ 61 ∷ 32 ∷ 34 ∷ 92 ∷ 34 ∷ 92 ∷ 92 ∷ 34 ∷ [])
unfolding render write write_node compare write_value quote quote_display
injection_rendered = refl

lex-render_example :
    lex (34 ∷ 116 ∷ 34 ∷ 32 ∷ 61 ∷ 32 ∷ 34 ∷ 92 ∷ 34 ∷ 92 ∷ 92 ∷ 34 ∷ [])
    ≡ some (layout numbers name injection)
lex-render_example =
    lex-render numbers numbers-Displays name injection
      (34 ∷ 116 ∷ 34 ∷ 32 ∷ 61 ∷ 32 ∷ 34 ∷ 92 ∷ 34 ∷ 92 ∷ 92 ∷ 34 ∷ []) tt injection_rendered

abbrev deep : ℕ → Filter Post Bool
deep zero = exists author
deep (suc n) = negation (deep n)

empty_refused : render numbers name (disjunction no_filters) ≡ err empty_group
unfolding render write write_node
empty_refused = refl

nan_refused : render numbers name (gt author (float false)) ≡ err non_finite_number
unfolding render write write_node compare write_value
nan_refused = refl

deep_refused : render numbers name (deep 65) ≡ err too_deep
unfolding render write write_node postfix quote
deep_refused = refl

-- `(("a" = "1") OR ("t" EXISTS)) AND (NOT ("a" "11" TO "2.5"))`
abbrev groups : Filter Post Bool
groups = conjunction (
    filters (disjunction (filters (eq author (int (pos 1))) (filters (exists title) no_filters)))
      (filters (negation (between author (int (pos 2)) (float true))) no_filters))

render-Judged_example :
    Judged
      (Finite numbers groups)
      (Grouped groups)
      (nesting groups ≤ max_depth)
      (render numbers name groups)
render-Judged_example = render-Judged numbers name groups

sort_rendered :
    render_sort name (record { field = author; order = desc }) ≡ 97 ∷ 58 ∷ 100 ∷ 101 ∷ 115 ∷ 99 ∷ []
unfolding render_sort
sort_rendered = refl
