-- ===== src/Entity/Meilisearch/Filter/Rendered.antt =====
-- What each part of a rendered filter is read back as (wakuwaku-entity/src/meilisearch/filter.rs).
use wakuwaku.Base.{
  ℕ, suc, ◌≡◌, refl, sym, ◌∙◌, subst, ltb, true, Bool-cases, inl, inr, List, [], ◌∷◌, ◌++◌,
  append_assoc, append-nil, Result, ok, err, ◌>>=◌, arith,
}
use wakuwaku.Entity.Meilisearch.Keywords.{comma_word, to_word, in_word}
use wakuwaku.Entity.Meilisearch.Filter.{
  Text, Numbers, Value, bool, int, uint, float, text, between, among, FilterError, space, bool_word,
  push, write_value, write_values, compare, postfix, write_between, write_among, quote,
  quote_display,
}
use wakuwaku.Entity.Meilisearch.Filter.Lexer.{
  Token, quoted, plains, Plain, is_plain, is_plain-Plain, Lexes, nil-Lexes, append-Lexes,
  plains-Lexes, in_quotes, quote_is, quoted-Lexes, quote_display_is,
}
use wakuwaku.Entity.Meilisearch.Filter.Layout.{
  each, joined, Displays, content, contents, comparison, layout,
}

-- A success adds to the output a text that is read as the tokens.
abbrev pub Wrote : Text → List Token → Result FilterError Text → Type 0
Wrote out ts (err e) = Unit {0}
Wrote out ts (ok out') = (cs : Text) × (out' ≡ out ++ cs) × Lexes cs ts

-- The output already has the first tokens.
pub from-Wrote :
    (out cs : Text) (ts us : List Token) (r : Result FilterError Text)
    → Lexes cs ts
    → Wrote (out ++ cs) us r
    → Wrote out (ts ++ us) r
from-Wrote out cs ts us (err e) f w = tt
from-Wrote out cs ts us (ok out') f (ds, e, g) =
    (cs ++ ds, e ∙ append_assoc out cs ds, append-Lexes cs ds ts us f g)

pub bind-Wrote :
    (out : Text) (ts us : List Token) (r : Result FilterError Text)
    (k : Text → Result FilterError Text)
    → Wrote out ts r
    → ((out' : Text) → Wrote out' us (k out'))
    → Wrote out (ts ++ us) (r >>= k)
bind-Wrote out ts us (err e) k w f = tt
bind-Wrote out ts us (ok out') k (cs, e, g) f =
    from-Wrote out cs ts us (k out') g (subst (λ (o : Text). Wrote o us (k out')) e (f out'))

-- Words without quotes.
pub word-Lexes : (cs : Text) → is_plain cs ≡ true → Lexes cs (plains cs)
word-Lexes cs h = plains-Lexes cs (is_plain-Plain cs h)

pub word-Wrote : (out cs : Text) → is_plain cs ≡ true → Wrote out (plains cs) (ok (out ++ cs))
word-Wrote out cs h = (cs, refl, word-Lexes cs h)

quote-Wrote : (out cs : Text) → Wrote out (quoted cs ∷ []) (ok (quote out cs))
quote-Wrote out cs = (in_quotes cs, quote_is out cs, quoted-Lexes cs)

-- A string, and what is written after it.
after_quote-Wrote :
    (out cs : Text) (us : List Token) (k : Text → Result FilterError Text)
    → ((out' : Text) → Wrote out' us (k out'))
    → Wrote out ((quoted cs ∷ []) ++ us) (k (quote out cs))
after_quote-Wrote out cs us k f =
    bind-Wrote out (quoted cs ∷ []) us (ok (quote out cs)) k (quote-Wrote out cs) f

pub members_later : (i : ℕ) → ltb 0 (suc i) ≡ true
members_later i = ground arith

module _ {Float : Type 0} (std : Numbers Float) (displays : Displays std) where
  display-Wrote :
      (out cs : Text) → Plain cs → Wrote out (quoted cs ∷ []) (ok (quote_display out cs))
  display-Wrote out cs p = (in_quotes cs, quote_display_is out cs p, quoted-Lexes cs)

  value-Wrote :
      (out : Text) (v : Value Float)
      → Wrote out (quoted (content std v) ∷ []) (write_value std out v)
  unfolding write_value
  value-Wrote out (bool b) = quote-Wrote out (bool_word b)
  value-Wrote out (int n) = display-Wrote out (std.display_int n) (displays.int_plain n)
  value-Wrote out (uint n) = display-Wrote out (std.display_uint n) (displays.uint_plain n)
  value-Wrote out (text cs) = quote-Wrote out cs
  value-Wrote out (float x) = elim (Bool-cases (std.is_finite x)) [
    | inl q ↦ rw q (display-Wrote out (std.display_float x) (displays.float_plain x q))
    | inr q ↦ rw q tt
  ]

  each-Wrote :
      (out : Text) (i : ℕ) (vs : List (Value Float))
      → Wrote out (each (plains comma_word) (contents std vs)) (write_values std out (suc i) vs)
  unfolding write_values
  each-Wrote out i [] = ([], sym (append-nil out), nil-Lexes)
  each-Wrote out i (v ∷ vs) = rw (members_later i) (
      from-Wrote out comma_word (plains comma_word)
        ((quoted (content std v) ∷ []) ++ each (plains comma_word) (contents std vs)) _
        (word-Lexes comma_word refl)
        (bind-Wrote (out ++ comma_word) (quoted (content std v) ∷ [])
          (each (plains comma_word) (contents std vs)) (write_value std (out ++ comma_word) v)
          (λ out'. write_values std out' (suc (suc i)) vs) (value-Wrote (out ++ comma_word) v)
          (λ out'. each-Wrote out' (suc i) vs)))

  values-Wrote :
      (out : Text) (vs : List (Value Float))
      → Wrote out (joined (plains comma_word) (contents std vs)) (write_values std out 0 vs)
  unfolding write_values
  values-Wrote out [] = ([], sym (append-nil out), nil-Lexes)
  values-Wrote out (v ∷ vs) =
      bind-Wrote out (quoted (content std v) ∷ []) (each (plains comma_word) (contents std vs))
        (write_value std out v) (λ out'. write_values std out' 1 vs) (value-Wrote out v)
        (λ out'. each-Wrote out' 0 vs)

  module _ {F : Type 0} (name : F → Text) where
    pub compare-Wrote :
        (out : Text) (field : F) (operator : Text) (v : Value Float)
        → is_plain operator ≡ true
        → Wrote out (comparison std name field operator v) (compare std name out field operator v)
    unfolding compare
    compare-Wrote out field operator v h =
        after_quote-Wrote out (name field)
          (plains (space ∷ [])
            ++ (plains operator ++ (plains (space ∷ []) ++ quoted (content std v) ∷ [])))
          (λ o. write_value std (push (push o space ++ operator) space) v)
          (λ o.
            from-Wrote o (space ∷ []) (plains (space ∷ []))
              (plains operator ++ (plains (space ∷ []) ++ quoted (content std v) ∷ [])) _
              (word-Lexes (space ∷ []) refl)
              (from-Wrote (push o space) operator (plains operator)
                (plains (space ∷ []) ++ quoted (content std v) ∷ []) _ (word-Lexes operator h)
                (from-Wrote (push o space ++ operator) (space ∷ []) (plains (space ∷ []))
                  (quoted (content std v) ∷ []) _ (word-Lexes (space ∷ []) refl)
                  (value-Wrote (push (push o space ++ operator) space) v))))

    pub between-Wrote :
        (out : Text) (field : F) (low high : Value Float)
        → Wrote out
            (layout std name (between field low high))
            (write_between std name out field low high)
    unfolding write_between
    between-Wrote out field low high =
        let second = quoted (content std high) ∷ [] in
        after_quote-Wrote out (name field)
          (plains (space ∷ []) ++ ((quoted (content std low) ∷ []) ++ (plains to_word ++ second)))
          (λ o. write_value std (push o space) low >>= λ o'. write_value std (o' ++ to_word) high)
          (λ o.
            from-Wrote o (space ∷ []) (plains (space ∷ []))
              ((quoted (content std low) ∷ []) ++ (plains to_word ++ second)) _
              (word-Lexes (space ∷ []) refl)
              (bind-Wrote (push o space) (quoted (content std low) ∷ []) (plains to_word ++ second)
                (write_value std (push o space) low) (λ o'. write_value std (o' ++ to_word) high)
                (value-Wrote (push o space) low)
                (λ o'.
                  from-Wrote o' to_word (plains to_word) second _ (word-Lexes to_word refl)
                    (value-Wrote (o' ++ to_word) high))))

    pub among-Wrote :
        (out : Text) (field : F) (vs : List (Value Float))
        → Wrote out (layout std name (among field vs)) (write_among std name out field vs)
    unfolding write_among
    among-Wrote out field vs =
        let inner = joined (plains comma_word) (contents std vs) in
        after_quote-Wrote out (name field) (plains in_word ++ (inner ++ plains (93 ∷ [])))
          (λ o. write_values std (o ++ in_word) 0 vs >>= λ o'. ok (push o' 93))
          (λ o.
            from-Wrote o in_word (plains in_word) (inner ++ plains (93 ∷ [])) _
              (word-Lexes in_word refl)
              (bind-Wrote (o ++ in_word) inner (plains (93 ∷ []))
                (write_values std (o ++ in_word) 0 vs) (λ o'. ok (push o' 93))
                (values-Wrote (o ++ in_word) vs) (λ o'. word-Wrote o' (93 ∷ []) refl)))

    pub postfix-Wrote :
        (out : Text) (field : F) (operator : Text)
        → is_plain operator ≡ true
        → Wrote out
            ((quoted (name field) ∷ []) ++ plains operator)
            (postfix name out field operator)
    unfolding postfix
    postfix-Wrote out field operator h =
        after_quote-Wrote out (name field) (plains operator) (λ o. ok (o ++ operator))
          (λ o. word-Wrote o operator h)
