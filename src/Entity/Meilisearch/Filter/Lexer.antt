-- ===== src/Entity/Meilisearch/Filter/Lexer.antt =====
-- A reading of filter expressions that is independent of how they are written: strings in double quotes, in
-- which a backslash stands before a quote or a backslash that belongs to the string, and other characters
-- (wakuwaku-entity/src/meilisearch/filter.rs).
use wakuwaku.Base.{
  ℕ, ◌==◌, ◌≡◌, refl, sym, ap, ◌∙◌, Bool, true, false, ◌||◌, Bool-cases, inl, inr, List, [], ◌∷◌,
  ◌++◌, append_assoc, append-nil, if◌then◌else◌, Option, none, some, arith,
}
use wakuwaku.Entity.Meilisearch.Filter.{
  Text, push, escape, quote, quote_display, double_quote, backslash,
}

pub data Token : Type 0 where
  quoted : Text → Token
  plain : ℕ → Token

-- Outside quotes; in quotes, after some characters; after a backslash in quotes.
pub data Mode : Type 0 where
  outside : Mode
  inside escaped : Text → Mode

-- What a character does: a token or none, and the next mode, or an error.
pub data Step : Type 0 where
  emit : Token → Step
  enter : Mode → Step
  reject : Step

abbrev pub step : Mode → ℕ → Step
step outside c = if c == double_quote then enter (inside []) else emit (plain c)
step (inside cs) c =
    if c == double_quote
    then emit (quoted cs)
    else if c == backslash
    then enter (escaped cs)
    else enter (inside (push cs c))
step (escaped cs) c =
    if (c == double_quote) || (c == backslash) then enter (inside (push cs c)) else reject

abbrev pub prefix : List Token → Option (List Token) → Option (List Token)
prefix ts none = none
prefix ts (some us) = some (ts ++ us)

abbrev pub follow : Step → (Mode → Option (List Token)) → Option (List Token)
follow (emit t) rest = prefix (t ∷ []) (rest outside)
follow (enter m) rest = rest m
follow reject rest = none

abbrev pub ended : Mode → Option (List Token)
ended outside = some []
ended (inside cs) = none
ended (escaped cs) = none

abbrev pub lex_in : Text → Mode → Option (List Token)
lex_in [] m = ended m
lex_in (c ∷ cs) m = follow (step m c) (lex_in cs)

abbrev pub lex : Text → Option (List Token)
lex cs = lex_in cs outside

-- A text that is read as tokens, whatever comes after it.
abbrev pub Lexes : Text → List Token → Type 0
Lexes cs ts = (rest : Text) → lex (cs ++ rest) ≡ prefix ts (lex rest)

prefix-append :
    (ts us : List Token) (o : Option (List Token)) → prefix ts (prefix us o) ≡ prefix (ts ++ us) o
prefix-append ts us none = refl
prefix-append ts us (some xs) = ap some (sym (append_assoc ts us xs))

prefix_nil : (o : Option (List Token)) → prefix [] o ≡ o
prefix_nil none = refl
prefix_nil (some us) = refl

pub nil-Lexes : Lexes [] []
nil-Lexes rest = sym (prefix_nil (lex rest))

pub append-Lexes :
    (cs ds : Text) (ts us : List Token) → Lexes cs ts → Lexes ds us → Lexes (cs ++ ds) (ts ++ us)
append-Lexes cs ds ts us f g rest =
    ap lex (append_assoc cs ds rest)
    ∙ f (ds ++ rest)
    ∙ ap (prefix ts) (g rest)
    ∙ prefix-append ts us (lex rest)

pub Lexes-lex : (cs : Text) (ts : List Token) → Lexes cs ts → lex cs ≡ some ts
Lexes-lex cs ts f = ap lex (sym (append-nil cs)) ∙ f [] ∙ ap some (append-nil ts)

-- No character that a string would escape.
abbrev pub Plain : Text → Type 0
Plain [] = Unit {0}
Plain (c ∷ cs) = ((c == double_quote) ≡ false) × ((c == backslash) ≡ false) × Plain cs

abbrev pub is_plain : Text → Bool
is_plain [] = true
is_plain (c ∷ cs) = if (c == double_quote) || (c == backslash) then false else is_plain cs

pub is_plain-Plain : (cs : Text) → is_plain cs ≡ true → Plain cs
is_plain-Plain [] h = tt
is_plain-Plain (c ∷ cs) h = elim (Bool-cases (c == double_quote)) [
  | inl q ↦ absurd (ground (arith, q, h))
  | inr q ↦ elim (Bool-cases (c == backslash)) [
    | inl k ↦ absurd (ground (arith, q, k, h))
    | inr k ↦ (q, k, is_plain-Plain cs (ground (arith, q, k, h)))
  ]
]

-- Characters outside quotes.
abbrev pub plains : Text → List Token
plains [] = []
plains (c ∷ cs) = plain c ∷ plains cs

pub plains-Lexes : (cs : Text) → Plain cs → Lexes cs (plains cs)
plains-Lexes [] p rest = sym (prefix_nil (lex rest))
plains-Lexes (c ∷ cs) (p, q, r) rest =
    ap
      (λ (b : Bool). follow (if b then enter (inside []) else emit (plain c)) (lex_in (cs ++ rest)))
      p
    ∙ ap (prefix (plain c ∷ [])) (plains-Lexes cs r rest)
    ∙ prefix-append (plain c ∷ []) (plains cs) (lex rest)

-- The characters of a string, with those of the loop of `quote`.
abbrev escapes : Text → Text
escapes [] = []
escapes (c ∷ cs) =
    if (c == double_quote) || (c == backslash) then backslash ∷ c ∷ escapes cs else c ∷ escapes cs

-- A string between its quotes.
abbrev pub in_quotes : Text → Text
in_quotes cs = double_quote ∷ (escapes cs ++ double_quote ∷ [])

escape-append : (out cs : Text) → escape out cs ≡ out ++ escapes cs
escape-append out [] = sym (append-nil out)
escape-append out (c ∷ cs) = of ((c == double_quote) || (c == backslash)) (λ o. escape-append o cs)
  where
    of :
        (b : Bool)
        → ((o : Text) → escape o cs ≡ o ++ escapes cs)
        → escape (push (if b then push out backslash else out) c) cs
          ≡ out ++ (if b then backslash ∷ c ∷ escapes cs else c ∷ escapes cs)
    of true f =
        f (push (push out backslash) c)
        ∙ append_assoc (push out backslash) (c ∷ []) (escapes cs)
        ∙ append_assoc out (backslash ∷ []) (c ∷ escapes cs)
    of false f = f (push out c) ∙ append_assoc out (c ∷ []) (escapes cs)

escapes-lex :
    (seen cs rest : Text)
    → lex_in (escapes cs ++ double_quote ∷ rest) (inside seen)
      ≡ prefix (quoted (seen ++ cs) ∷ []) (lex rest)
escapes-lex seen [] rest =
    ap (λ (x : Text). prefix (quoted x ∷ []) (lex rest)) (sym (append-nil seen))
escapes-lex seen (c ∷ cs) rest =
    let e =
      escapes-lex (push seen c) cs rest
      ∙ ap (λ (x : Text). prefix (quoted x ∷ []) (lex rest)) (append_assoc seen (c ∷ []) cs) in
    elim (Bool-cases (c == double_quote)) [
      | inl q ↦ rw q (rw q e)
      | inr q ↦ elim (Bool-cases (c == backslash)) [
        | inl k ↦ rw (q, k) (rw (q, k) e)
        | inr k ↦ rw (q, k) (rw q (rw k e))
      ]
    ]

-- `quote` adds a text that is read as the string, whatever its characters are.
pub quote_is : (out cs : Text) → quote out cs ≡ out ++ in_quotes cs
unfolding quote
quote_is out cs =
    ap (λ (x : Text). push x double_quote) (escape-append (push out double_quote) cs)
    ∙ append_assoc (push out double_quote) (escapes cs) (double_quote ∷ [])
    ∙ append_assoc out (double_quote ∷ []) (escapes cs ++ double_quote ∷ [])

pub quoted-Lexes : (cs : Text) → Lexes (in_quotes cs) (quoted cs ∷ [])
quoted-Lexes cs rest =
    ap (λ (x : Text). lex_in x (inside [])) (append_assoc (escapes cs) (double_quote ∷ []) rest)
    ∙ escapes-lex [] cs rest

escapes-Plain : (cs : Text) → Plain cs → escapes cs ≡ cs
escapes-Plain [] p = refl
escapes-Plain (c ∷ cs) (p, q, r) = rw (p, q) (ap (◌∷◌ c) (escapes-Plain cs r))

-- So does `quote_display`, of digits.
pub quote_display_is : (out cs : Text) → Plain cs → quote_display out cs ≡ out ++ in_quotes cs
unfolding quote_display
quote_display_is out cs p =
    append_assoc (push out double_quote) cs (double_quote ∷ [])
    ∙ append_assoc out (double_quote ∷ []) (cs ++ double_quote ∷ [])
    ∙ ap (λ (x : Text). out ++ (double_quote ∷ (x ++ double_quote ∷ []))) (sym (escapes-Plain cs p))
