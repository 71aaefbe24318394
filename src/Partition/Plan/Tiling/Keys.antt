-- ===== src/Partition/Plan/Tiling/Keys.antt =====
-- Keys whose segments follow one another.
use wakuwaku.Base.{
  ℕ, zero, suc, ◌≤◌, ◌<◌, ◌≡◌, refl, sym, ap, ap₂, ◌∙◌, subst, ◌⊎◌, inl, inr, List, [], ◌∷◌, ◌++◌,
  length, modify, append_assoc, arith,
}
use wakuwaku.Partition.Plan.{KeyPlan, Segment, Plan}
use wakuwaku.Partition.Plan.View
use wakuwaku.Partition.Plan.View.{slice}
use wakuwaku.Partition.Plan.Reading.{records_of, all_runs, segments_records, keys_records}
use wakuwaku.Partition.Plan.Build.{extend_range}
use wakuwaku.Partition.Plan.Assign.Each.{AllEmpty}
use wakuwaku.Partition.Plan.Tiling.Ranges.{span, slice-append, slice-empty}

abbrev pub IsEmpty : KeyPlan → Type 0
IsEmpty k = k.segments.start ≡ k.segments.end

abbrev Starts : ℕ → KeyPlan → Type 0
Starts a k = (k.segments.start ≡ a) × (a < k.segments.end)

-- The segments from `a` to `n` belong to the keys up to the one of index `c`, in the order of the keys.
abbrev pub KeysAt : ℕ → List KeyPlan → ℕ → ℕ → Type 0
KeysAt a [] c n = a ≡ n
KeysAt a (k ∷ ks) zero n =
    ((IsEmpty k × (a ≡ n)) ⊎ (Starts a k × (k.segments.end ≡ n))) × AllEmpty ks
KeysAt a (k ∷ ks) (suc c) n =
    (IsEmpty k × KeysAt a ks c n) ⊎ (Starts a k × KeysAt k.segments.end ks c n)

abbrev pub extend : ℕ → KeyPlan → KeyPlan
extend n k = record k { segments = extend_range n k.segments }

pub KeysAt-empty : (a : ℕ) (ks : List KeyPlan) → AllEmpty ks → KeysAt a ks 0 a
KeysAt-empty a [] e = refl
KeysAt-empty a (k ∷ ks) (e, es) = (inl (e, refl), es)

extended_empty :
    (n : ℕ) (k : KeyPlan) → IsEmpty k → Starts n (extend n k) × ((extend n k).segments.end ≡ suc n)
unfolding extend_range
extended_empty n k e = ground arith

extended_started :
    (a n : ℕ) (k : KeyPlan)
    → Starts a k
    → k.segments.end ≡ n
    → Starts a (extend n k) × ((extend n k).segments.end ≡ suc n)
unfolding extend_range
extended_started a n k s t = ground arith

pub KeysAt-le : (a : ℕ) (ks : List KeyPlan) (c n : ℕ) → KeysAt a ks c n → a ≤ n
KeysAt-le a [] c n t = omega arith
KeysAt-le a (k ∷ ks) zero n (inl (e, t), es) = omega arith
KeysAt-le a (k ∷ ks) zero n (inr (s, t), es) = omega (arith, s.1)
KeysAt-le a (k ∷ ks) (suc c) n (inl (e, t)) = KeysAt-le a ks c n t
KeysAt-le a (k ∷ ks) (suc c) n (inr (s, t)) = omega (arith, s.1, KeysAt-le k.segments.end ks c n t)

-- A segment more, for a key after all that have segments so far.
KeysAt-first :
    (n : ℕ) (ks : List KeyPlan) (c : ℕ)
    → AllEmpty ks
    → c < length ks
    → KeysAt n (modify (extend n) c ks) c (suc n)
KeysAt-first n [] c es h = absurd (omega arith)
KeysAt-first n (k ∷ ks) zero (e, es) h = let (s, f) = extended_empty n k e in (inr (s, f), es)
KeysAt-first n (k ∷ ks) (suc c) (e, es) h = inl (e, KeysAt-first n ks c es (omega arith))

pub KeysAt-extend :
    (a : ℕ) (ks : List KeyPlan) (c d n : ℕ)
    → KeysAt a ks c n
    → a ≤ n
    → c ≤ d
    → d < length ks
    → KeysAt a (modify (extend n) d ks) d (suc n)
KeysAt-extend a [] c d n t l h g = absurd (omega arith)
KeysAt-extend a (k ∷ ks) zero zero n (inl (e, t), es) l h g =
    let (s, f) = extended_empty n k e in
    (inr (subst (λ (x : ℕ). Starts x (extend n k)) (sym t) s, f), es)
KeysAt-extend a (k ∷ ks) zero zero n (inr (s, t), es) l h g =
    let (s', f) = extended_started a n k s t in (inr (s', f), es)
KeysAt-extend a (k ∷ ks) zero (suc d) n (inl (e, t), es) l h g = inl (
  e,
  subst (λ (x : ℕ). KeysAt x (modify (extend n) d ks) d (suc n)) (sym t)
      (KeysAt-first n ks d es (omega arith)),
)
KeysAt-extend a (k ∷ ks) zero (suc d) n (inr (s, t), es) l h g = inr (
  s,
  subst (λ (x : ℕ). KeysAt x (modify (extend n) d ks) d (suc n)) (sym t)
      (KeysAt-first n ks d es (omega arith)),
)
KeysAt-extend a (k ∷ ks) (suc c) zero n t l h g = absurd (omega arith)
KeysAt-extend a (k ∷ ks) (suc c) (suc d) n (inl (e, t)) l h g =
    inl (e, KeysAt-extend a ks c d n t l (omega arith) (omega arith))
KeysAt-extend a (k ∷ ks) (suc c) (suc d) n (inr (s, t)) l h g = inr (
  s,
  KeysAt-extend k.segments.end ks c d n t (KeysAt-le k.segments.end ks c n t) (omega arith)
      (omega arith),
)

segments_records-append :
    (plan : Plan) (xs ys : List Segment)
    → segments_records plan (xs ++ ys) ≡ segments_records plan xs ++ segments_records plan ys
segments_records-append plan [] ys = refl
segments_records-append plan (x ∷ xs) ys =
    ap (◌++◌ (records_of plan (all_runs plan x))) (segments_records-append plan xs ys)
    ∙ sym (
        append_assoc (records_of plan (all_runs plan x)) (segments_records plan xs)
          (segments_records plan ys))

module _ (plan : Plan) where
  abbrev records_between : ℕ → ℕ → List ℕ
  records_between a b = segments_records plan (slice plan.segments (span a b))

  between_empty : (a : ℕ) → records_between a a ≡ []
  between_empty a = ap (segments_records plan) (slice-empty a plan.segments)

  key_empty : (k : KeyPlan) → IsEmpty k → segments_records plan (View.segments plan k) ≡ []
  unfolding View.segments
  key_empty k e =
      ap (λ (x : ℕ). records_between k.segments.start x) (sym e) ∙ between_empty k.segments.start

  key_started :
      (a n : ℕ) (k : KeyPlan)
      → Starts a k
      → k.segments.end ≤ n
      → segments_records plan (View.segments plan k) ++ records_between k.segments.end n
        ≡ records_between a n
  unfolding View.segments
  key_started a n k (s, l) h =
      ap (λ (x : ℕ). records_between x k.segments.end ++ records_between k.segments.end n) s
      ∙ sym (
          segments_records-append plan (slice plan.segments (span a k.segments.end))
            (slice plan.segments (span k.segments.end n)))
      ∙ ap (segments_records plan) (slice-append a k.segments.end n plan.segments (omega arith) h)

  all_empty : (ks : List KeyPlan) → AllEmpty ks → keys_records plan ks ≡ []
  all_empty [] e = refl
  all_empty (k ∷ ks) (e, es) = ap₂ (λ (xs ys : List ℕ). xs ++ ys) (key_empty k e) (all_empty ks es)

  -- Keys whose segments follow one another hold the records of the segments between the ends.
  pub keys_records-KeysAt :
      (a : ℕ) (ks : List KeyPlan) (c n : ℕ)
      → KeysAt a ks c n
      → keys_records plan ks ≡ records_between a n
  keys_records-KeysAt a [] c n t = sym (between_empty a) ∙ ap (λ (x : ℕ). records_between a x) t
  keys_records-KeysAt a (k ∷ ks) zero n (inl (e, t), es) =
      ap₂ (λ (xs ys : List ℕ). xs ++ ys) (key_empty k e) (all_empty ks es)
      ∙ sym (between_empty a)
      ∙ ap (λ (x : ℕ). records_between a x) t
  keys_records-KeysAt a (k ∷ ks) zero n (inr (s, t), es) =
      ap (◌++◌ (segments_records plan (View.segments plan k))) (
        all_empty ks es
        ∙ sym (between_empty k.segments.end)
        ∙ ap (λ (x : ℕ). records_between k.segments.end x) t)
      ∙ key_started a n k s (omega (arith, t))
  keys_records-KeysAt a (k ∷ ks) (suc c) n (inl (e, t)) =
      ap₂ (λ (xs ys : List ℕ). xs ++ ys) (key_empty k e) (keys_records-KeysAt a ks c n t)
  keys_records-KeysAt a (k ∷ ks) (suc c) n (inr (s, t)) =
      ap (◌++◌ (segments_records plan (View.segments plan k)))
        (keys_records-KeysAt k.segments.end ks c n t)
      ∙ key_started a n k s (KeysAt-le k.segments.end ks c n t)
