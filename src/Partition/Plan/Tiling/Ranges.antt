-- ===== src/Partition/Plan/Tiling/Ranges.antt =====
-- Ranges that follow one another.
use wakuwaku.Base.{
  ℕ, zero, suc, ◌+◌, ◌-◌, ◌≤◌, ◌≡◌, refl, sym, ap, ap₂, ◌∙◌, List, [], ◌∷◌, ◌++◌, get_elem?, length,
  append_assoc, take, drop, map, drop-drop, take-all, arith,
}
use wakuwaku.Partition.Plan.{Range, Run, Plan}
use wakuwaku.Partition.Plan.View
use wakuwaku.Partition.Plan.View.{slice}
use wakuwaku.Partition.Plan.Reading.{to_list, records_of}

abbrev pub span : ℕ → ℕ → Range
span a b = record { start = a; end = b }

-- The ranges cut `a..b` into pieces.
abbrev pub Tiles : ℕ → List Range → ℕ → Type 0
Tiles a [] b = a ≡ b
Tiles a (r ∷ rs) b = (r.start ≡ a) × (a ≤ r.end) × Tiles r.end rs b

pub Tiles-le : (a : ℕ) (rs : List Range) (b : ℕ) → Tiles a rs b → a ≤ b
Tiles-le a [] b t = omega arith
Tiles-le a (r ∷ rs) b (s, l, t) = omega (arith, Tiles-le r.end rs b t)

pub Tiles-append :
    (a : ℕ) (rs : List Range) (b c : ℕ) → Tiles a rs b → b ≤ c → Tiles a (rs ++ span b c ∷ []) c
Tiles-append a [] b c t l = (sym t, omega arith, refl)
Tiles-append a (r ∷ rs) b c (s, h, t) l = (s, h, Tiles-append r.end rs b c t l)

module _ {ℓ} {A : Type ℓ} where
  take-nil : (n : ℕ) → take {A = A} n [] ≡ []
  take-nil zero = refl
  take-nil (suc n) = refl

  take-add : (m n k : ℕ) (xs : List A) → k ≡ m + n → take m xs ++ take n (drop m xs) ≡ take k xs
  take-add zero n k xs e = ap (λ (j : ℕ). take j xs) (omega (arith, e))
  take-add (suc m) n zero xs e = absurd (omega arith)
  take-add (suc m) n (suc k) [] e = take-nil n
  take-add (suc m) n (suc k) (x ∷ xs) e = ap (◌∷◌ x) (take-add m n k xs (omega arith))

  pub slice-append :
      (a b c : ℕ) (xs : List A)
      → a ≤ b
      → b ≤ c
      → slice xs (span a b) ++ slice xs (span b c) ≡ slice xs (span a c)
  unfolding slice
  slice-append a b c xs h k =
      ap (λ (ys : List A). take (b - a) (drop a xs) ++ take (c - b) ys)
        (ap (λ (j : ℕ). drop j xs) (omega arith) ∙ sym (drop-drop (b - a) a xs))
      ∙ take-add (b - a) (c - b) (c - a) (drop a xs) (omega arith)

  pub slice-empty : (a : ℕ) (xs : List A) → slice xs (span a a) ≡ []
  unfolding slice
  slice-empty a xs = ap (λ (j : ℕ). take j (drop a xs)) {x = a - a} {y = 0} (omega arith)

  pub slice-full : (xs : List A) (n : ℕ) → n ≡ length xs → slice xs (span 0 n) ≡ xs
  unfolding slice
  slice-full xs n e = take-all (n - 0) xs (omega (arith, e))

-- The run of an index, as a slice.
pub slice-one : (runs : List Run) (h : ℕ) → to_list (get_elem? runs h) ≡ slice runs (span h (suc h))
unfolding slice
slice-one runs h =
    one runs h ∙ ap (λ (j : ℕ). take j (drop h runs)) {x = 1} {y = suc h - h} (omega arith)
  where
    one : (runs : List Run) (h : ℕ) → to_list (get_elem? runs h) ≡ take 1 (drop h runs)
    one [] zero = refl
    one [] (suc h) = refl
    one (r ∷ runs) zero = refl
    one (r ∷ runs) (suc h) = one runs h

pub records_of-append :
    (plan : Plan) (xs ys : List Run)
    → records_of plan (xs ++ ys) ≡ records_of plan xs ++ records_of plan ys
records_of-append plan [] ys = refl
records_of-append plan (x ∷ xs) ys =
    ap (◌++◌ (View.records plan x)) (records_of-append plan xs ys)
    ∙ sym (append_assoc (View.records plan x) (records_of plan xs) (records_of plan ys))

-- Runs whose ranges are tiles hold what is between the ends.
pub records_of-Tiles :
    (plan : Plan) (a : ℕ) (runs : List Run) (b : ℕ)
    → Tiles a (map (λ (r : Run). r.records) runs) b
    → records_of plan runs ≡ slice plan.order (span a b)
unfolding View.records
records_of-Tiles plan a [] b t =
    sym (slice-empty a plan.order) ∙ ap (λ (x : ℕ). slice plan.order (span a x)) t
records_of-Tiles plan a (r ∷ runs) b (s, l, t) =
    ap₂ (λ (xs ys : List ℕ). xs ++ ys) (ap (λ (x : ℕ). slice plan.order (span x r.records.end)) s)
      (records_of-Tiles plan r.records.end runs b t)
    ∙ slice-append a r.records.end b plan.order l
        (Tiles-le r.records.end (map (λ (r : Run). r.records) runs) b t)
