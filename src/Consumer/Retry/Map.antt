-- ===== src/Consumer/Retry/Map.antt =====
-- A hash map from u64 keys as an association list.
use wakuwaku.Base.{
  ℕ, ◌==◌, false, List, [], ◌∷◌, Option, none, some, ◌≡◌, refl, arith, Bool-cases, inl, inr, subst,
  if◌then◌else◌, ◌+◌,
}

module _ {ℓ} {V : Type ℓ} where
  abbrev pub get : ℕ → List (ℕ × V) → Option V
  get k [] = none
  get k ((j, v) ∷ m) = if j == k then some v else get k m

  abbrev pub insert : ℕ → V → List (ℕ × V) → List (ℕ × V)
  insert k v [] = (k, v) ∷ []
  insert k v ((j, w) ∷ m) = if j == k then (k, v) ∷ m else (j, w) ∷ insert k v m

  abbrev pub remove : ℕ → List (ℕ × V) → List (ℕ × V)
  remove k [] = []
  remove k ((j, w) ∷ m) = if j == k then m else (j, w) ∷ remove k m

  abbrev pub values : List (ℕ × V) → List V
  values [] = []
  values ((k, v) ∷ m) = v ∷ values m

  pub get-insert :
      (k j : ℕ) (v : V) (m : List (ℕ × V))
      → get j (insert k v m) ≡ (if k == j then some v else get j m)
  get-insert k j v [] = refl
  get-insert k j v ((i, w) ∷ m) = ground (arith, get-insert k j v m)

  pub get-remove_ne : (k j : ℕ) (m : List (ℕ × V)) → (k == j) ≡ false → get j (remove k m) ≡ get j m
  get-remove_ne k j [] h = refl
  get-remove_ne k j ((i, w) ∷ m) h = ground (arith, get-remove_ne k j m)

  -- No key stands twice.
  abbrev pub Distinct : List (ℕ × V) → Type ℓ
  Distinct [] = Unit
  Distinct ((k, v) ∷ m) = (get k m ≡ none) × Distinct m

  pub Distinct-insert : (k : ℕ) (v : V) (m : List (ℕ × V)) → Distinct m → Distinct (insert k v m)
  Distinct-insert k v [] d = (refl, tt)
  Distinct-insert k v ((j, w) ∷ m) (n, d) =
      ground (arith, get-insert k j v m, Distinct-insert k v m d)

  pub get-remove-none : (k j : ℕ) (m : List (ℕ × V)) → get j m ≡ none → get j (remove k m) ≡ none
  get-remove-none k j [] h = refl
  get-remove-none k j ((i, w) ∷ m) h = ground (arith, get-remove-none k j m)

  pub Distinct-remove : (k : ℕ) (m : List (ℕ × V)) → Distinct m → Distinct (remove k m)
  Distinct-remove k [] d = tt
  Distinct-remove k ((j, w) ∷ m) (n, d) =
      ground (arith, get-remove-none k j m, Distinct-remove k m d)

  pub get-remove_self : (k : ℕ) (m : List (ℕ × V)) → Distinct m → get k (remove k m) ≡ none
  get-remove_self k [] d = refl
  get-remove_self k ((j, w) ∷ m) (n, d) = ground (arith, get-remove_self k m d)

  -- A sum over the entries, and a property of each.
  abbrev pub total : (V → ℕ) → List (ℕ × V) → ℕ
  total f [] = 0
  total f ((k, v) ∷ m) = f v + total f m

  abbrev pub AllValues {κ} : (V → Type κ) → List (ℕ × V) → Type κ
  AllValues P [] = Unit
  AllValues P ((k, v) ∷ m) = P v × AllValues P m

  abbrev pub weight : (V → ℕ) → Option V → ℕ
  weight f none = 0
  weight f (some v) = f v

  pub total-insert :
      (f : V → ℕ) (k : ℕ) (v : V) (m : List (ℕ × V))
      → total f (insert k v m) + weight f (get k m) ≡ total f m + f v
  total-insert f k v [] = ground arith
  total-insert f k v ((j, w) ∷ m) = ground (arith, total-insert f k v m)

  pub total-remove :
      (f : V → ℕ) (k : ℕ) (m : List (ℕ × V)) → total f (remove k m) + weight f (get k m) ≡ total f m
  total-remove f k [] = ground arith
  total-remove f k ((j, w) ∷ m) = ground (arith, total-remove f k m)

  pub AllValues-insert {κ} :
      (P : V → Type κ) (k : ℕ) (v : V) (m : List (ℕ × V))
      → P v
      → AllValues P m
      → AllValues P (insert k v m)
  AllValues-insert P k v [] p a = (p, tt)
  AllValues-insert P k v ((j, w) ∷ m) p (q, a) = elim (Bool-cases (j == k)) [
    | inl e ↦ rw e (p, a)
    | inr e ↦ rw e (q, AllValues-insert P k v m p a)
  ]

  pub AllValues-remove {κ} :
      (P : V → Type κ) (k : ℕ) (m : List (ℕ × V)) → AllValues P m → AllValues P (remove k m)
  AllValues-remove P k [] a = tt
  AllValues-remove P k ((j, w) ∷ m) (q, a) = elim (Bool-cases (j == k)) [
    | inl e ↦ rw e a
    | inr e ↦ rw e (q, AllValues-remove P k m a)
  ]

  pub AllValues-get {κ} :
      (P : V → Type κ) (k : ℕ) (m : List (ℕ × V)) (v : V) → AllValues P m → get k m ≡ some v → P v
  AllValues-get P k [] v a e = absurd (cc)
  AllValues-get P k ((j, w) ∷ m) v (q, a) e = elim (Bool-cases (j == k)) [
    | inl h ↦ subst P (ground arith) q
    | inr h ↦ AllValues-get P k m v a (ground arith)
  ]
