-- ===== src/Partition/Plan/Order/Sorted.antt =====
-- The sort by key of wakuwaku-iggy/src/partition/plan.rs orders and rearranges.
use mathlib.Core.List.{Perm}
use mathlib.Core.List.Perm
use wakuwaku.Base.{
  ℕ, zero, suc, ◌<◌, ◌≡◌, ◌⊎◌, inl, inr, Bool, true, List, [], ◌∷◌, some, get_elem?, arith,
  Bool-cases, some_inj, subst,
}
use wakuwaku.Partition.Plan.Order.{SortKey, lex, key_le, insert, sort_by_key}

lex_trans :
    (a b c : ℕ) (p q r : Bool)
    → lex a b p ≡ true
    → lex b c q ≡ true
    → (p ≡ true → q ≡ true → r ≡ true)
    → lex a c r ≡ true
lex_trans a b c p q r h k f = ground arith

lex_total :
    (a b : ℕ) (p q : Bool) → ((p ≡ true) ⊎ (q ≡ true)) → (lex a b p ≡ true) ⊎ (lex b a q ≡ true)
lex_total a b p q h = ground arith

pub key_le_trans : (a b c : SortKey) → key_le a b ≡ true → key_le b c ≡ true → key_le a c ≡ true
unfolding key_le
key_le_trans a b c h k = lex_trans a.key b.key c.key _ _ _ h k λ h k.
    lex_trans a.segment b.segment c.segment _ _ _ h k λ h k.
      lex_trans a.rank b.rank c.rank _ _ _ h k
        λ h k. lex_trans a.tag b.tag c.tag _ _ _ h k λ h k. ground arith

pub key_le-total : (a b : SortKey) → (key_le a b ≡ true) ⊎ (key_le b a ≡ true)
unfolding key_le
key_le-total a b = lex_total a.key b.key _ _ (
    lex_total a.segment b.segment _ _
      (lex_total a.rank b.rank _ _ (lex_total a.tag b.tag _ _ (ground arith))))

module _ (key : ℕ → SortKey) where
  -- `i` goes before all of the list.
  abbrev Below : ℕ → List ℕ → Type 0
  Below i [] = Unit {0}
  Below i (j ∷ js) = (key_le (key i) (key j) ≡ true) × Below i js

  abbrev pub IsSorted : List ℕ → Type 0
  IsSorted [] = Unit {0}
  IsSorted (i ∷ is) = Below i is × IsSorted is

  Below-trans : (i j : ℕ) (js : List ℕ) → key_le (key i) (key j) ≡ true → Below j js → Below i js
  Below-trans i j [] h b = tt
  Below-trans i j (k ∷ js) h (b, bs) =
      (key_le_trans (key i) (key j) (key k) h b, Below-trans i j js h bs)

  Below-insert :
      (i j : ℕ) (js : List ℕ)
      → key_le (key i) (key j) ≡ true
      → Below i js
      → Below i (insert key j js)
  unfolding insert
  Below-insert i j [] h b = (h, tt)
  Below-insert i j (k ∷ js) h (b, bs) = elim (Bool-cases (key_le (key j) (key k))) [
    | inl e ↦ rw e (h, (b, bs))
    | inr e ↦ rw e (b, Below-insert i j js h bs)
  ]

  insert-IsSorted : (i : ℕ) (js : List ℕ) → IsSorted js → IsSorted (insert key i js)
  unfolding insert
  insert-IsSorted i [] s = (tt, tt)
  insert-IsSorted i (j ∷ js) (b, s) = elim (Bool-cases (key_le (key i) (key j))) [
    | inl e ↦ rw e ((e, Below-trans i j js e b), (b, s))
    | inr e ↦ rw e (
      Below-insert j i js (ground (arith, key_le-total (key i) (key j))) b,
      insert-IsSorted i js s,
    )
  ]

  pub sort_by_key-IsSorted : (is : List ℕ) → IsSorted (sort_by_key key is)
  unfolding sort_by_key
  sort_by_key-IsSorted [] = tt
  sort_by_key-IsSorted (i ∷ is) = insert-IsSorted i (sort_by_key key is) (sort_by_key-IsSorted is)

  insert-perm : (i : ℕ) (js : List ℕ) → Perm (insert key i js) (i ∷ js)
  unfolding insert
  insert-perm i [] = Perm.refl (i ∷ [])
  insert-perm i (j ∷ js) = elim (Bool-cases (key_le (key i) (key j))) [
    | inl e ↦ rw e (Perm.refl (i ∷ j ∷ js))
    | inr e ↦ rw e (Perm.trans (Perm.cons j (insert-perm i js)) (Perm.swap i j js))
  ]

  pub sort_by_key-perm : (is : List ℕ) → Perm (sort_by_key key is) is
  unfolding sort_by_key
  sort_by_key-perm [] = Perm.refl []
  sort_by_key-perm (i ∷ is) =
      Perm.trans (insert-perm i (sort_by_key key is)) (Perm.cons i (sort_by_key-perm is))

  Below-get :
      (i : ℕ) (js : List ℕ) (b j : ℕ)
      → Below i js
      → get_elem? js b ≡ some j
      → key_le (key i) (key j) ≡ true
  Below-get i [] b j h e = absurd (cc)
  Below-get i (k ∷ js) zero j (h, hs) e = subst (λ x. key_le (key i) (key x) ≡ true) (some_inj e) h
  Below-get i (k ∷ js) (suc b) j (h, hs) e = Below-get i js b j hs e

  -- Entries further down the list have greater keys.
  pub IsSorted-get :
      (is : List ℕ) (a b i j : ℕ)
      → IsSorted is
      → a < b
      → get_elem? is a ≡ some i
      → get_elem? is b ≡ some j
      → key_le (key i) (key j) ≡ true
  IsSorted-get [] a b i j s h e f = absurd (cc)
  IsSorted-get (k ∷ is) a zero i j s h e f = absurd (omega arith)
  IsSorted-get (k ∷ is) zero (suc b) i j s h e f =
      subst (λ x. key_le (key x) (key j) ≡ true) (some_inj e) (Below-get k is b j s.0 f)
  IsSorted-get (k ∷ is) (suc a) (suc b) i j s h e f = IsSorted-get is a b i j s.1 (omega arith) e f
