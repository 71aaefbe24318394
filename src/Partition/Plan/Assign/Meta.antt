-- ===== src/Partition/Plan/Assign/Meta.antt =====
-- How one record changes the segments' metadata (`assign_segments` of
-- wakuwaku-iggy/src/partition/plan.rs).
use wakuwaku.Base.{
  ℕ, ◌≡◌, refl, subst, ◌⊎◌, inl, inr, ◌∙◌, true, false, List, [], ◌∷◌, ◌++◌, Option, none, some,
  get_elem?, length, modify, arith, Bool-cases, ℕ_discrete, get_elem?-append, get_elem?-modify_self,
  get_elem?-modify_ne, modify_last,
}
use wakuwaku.Partition.Plan.{PlanRecord, SegmentMeta}
use wakuwaku.Partition.Plan.Assign.{cut, still_open, get_or_insert, update}

-- What later records leave of the metadata of a segment.
pub record Evolves (m m' : SegmentMeta) : Type 0 where
  pub key : m'.key ≡ m.key
  pub head : m'.head ≡ m.head
  pub tail : (t : ℕ) → m.tail ≡ some t → m'.tail ≡ some t
  pub mixed : m.mixed ≡ true → m'.mixed ≡ true

abbrev pub MetasEvolve : List SegmentMeta → List SegmentMeta → Type 0
MetasEvolve ms ms' =
    (s : ℕ) (m : SegmentMeta)
    → get_elem? ms s ≡ some m
    → (m' : SegmentMeta) × (get_elem? ms' s ≡ some m') × Evolves m m'

Evolves-refl : (m : SegmentMeta) → Evolves m m
Evolves-refl m = record { key = refl; head = refl; tail = λ t e. e; mixed = λ e. e }

Evolves-trans : {a b c : SegmentMeta} → Evolves a b → Evolves b c → Evolves a c
Evolves-trans p q = record {
  key = q.key ∙ p.key;
  head = q.head ∙ p.head;
  tail = λ t e. q.tail t (p.tail t e);
  mixed = λ e. q.mixed (p.mixed e);
}

pub MetasEvolve-refl : (ms : List SegmentMeta) → MetasEvolve ms ms
MetasEvolve-refl ms s m e = (m, e, Evolves-refl m)

pub MetasEvolve-trans :
    (a b c : List SegmentMeta) → MetasEvolve a b → MetasEvolve b c → MetasEvolve a c
MetasEvolve-trans a b c p q s m e =
    let (m1, e1, v1) = p s m e in let (m2, e2, v2) = q s m1 e1 in (m2, e2, Evolves-trans v1 v2)

-- A record that is not cut off may only set the tail of the open segment, and mark it as mixed.
update-Evolves :
    (r : PlanRecord) (m : SegmentMeta)
    → cut r (some m) ≡ false
    → m.tail ≡ none
    → Evolves m (update r m)
unfolding cut update
update-Evolves r m c t = record {
  key = ground arith;
  head = ground arith;
  tail = λ u e. ground arith;
  mixed = λ e. ground arith;
}

abbrev pub blank : ℕ → SegmentMeta
blank key = record { key = key; head = none; tail = none; mixed = false }

-- The record joins the open segment.
pub record Joins (r : PlanRecord) (ms : List SegmentMeta) (o : Option ℕ) (seg : ℕ)
    (ms' : List SegmentMeta) : Type 0 where
  pub meta : SegmentMeta
  pub is_open : o ≡ some seg
  pub meta_is : get_elem? ms seg ≡ some meta
  pub untailed : meta.tail ≡ none
  pub kept : cut r (some meta) ≡ false
  pub metas_are : ms' ≡ modify (update r) seg ms

-- The record opens a segment.
pub record Opens (r : PlanRecord) (key : ℕ) (ms : List SegmentMeta) (seg : ℕ)
    (ms' : List SegmentMeta) : Type 0 where
  pub seg_is : seg ≡ length ms
  pub metas_are : ms' ≡ ms ++ update r (blank key) ∷ []

-- An open segment exists and has no tail yet.
abbrev pub OpenIsValid : List SegmentMeta → Option ℕ → Type 0
OpenIsValid ms o =
    (s : ℕ) → o ≡ some s → (m : SegmentMeta) × (get_elem? ms s ≡ some m) × (m.tail ≡ none)

-- The segment that a record takes.
pub chosen_cases :
    (r : PlanRecord) (key : ℕ) (ms : List SegmentMeta) (o : Option ℕ)
    → OpenIsValid ms o
    → let (seg, ms') = get_or_insert key ms (still_open r ms o) in
      Joins r ms o seg (modify (update r) seg ms') ⊎ Opens r key ms seg (modify (update r) seg ms')
unfolding get_or_insert still_open
chosen_cases r key ms none v = inr (record { seg_is = refl; metas_are = modify_last _ ms _ })
chosen_cases r key ms (some s) v =
    let (m, e, t) = v s refl in
    elim (Bool-cases (cut r (some m))) [
      | inl c ↦ rw (e, c) (inr (record { seg_is = refl; metas_are = modify_last _ ms _ }))
      | inr c ↦
          rw (e, c)
            (inl (record {
              meta = m;
              is_open = refl;
              meta_is = e;
              untailed = t;
              kept = c;
              metas_are = refl;
            }))
    ]

pub same_at :
    (ms : List SegmentMeta) (i j : ℕ)
    → i ≡ j
    → (a b : SegmentMeta) → get_elem? ms i ≡ some a
    → get_elem? ms j ≡ some b
    → a ≡ b
same_at ms i j e a b p q = cc

-- Whatever segment it takes, a record leaves what is known of the others.
pub chosen-evolve :
    (r : PlanRecord) (key : ℕ) (ms : List SegmentMeta) (o : Option ℕ) (seg : ℕ)
    (ms' : List SegmentMeta)
    → Joins r ms o seg ms' ⊎ Opens r key ms seg ms'
    → MetasEvolve ms ms'
chosen-evolve r key ms o seg ms' (inl j) s m e = elim (ℕ_discrete seg s) [
  | yes p ↦
      rw (j.metas_are, ← p)
        (
          update r j.meta,
          get_elem?-modify_self (update r) seg ms j.meta j.meta_is,
          subst (λ x. Evolves x (update r j.meta)) (same_at ms seg s p j.meta m j.meta_is e)
              (update-Evolves r j.meta j.kept j.untailed),
        )
  | no n ↦ (m, rw (j.metas_are, get_elem?-modify_ne (update r) seg s ms n) e, Evolves-refl m)
]
chosen-evolve r key ms o seg ms' (inr h) s m e =
    (m, rw h.metas_are (get_elem?-append ms _ s m e), Evolves-refl m)
