-- ===== src/Partition/Plan/Assign/Steps.antt =====
-- Each step of `assign_segments` (wakuwaku-iggy/src/partition/plan.rs) keeps the invariant and
-- what is known of the records that it has placed.
use wakuwaku.Base.{
  ℕ, ◌≤◌, ◌≡◌, ◌≢◌, refl, sym, ap, subst, ◌∙◌, inl, inr, true, false, none, some, get_elem?, arith,
  ℕ_discrete, get_elem?-modify_ne, get_elem?-lt, get_elem?-append, get_elem?-append_last,
  get_elem?-modify_self, if◌then◌else◌, ==_refl, some_inj,
}
use wakuwaku.Events.{EventAtomicOrdering, is_acquire, is_release}
use wakuwaku.Partition.Plan.{PlanRecord, KeyPlan, SegmentMeta}
use wakuwaku.Partition.Plan.Assign.{Slot, Walk, update}
use wakuwaku.Partition.Plan.Assign.Meta.{MetasEvolve, blank, chosen-evolve, same_at}
use wakuwaku.Partition.Plan.Assign.Stepped.{SlotIsValid, Inv, Placed, Stepped}

-- The metadata of the segment that a record was given.
pub record Touched (r : PlanRecord) (key : ℕ) (m : SegmentMeta) : Type 0 where
  pub key_is : m.key ≡ key
  pub acquired : is_acquire r.ordering ≡ true → m.head ≡ some r.tag
  pub unmixed : (h : ℕ) → m.mixed ≡ false → m.head ≡ some h → r.tag ≡ h
  pub released : is_release r.ordering ≡ true → m.tail ≡ some r.tag
  pub unreleased : is_release r.ordering ≡ false → m.tail ≡ none

update-Touched :
    (r : PlanRecord) (key : ℕ) (m : SegmentMeta)
    → m.key ≡ key
    → m.tail ≡ none
    → Touched r key (update r m)
unfolding update
update-Touched r key m k t = record {
  key_is = ground arith;
  acquired = λ a. ground arith;
  unmixed = λ h a b. ground arith;
  released = λ a. ground arith;
  unreleased = λ a. ground arith;
}

module _ (w : Walk) (r : PlanRecord) (w' : Walk) (st : Stepped w r w') where
  pub stepped-evolve : MetasEvolve w.metas w'.metas
  stepped-evolve =
      chosen-evolve r st.slot.index w.metas st.slot.open_segment st.seg w'.metas st.metas_are

  pub stepped-Touched :
      (m : SegmentMeta) × (get_elem? w'.metas st.seg ≡ some m) × Touched r st.slot.index m
  stepped-Touched = elim st.metas_are [
    | inl j ↦
        let (m, e, k, t) = st.open_key st.seg j.is_open in
        (
          update r m,
          rw j.metas_are (get_elem?-modify_self (update r) st.seg w.metas m e),
          update-Touched r st.slot.index m k t,
        )
    | inr o ↦ (
      update r (blank st.slot.index),
      rw (o.metas_are, o.seg_is) (get_elem?-append_last w.metas _),
      update-Touched r st.slot.index (blank st.slot.index) refl refl,
    )
  ]

  -- Another segment is left as it was.
  stepped_other :
      (s : ℕ) (m : SegmentMeta)
      → st.seg ≢ s
      → get_elem? w.metas s ≡ some m
      → get_elem? w'.metas s ≡ some m
  stepped_other s m n e = elim st.metas_are [
    | inl j ↦ rw (j.metas_are, get_elem?-modify_ne (update r) st.seg s w.metas n) e
    | inr o ↦ rw o.metas_are (get_elem?-append w.metas _ s m e)
  ]

  -- The segment of a record does not come before those of its key's earlier records.
  pub stepped-after : (x : PlanRecord) (s : ℕ) → x.key ≡ r.key → Placed w x s → s ≤ st.seg
  stepped-after x s k p =
      let same : st.slot ≡ p.slot =
        st.known p.slot (subst (λ y. w.slots y ≡ some p.slot) k p.slot_is) in
      elim st.metas_are [
        | inl j ↦ p.before_open st.seg (subst (λ y. y.open_segment ≡ some st.seg) same j.is_open)
        | inr o ↦ omega (arith, o.seg_is, get_elem?-lt w.metas s p.meta p.meta_is)
      ]

  slot_same :
      (k : ℕ)
      → r.key ≡ k
      → w'.slots k
        ≡ some (record {
          index = st.slot.index;
          open_segment = if is_release r.ordering then none else some st.seg;
        })
  slot_same k e = rw (st.slot_is, e, ==_refl k)

  slot_other : (k : ℕ) → r.key ≢ k → w'.slots k ≡ w.slots k
  slot_other k n = rw st.slot_is (ground arith)

  -- The facts on the metadata carry over; the slot is a new one or the old one.
  Placed-with :
      (x : PlanRecord) (s : ℕ) (p : Placed w x s) (slot : Slot)
      → w'.slots x.key ≡ some slot
      → slot.index ≡ p.slot.index
      → ((o : ℕ) → slot.open_segment ≡ some o → s ≤ o)
      → Placed w' x s
  Placed-with x s p slot e i b =
      let (m, found, v) = stepped-evolve s p.meta p.meta_is in
      record {
        slot = slot;
        slot_is = e;
        meta = m;
        meta_is = found;
        key_is = v.key ∙ p.key_is ∙ sym i;
        before_open = b;
        acquired = λ a. v.head ∙ p.acquired a;
        unmixed = λ h a t. p.unmixed h (unmixed_before p.meta m v.mixed a) (sym v.head ∙ t);
      }
    where
      unmixed_before :
          (a b : SegmentMeta)
          → (a.mixed ≡ true → b.mixed ≡ true)
          → b.mixed ≡ false
          → a.mixed ≡ false
      unmixed_before a b f e = ground arith

  pub stepped-Placed : (x : PlanRecord) (s : ℕ) → Placed w x s → Placed w' x s
  stepped-Placed x s p = elim (ℕ_discrete r.key x.key) [
    | yes k ↦
        Placed-with x s p _ (slot_same x.key k)
          (ap (λ y. y.index)
            (st.known p.slot (subst (λ y. w.slots y ≡ some p.slot) (sym k) p.slot_is)))
          (λ o e. reopened r.ordering o (stepped-after x s (sym k) p) e)
    | no n ↦ Placed-with x s p p.slot (slot_other x.key n ∙ p.slot_is) refl p.before_open
  ]
    where
      reopened :
          (ord : EventAtomicOrdering) (o : ℕ)
          → s ≤ st.seg
          → (if is_release ord then none else some st.seg) ≡ some o
          → s ≤ o
      reopened ord o h e = ground arith

  -- The slot that the step writes.
  abbrev new_slot : Slot
  new_slot = record {
    index = st.slot.index;
    open_segment = if is_release r.ordering then none else some st.seg;
  }

  open_after :
      (ord : EventAtomicOrdering) (s : ℕ)
      → (if is_release ord then none else some st.seg) ≡ some s
      → (st.seg ≡ s) × (is_release ord ≡ false)
  open_after ord s e = ground arith

  inv_same : SlotIsValid w' r.key new_slot
  inv_same = record {
    plan = st.plan;
    plan_is = st.plan_is;
    plan_key = st.plan_key;
    open_valid = λ s h.
        let (m, e, t) = stepped-Touched in
        let (same, unreleased) = open_after r.ordering s h in
        (m, subst (λ y. get_elem? w'.metas y ≡ some m) same e, t.key_is, t.unreleased unreleased);
  }

  -- The segment of a record is not the open segment of another key.
  foreign :
      (k : ℕ) (slot : Slot) (s : ℕ)
      → r.key ≢ k
      → (valid : SlotIsValid w k slot) → slot.open_segment ≡ some s
      → st.seg ≢ s
  foreign k slot s n valid h same =
      let (m, e, mk, _) = valid.open_valid s h in
      elim st.metas_are [
        | inl j ↦
            let (m2, e2, mk2, _) = st.open_key st.seg j.is_open in
            let index : st.slot.index ≡ slot.index =
              sym mk2 ∙ ap (λ y. y.key) (same_at w.metas st.seg s same m2 m e2 e) ∙ mk in
            n (keys_agree index (st.keys_keep slot.index valid.plan valid.plan_is) valid.plan_key)
        | inr o ↦ absurd (omega (arith, o.seg_is, get_elem?-lt w.metas s m e))
      ]
    where
      keys_agree :
          {i : ℕ} {q : KeyPlan}
          → st.slot.index ≡ i
          → get_elem? w'.keys i ≡ some q
          → q.key ≡ k
          → r.key ≡ k
      keys_agree a b c = cc (st.plan_is, st.plan_key, a, b, c)

  inv_other : (k : ℕ) (slot : Slot) → r.key ≢ k → SlotIsValid w k slot → SlotIsValid w' k slot
  inv_other k slot n valid = record {
    plan = valid.plan;
    plan_is = st.keys_keep slot.index valid.plan valid.plan_is;
    plan_key = valid.plan_key;
    open_valid = λ s h.
        let (m, e, mk, t) = valid.open_valid s h in
        (m, stepped_other s m (foreign k slot s n valid h) e, mk, t);
  }

  pub stepped-Inv : Inv w → Inv w'
  stepped-Inv v k slot e = elim (ℕ_discrete r.key k) [
    | yes same ↦
        subst (λ y. SlotIsValid w' y slot) same
          (subst (SlotIsValid w' r.key) (some_inj (sym (slot_same k same) ∙ e)) inv_same)
    | no n ↦ inv_other k slot n (v k slot (sym (slot_other k n) ∙ e))
  ]

  -- The record itself is placed in its segment.
  pub stepped_self : Placed w' r st.seg
  stepped_self =
      let (m, e, t) = stepped-Touched in
      record {
        slot = new_slot;
        slot_is = slot_same r.key refl;
        meta = m;
        meta_is = e;
        key_is = t.key_is;
        before_open = λ o h. let (same, _) = open_after r.ordering o h in omega (arith, same);
        acquired = t.acquired;
        unmixed = t.unmixed;
      }
