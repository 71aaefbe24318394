-- ===== src/Partition/Plan/Assign/Stepped.antt =====
-- The invariant of the walk of `assign_segments` (wakuwaku-iggy/src/partition/plan.rs), and what
-- each step keeps of the records that it has placed.
use wakuwaku.Base.{
  ℕ, ◌≤◌, ◌≡◌, refl, ◌⊎◌, true, false, [], ◌∷◌, ◌++◌, Option, none, some, get_elem?, length,
  get_elem?-append, get_elem?-append_last, if◌then◌else◌,
}
use wakuwaku.Events.{is_acquire, is_release}
use wakuwaku.Partition.Plan.{PlanRecord, KeyPlan, SegmentMeta}
use wakuwaku.Partition.Plan.Assign.{
  Slot, Walk, set_slot, entry, still_open, get_or_insert, place, step, start,
}
use wakuwaku.Partition.Plan.Assign.Meta.{Joins, Opens, OpenIsValid, chosen_cases}

-- The slot of key `k` names the entry of `k` in the keys, and its open segment belongs to it.
pub record SlotIsValid (w : Walk) (k : ℕ) (slot : Slot) : Type 0 where
  pub plan : KeyPlan
  pub plan_is : get_elem? w.keys slot.index ≡ some plan
  pub plan_key : plan.key ≡ k
  pub open_valid :
      (s : ℕ)
      → slot.open_segment ≡ some s
      → (m : SegmentMeta) × (get_elem? w.metas s ≡ some m) × (m.key ≡ slot.index) × (m.tail ≡ none)

abbrev pub Inv : Walk → Type 0
Inv w = (k : ℕ) (slot : Slot) → w.slots k ≡ some slot → SlotIsValid w k slot

-- What is known of a record `x` that was given segment `s`.
pub record Placed (w : Walk) (x : PlanRecord) (s : ℕ) : Type 0 where
  pub slot : Slot
  pub slot_is : w.slots x.key ≡ some slot
  pub meta : SegmentMeta
  pub meta_is : get_elem? w.metas s ≡ some meta
  pub key_is : meta.key ≡ slot.index
  pub before_open : (o : ℕ) → slot.open_segment ≡ some o → s ≤ o
  pub acquired : is_acquire x.ordering ≡ true → meta.head ≡ some x.tag
  pub unmixed : (h : ℕ) → meta.mixed ≡ false → meta.head ≡ some h → x.tag ≡ h

pub start-Inv : Inv start
unfolding start
start-Inv k slot e = cc

-- What a step makes of a walk, with the slot and the keys that it found.
pub record Stepped (w : Walk) (r : PlanRecord) (w' : Walk) : Type 0 where
  pub slot : Slot
  pub seg : ℕ
  pub slot_is :
      w'.slots
      ≡ set_slot r.key
          (record {
            index = slot.index;
            open_segment = if is_release r.ordering then none else some seg;
          })
          w.slots
  pub seg_is : w'.segment_of ≡ w.segment_of ++ seg ∷ []
  pub metas_are :
      Joins r w.metas slot.open_segment seg w'.metas ⊎ Opens r slot.index w.metas seg w'.metas
  pub keys_keep : (i : ℕ) (k : KeyPlan) → get_elem? w.keys i ≡ some k → get_elem? w'.keys i ≡ some k
  pub plan : KeyPlan
  pub plan_is : get_elem? w'.keys slot.index ≡ some plan
  pub plan_key : plan.key ≡ r.key
  pub known : (old : Slot) → w.slots r.key ≡ some old → slot ≡ old
  pub open_key :
      (s : ℕ)
      → slot.open_segment ≡ some s
      → (m : SegmentMeta) × (get_elem? w.metas s ≡ some m) × (m.key ≡ slot.index) × (m.tail ≡ none)

OpenIsValid-of :
    (w : Walk) (k : ℕ) (slot : Slot) → SlotIsValid w k slot → OpenIsValid w.metas slot.open_segment
OpenIsValid-of w k slot v s e = let (m, a, b, c) = v.open_valid s e in (m, a, c)

stepped_at :
    (w : Walk) (r : PlanRecord) (o : Option Slot)
    → w.slots r.key ≡ o
    → Inv w
    → Stepped w r (place r w (entry o r w.keys))
unfolding entry place
stepped_at w r (some slot) e v =
    let valid = v r.key slot e in
    record {
      slot = slot;
      seg = (get_or_insert slot.index w.metas (still_open r w.metas slot.open_segment)).0;
      slot_is = refl;
      seg_is = refl;
      metas_are =
          chosen_cases r slot.index w.metas slot.open_segment (OpenIsValid-of w r.key slot valid);
      keys_keep = λ i k h. h;
      plan = valid.plan;
      plan_is = valid.plan_is;
      plan_key = valid.plan_key;
      known = λ old h. cc;
      open_key = valid.open_valid;
    }
stepped_at w r none e v = record {
  slot = record { index = length w.keys; open_segment = none };
  seg = (get_or_insert (length w.keys) w.metas none).0;
  slot_is = refl;
  seg_is = refl;
  metas_are = chosen_cases r (length w.keys) w.metas none (λ s h. cc);
  keys_keep = λ i k h. get_elem?-append w.keys _ i k h;
  plan = record { key = r.key; segments = record { start = 0; end = 0 } };
  plan_is = get_elem?-append_last w.keys _;
  plan_key = refl;
  known = λ old h. cc;
  open_key = λ s h. cc;
}

pub step-Stepped : (w : Walk) (r : PlanRecord) → Inv w → Stepped w r (step w r)
unfolding step
step-Stepped w r v = stepped_at w r (w.slots r.key) refl v
