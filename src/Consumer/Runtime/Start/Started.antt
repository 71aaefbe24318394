-- ===== src/Consumer/Runtime/Start/Started.antt =====
-- What holds when `start` (wakuwaku-iggy/src/consumer/runtime.rs) has spawned its tasks.
use Prim.Native.String.{String}
use wakuwaku.Base.{
  ℕ, ◌==◌, ◌≡◌, ◌≢◌, refl, ap, ap₂, ◌∙◌, List, [], ◌∷◌, Option, none, some, Bool, true, false, map,
  Result, ok, err, ◌>>=◌, arith, Bool-cases, inl, inr, if◌then◌else◌,
}
use wakuwaku.Events.Headers
use wakuwaku.Events.Headers.{HeaderKeys}
use wakuwaku.Consumer.Retry.{is_empty, contains}
use wakuwaku.Consumer.Runtime.Start.{
  Error, StartConfig, TopicDetails, Setup, PartitionTask, and_then, lift, guard, duplicate, missing,
  unless_found, found, retry_name, ensure_retry, check_config, start_tasks, tasks_for, start_topics,
  start,
}

-- No tag stands twice in the list.
abbrev pub Distinct : List ℕ → Type 0
Distinct [] = Unit {0}
Distinct (t ∷ ts) = (contains ts t ≡ false) × Distinct ts

abbrev pub Present : List ℕ → List ℕ → Type 0
Present existing [] = Unit {0}
Present existing (id ∷ ids) = (contains existing id ≡ true) × Present existing ids

missing-Present : (existing ids : List ℕ) → missing existing ids ≡ none → Present existing ids
unfolding missing
missing-Present existing [] e = tt
missing-Present existing (id ∷ ids) e = elim (Bool-cases (contains existing id)) [
  | inl h ↦ (h, missing-Present existing ids (ground (arith, h, e)))
  | inr h ↦ absurd (ground (arith, h, e))
]

clash : {a b : Bool} → a ≡ b → a ≡ false → b ≡ true → ⊥
clash p q r = cc

-- Nothing that was seen comes again.
Fresh : List ℕ → List ℕ → Type 0
Fresh seen tags = (t : ℕ) → contains seen t ≡ true → contains tags t ≡ false

contains_head : (t : ℕ) (ts : List ℕ) → contains (t ∷ ts) t ≡ true
unfolding contains
contains_head t ts = ground (arith)

contains_tail : (x t : ℕ) (ts : List ℕ) → contains ts t ≡ true → contains (x ∷ ts) t ≡ true
unfolding contains
contains_tail x t ts h = ground (arith, h)

contains_skip :
    (x t : ℕ) (ts : List ℕ) → x ≢ t → contains ts t ≡ false → contains (x ∷ ts) t ≡ false
unfolding contains
contains_skip x t ts n h = ground (arith, h)

duplicate-Fresh :
    (seen tags : List ℕ) → duplicate seen tags ≡ none → Fresh seen tags × Distinct tags
unfolding duplicate Fresh contains
duplicate-Fresh seen [] e = (λ t h. refl, tt)
duplicate-Fresh seen (tag ∷ tags) e = elim (Bool-cases (contains seen tag)) [
  | inl h ↦ absurd (ground (arith, h, e))
  | inr h ↦
      let (f, d) = duplicate-Fresh (tag ∷ seen) tags (ground (arith, h, e)) in
      (
        λ t g.
            contains_skip tag t tags (λ p. clash (ap (contains seen) p) h g)
              (f t (contains_tail tag t seen g)),
        (f tag (contains_head tag seen), d),
      )
]

and_then-ok :
    {W E A B : Type 0} (x : W × Result E A) (next : W → A → W × Result E B) (b : B)
    → (and_then x next).1 ≡ ok b
    → (a : A) × (x.1 ≡ ok a) × ((next x.0 a).1 ≡ ok b)
unfolding and_then
and_then-ok (w, ok a) next b e = (a, refl, e)
and_then-ok (w, err x) next b e = absurd (cc)

bind-ok :
    {E A B : Type 0} (x : Result E A) (next : A → Result E B) (b : B)
    → (x >>= next) ≡ ok b
    → (a : A) × (x ≡ ok a) × (next a ≡ ok b)
bind-ok (ok a) next b e = (a, refl, e)
bind-ok (err x) next b e = absurd (cc)

ok_injective : {E A : Type 0} {x y : A} (r : Result E A) → r ≡ ok y → r ≡ ok x → x ≡ y
ok_injective r e f = cc

guard-ok :
    {I : Type 0} (test : Bool) (e : Error I) (u : Unit {0}) → guard test e ≡ ok u → test ≡ false
guard-ok true e u h = absurd (cc)
guard-ok false e u h = refl

unless_found-ok :
    {I : Type 0} (e : ℕ → Error I) (o : Option ℕ) (u : Unit {0})
    → unless_found e o ≡ ok u
    → o ≡ none
unless_found-ok e none u h = refl
unless_found-ok e (some n) u h = absurd (cc)

lift-ok : {I A : Type 0} (r : Result I A) (a : A) → lift r ≡ ok a → r ≡ ok a
lift-ok (ok b) a h = cc
lift-ok (err e) a h = absurd (cc)

found-ok : {I A : Type 0} (e : Error I) (o : Option A) (a : A) → found e o ≡ ok a → o ≡ some a
found-ok e none a h = absurd (cc)
found-ok e (some b) a h = cc

module _ {W IggyError Identifier HeaderKey : Type 0}
    (setup : Setup W IggyError Identifier HeaderKey) (config : StartConfig) where
  abbrev pub Task : Type 0
  Task = PartitionTask Identifier HeaderKey

  -- The configuration can be used.
  pub record Usable : Type 0 where
    pub delays_some : is_empty config.retry_delays ≡ false
    pub partitions_some : is_empty config.partitions ≡ false
    pub poll_some : (config.poll_count == 0) ≡ false

  check_config-Usable : (u : Unit {0}) → check_config setup config ≡ ok u → Usable
  unfolding check_config
  check_config-Usable u e =
      let (_, a, e1) = bind-ok _ _ u e in
      let (_, b, c) = bind-ok _ _ u e1 in
      record {
        delays_some = guard-ok _ _ _ a;
        partitions_some = guard-ok _ _ _ b;
        poll_some = guard-ok _ _ _ c;
      }

  -- The retry topic has as many partitions as the main topic: it has just been created with that many,
  -- or it was there.
  abbrev pub RetryReady : Identifier → String → ℕ → Option TopicDetails → W → Type 0
  RetryReady stream name count none w = (setup.create_topic stream name count w).1 ≡ ok tt
  RetryReady stream name count (some retry) w = count ≡ retry.partitions_count

  ensure_retry-RetryReady :
      (topic : String) (stream : Identifier) (count : ℕ) (o : Option TopicDetails) (w : W)
      (u : Unit {0})
      → (ensure_retry setup config topic stream count o w).1 ≡ ok u
      → RetryReady stream (retry_name topic) count o w
  unfolding ensure_retry
  ensure_retry-RetryReady topic stream count none w u e = lift-ok _ u e
  ensure_retry-RetryReady topic stream count (some retry) w u e =
      same count retry.partitions_count (guard-ok _ _ u e)
    where
      same : (a b : ℕ) → (if a == b then false else true) ≡ false → a ≡ b
      same a b h = ground (arith, h)

  -- What `start` found and made.
  pub record Started (topic : Result (Error IggyError) String) (tags : List ℕ) (tasks : List Task)
      : Type 0 where
    pub usable : Usable
    pub name : String
    pub topic_is : topic ≡ ok name
    pub distinct : Distinct tags
    pub stream : Identifier
    pub stream_is : setup.try_from config.stream ≡ ok stream
    pub main_id : Identifier
    pub main_id_is : setup.try_from name ≡ ok main_id
    -- The main topic exists.
    pub at_main : W
    pub main : TopicDetails
    pub main_is : (setup.get_topic stream main_id at_main).1 ≡ ok (some main)
    pub retry_id : Identifier
    pub retry_id_is : setup.try_from (retry_name name) ≡ ok retry_id
    -- The retry topic is ready.
    pub at_retry : W
    pub retry : Option TopicDetails
    pub retry_is : (setup.get_topic stream retry_id at_retry).1 ≡ ok retry
    pub ready :
        RetryReady stream
          (retry_name name)
          main.partitions_count
          retry
          (setup.get_topic stream retry_id at_retry).0
    -- There is a task for each configured partition, in that order, and the main topic has it.
    pub present : Present main.partitions config.partitions
    pub tasks_are : map (λ (t : Task). t.partition) tasks ≡ config.partitions

  partitions_of :
      (f : ℕ → Task)
      → ((n : ℕ) → (f n).partition ≡ n)
      → (ns : List ℕ) → map (λ (t : Task). t.partition) (map f ns) ≡ ns
  partitions_of f h [] = refl
  partitions_of f h (n ∷ ns) = ap₂ (λ (m : ℕ) (ms : List ℕ). m ∷ ms) (h n) (partitions_of f h ns)

  start_tasks-Present :
      (topic : String) (stream main_topic retry_topic : Identifier) (main : TopicDetails)
      (tasks : List Task)
      → start_tasks setup config topic stream main_topic retry_topic main ≡ ok tasks
      → Present main.partitions config.partitions
        × (map (λ (t : Task). t.partition) tasks ≡ config.partitions)
  unfolding start_tasks
  start_tasks-Present topic stream main_topic retry_topic main tasks e =
      let (u, a, e1) = bind-ok _ _ tasks e in
      let with_consumer : HeaderKeys HeaderKey → Identifier → Result (Error IggyError) (List Task) =
        λ keys consumer. ok (tasks_for setup config stream main_topic retry_topic keys consumer) in
      let (keys, _, e2) =
        bind-ok (lift (Headers.new setup.from_str))
          (λ keys. lift (setup.try_from config.consumer_name) >>= with_consumer keys) tasks e1 in
      let (consumer, _, e3) =
        bind-ok (lift (setup.try_from config.consumer_name)) (with_consumer keys) tasks e2 in
      (
        missing-Present main.partitions config.partitions (unless_found-ok _ _ u a),
        ap (map (λ (t : Task). t.partition)) (ok_injective _ refl e3)
            ∙ partitions_of
                (λ (n : ℕ). record {
                  stream = stream;
                  main_topic = main_topic;
                  retry_topic = retry_topic;
                  consumer = consumer;
                  keys = keys;
                  partition = n;
                })
                (λ n. refl) config.partitions,
      )

  -- If `start` spawns tasks, the configuration is usable, no event type is registered twice, the main
  -- topic exists and has each configured partition, the retry topic has as many partitions, and there
  -- is one task for each configured partition.
  pub start-Started :
      (topic : Result (Error IggyError) String) (tags : List ℕ) (w : W) (tasks : List Task)
      → (start setup config topic tags w).1 ≡ ok tasks
      → Started topic tags tasks
  unfolding start start_topics
  start-Started topic tags w tasks e0 =
      let (u, a, e1) = and_then-ok _ _ tasks e0 in
      let (name, b, e2) = and_then-ok _ _ tasks e1 in
      let (u2, c, e3) = and_then-ok _ _ tasks e2 in
      let (stream, d, e4) = and_then-ok _ _ tasks e3 in
      let (main_id, f, e5) = and_then-ok _ _ tasks e4 in
      let (main, g, e6) = and_then-ok _ _ tasks e5 in
      let (o, g1, g2) = bind-ok _ _ main g in
      let (retry_id, h, e7) = and_then-ok _ _ tasks e6 in
      let (retry, i, e8) = and_then-ok _ _ tasks e7 in
      let (u3, j, e9) = and_then-ok _ _ tasks e8 in
      let (present, tasks_are) = start_tasks-Present name stream main_id retry_id main tasks e9 in
      record {
        usable = check_config-Usable u a;
        name = name;
        topic_is = b;
        distinct = (duplicate-Fresh [] tags (unless_found-ok _ _ u2 c)).1;
        stream = stream;
        stream_is = lift-ok _ stream d;
        main_id = main_id;
        main_id_is = lift-ok _ main_id f;
        at_main = w;
        main = main;
        main_is = lift-ok _ o g1 ∙ ap ok (found-ok _ o main g2);
        retry_id = retry_id;
        retry_id_is = lift-ok _ retry_id h;
        at_retry = (setup.get_topic stream main_id w).0;
        retry = retry;
        retry_is = lift-ok _ retry i;
        ready = ensure_retry-RetryReady name stream main.partitions_count retry _ u3 j;
        present = present;
        tasks_are = tasks_are;
      }
