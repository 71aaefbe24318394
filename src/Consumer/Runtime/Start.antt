-- ===== src/Consumer/Runtime/Start.antt =====
-- `start` of wakuwaku-iggy/src/consumer/runtime.rs up to the tasks that it spawns, and the errors of
-- error.rs. Iggy's identifiers and topics, and the handlers' topic and tags, are parameters.
pub mod Started
mod Examples
use Prim.Native.String.{String, ◌++◌}
use wakuwaku.Base.{
  ℕ, ◌==◌, List, [], ◌∷◌, Option, none, some, Bool, true, false, map, if◌then◌else◌, Result, ok,
  err, ◌>>=◌,
}
use wakuwaku.Events.Headers.{HeaderKeys}
use wakuwaku.Events.Headers
use wakuwaku.Consumer.Backoff.{Duration}
use wakuwaku.Consumer.Retry.{is_empty, contains}

-- `Serialize`, which only the publisher returns, is left out.
pub data Error (IggyError : Type 0) : Type 0 where
  iggy : IggyError → Error IggyError
  topic_not_found : (stream topic : String) → Error IggyError
  partition_not_found : (topic : String) (partition : ℕ) → Error IggyError
  partition_count_mismatch :
      (topic retry_topic : String) (topic_count retry_count : ℕ) → Error IggyError
  mixed_topics : (first second : String) → Error IggyError
  duplicate_event_type : ℕ → Error IggyError
  invalid_config : String → Error IggyError

-- The fields of `ConsumerConfig` that `start` reads.
pub record StartConfig : Type 0 where
  pub stream : String
  pub consumer_name : String
  pub partitions : List ℕ
  pub retry_delays : List Duration
  pub poll_count : ℕ

-- What Iggy tells of a topic.
pub record TopicDetails : Type 0 where
  pub partitions_count : ℕ
  pub partitions : List ℕ

pub record Setup (W IggyError Identifier HeaderKey : Type 0) : Type 0 where
  pub try_from : String → Result IggyError Identifier
  pub get_topic : Identifier → Identifier → W → W × Result IggyError (Option TopicDetails)
  pub create_topic : Identifier → String → ℕ → W → W × Result IggyError (Unit {0})
  pub from_str : String → Result IggyError HeaderKey

-- The fields of `PartitionTask` that differ from the configuration.
pub record PartitionTask (Identifier HeaderKey : Type 0) : Type 0 where
  pub stream : Identifier
  pub main_topic : Identifier
  pub retry_topic : Identifier
  pub consumer : Identifier
  pub keys : HeaderKeys HeaderKey
  pub partition : ℕ

-- `?` on a call that changes the world.
unfoldable pub and_then :
    {W E A B : Type 0} → W × Result E A → (W → A → W × Result E B) → W × Result E B
and_then (w, ok a) next = next w a
and_then (w, err e) next = (w, err e)

-- `From<IggyError>`, which `?` applies.
abbrev pub lift : {I A : Type 0} → Result I A → Result (Error I) A
lift (ok a) = ok a
lift (err e) = err (iggy e)

-- `if test { return Err(..) }`
abbrev pub guard : {I : Type 0} → Bool → Error I → Result (Error I) (Unit {0})
guard true e = err e
guard false e = ok tt

-- `tags.iter().find(|&&tag| !seen.insert(tag))`
unfoldable pub duplicate : List ℕ → List ℕ → Option ℕ
unfolding contains
duplicate seen [] = none
duplicate seen (tag ∷ tags) =
    let rest = duplicate (tag ∷ seen) tags in if contains seen tag then some tag else rest

-- The first configured partition that the topic does not have.
unfoldable pub missing : List ℕ → List ℕ → Option ℕ
unfolding contains
missing existing [] = none
missing existing (id ∷ ids) =
    let rest = missing existing ids in if contains existing id then rest else some id

-- An error if there is something to report.
abbrev pub unless_found : {I : Type 0} → (ℕ → Error I) → Option ℕ → Result (Error I) (Unit {0})
unless_found e none = ok tt
unless_found e (some n) = err (e n)

-- `.ok_or_else(..)?`
abbrev pub found : {I A : Type 0} → Error I → Option A → Result (Error I) A
found e none = err e
found e (some a) = ok a

unfoldable pub retry_name : String → String
retry_name topic = "retry_" ++ topic

module _ {W IggyError Identifier HeaderKey : Type 0}
    (setup : Setup W IggyError Identifier HeaderKey) (config : StartConfig) where
  -- The match on the retry topic.
  unfoldable pub ensure_retry :
      String → Identifier → ℕ → Option TopicDetails → W → W × Result (Error IggyError) (Unit {0})
  unfolding retry_name
  ensure_retry topic stream count none w =
      let (w', r) = setup.create_topic stream (retry_name topic) count w in (w', lift r)
  ensure_retry topic stream count (some retry) w = (
    w,
    guard (if count == retry.partitions_count then false else true)
        (partition_count_mismatch topic (retry_name topic) count retry.partitions_count),
  )

  -- The checks of the configuration.
  unfoldable pub check_config : Result (Error IggyError) (Unit {0})
  check_config = do
    _ ← guard (is_empty config.retry_delays) (invalid_config "retry_delays must not be empty")
    _ ← guard (is_empty config.partitions) (invalid_config "partitions must not be empty")
    guard (config.poll_count == 0) (invalid_config "poll_count must not be zero")

  -- A task for each configured partition.
  abbrev pub tasks_for :
      Identifier
      → Identifier
      → Identifier
      → HeaderKeys HeaderKey
      → Identifier
      → List (PartitionTask Identifier HeaderKey)
  tasks_for stream main_topic retry_topic keys consumer =
      map
        (λ (partition : ℕ). record {
          stream = stream;
          main_topic = main_topic;
          retry_topic = retry_topic;
          consumer = consumer;
          keys = keys;
          partition = partition;
        })
        config.partitions

  -- The tasks, once both topics are there.
  unfoldable pub start_tasks :
      String
      → Identifier
      → Identifier
      → Identifier
      → TopicDetails
      → Result (Error IggyError) (List (PartitionTask Identifier HeaderKey))
  unfolding missing
  start_tasks topic stream main_topic retry_topic main = do
    _ ← unless_found (partition_not_found topic) (missing main.partitions config.partitions)
    keys ← lift (Headers.new setup.from_str)
    consumer ← lift (setup.try_from config.consumer_name)
    ok (tasks_for stream main_topic retry_topic keys consumer)

  -- From the identifiers on.
  unfoldable pub start_topics :
      String
      → Identifier
      → Identifier
      → W
      → W × Result (Error IggyError) (List (PartitionTask Identifier HeaderKey))
  unfolding and_then ensure_retry start_tasks
  start_topics topic stream main_topic w =
      let (w1, found_main) = setup.get_topic stream main_topic w in
      and_then (w1, lift found_main >>= found (topic_not_found config.stream topic))
        λ w main.
          and_then (w, lift (setup.try_from (retry_name topic)))
            λ w retry_topic.
              let (w2, found_retry) = setup.get_topic stream retry_topic w in
              and_then (w2, lift found_retry)
                λ w retry.
                  and_then (ensure_retry topic stream main.partitions_count retry w)
                    λ w _. (w, start_tasks topic stream main_topic retry_topic main)

  -- `start`, given the handlers' topic and tags.
  unfoldable pub start :
      Result (Error IggyError) String
      → List ℕ
      → W
      → W × Result (Error IggyError) (List (PartitionTask Identifier HeaderKey))
  unfolding check_config duplicate start_topics
  start topic tags w =
      and_then (w, check_config)
        λ w _.
          and_then (w, topic)
            λ w topic.
              and_then (w, unless_found duplicate_event_type (duplicate [] tags))
                λ w _.
                  and_then (w, lift (setup.try_from config.stream))
                    λ w stream.
                      and_then (w, lift (setup.try_from topic))
                        λ w main_topic. start_topics topic stream main_topic w
