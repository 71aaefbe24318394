-- ===== src/Consumer/Runtime/Start/Examples.antt =====
-- Setups of a consumer, with Iggy's topics as the world.
use Prim.Native.String.{len}
use wakuwaku.Base.{ℕ, ◌==◌, if◌then◌else◌, ◌≡◌, refl, [], ◌∷◌, Option, none, some, Result, ok, err}
use wakuwaku.Events.Headers
use wakuwaku.Consumer.Retry.{contains}
use wakuwaku.Consumer.Runtime.Start.{
  StartConfig, TopicDetails, Setup, PartitionTask, start, duplicate_event_type,
  partition_count_mismatch,
}
use wakuwaku.Consumer.Runtime.Start.Started.{Started, start-Started}

-- The retry topic, if it exists; the main topic has partitions 0 and 1. Stream and topics go by one name.
abbrev World : Type 0
World = Option TopicDetails

abbrev two : TopicDetails
two = record { partitions_count = 2; partitions = 0 ∷ 1 ∷ [] }

abbrev three : TopicDetails
three = record { partitions_count = 3; partitions = 0 ∷ 1 ∷ 2 ∷ [] }

-- An identifier is the length of the name, so that the topics "t" and "retry_t" are 1 and 7.
abbrev get_topic : ℕ → World → World × Result ℕ (Option TopicDetails)
get_topic n w = (w, ok (if n == 1 then some two else w))

abbrev setup : Setup World ℕ ℕ ℕ
setup = record {
  try_from = λ s. ok (len s);
  get_topic = λ stream topic w. get_topic topic w;
  create_topic = λ stream name count w. (some two, ok tt);
  from_str = λ s. ok 0;
}

abbrev config : StartConfig
config = record {
  stream = "s";
  consumer_name = "c";
  partitions = 0 ∷ 1 ∷ [];
  retry_delays = 2 ∷ [];
  poll_count = 10;
}

abbrev task : ℕ → PartitionTask ℕ ℕ
task partition = record {
  stream = 1;
  main_topic = 1;
  retry_topic = 7;
  consumer = 1;
  keys = record { tag = 0; key = 0; props = 0; retry = 0 };
  partition = partition;
}

started : (start setup config (ok "t") (4 ∷ 5 ∷ []) none).1 ≡ ok (task 0 ∷ task 1 ∷ [])
unfolding start contains Headers.new
started = refl

registered_twice :
    (start setup config (ok "t") (4 ∷ 5 ∷ 4 ∷ []) none).1 ≡ err (duplicate_event_type 4)
unfolding start contains Headers.new
registered_twice = refl

mismatch :
    (start setup config (ok "t") (4 ∷ []) (some three)).1
    ≡ err (partition_count_mismatch "t" "retry_t" 2 3)
unfolding start contains Headers.new
mismatch = refl

start-Started_example : Started setup config (ok "t") (4 ∷ 5 ∷ []) (task 0 ∷ task 1 ∷ [])
start-Started_example =
    start-Started setup config (ok "t") (4 ∷ 5 ∷ []) none (task 0 ∷ task 1 ∷ []) started
