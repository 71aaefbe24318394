-- ===== src/Consumer/Runtime/Examples.antt =====
-- A partition with one batch: two keys, one of which fails. Iggy is a stand-in that answers at once.
use wakuwaku.Base.{
  ℕ, suc, ◌==◌, ◌≡◌, refl, sym, ap, ◌∙◌, ◌++◌, append_assoc, List, [], ◌∷◌, Option, none, some,
  Result, ok, map, if◌then◌else◌, ℕ_discrete, inr,
}
use wakuwaku.Events.{EventTypeTag, relaxed, release, non_associative, EventAssociativity}
use wakuwaku.Events.Headers.{HeaderKeys}
use wakuwaku.Events
use wakuwaku.Partition.Plan.{Plan, rank}
use wakuwaku.Partition.Plan.View
use wakuwaku.Partition.Plan.Build.{new}
use wakuwaku.Consumer.Record.{ParsedRecord, Message, plan_records}
use wakuwaku.Consumer.Retry.{RetryState}
use wakuwaku.Consumer.Retry
use wakuwaku.Consumer.Handler.{RunRecord, done, failed}
use wakuwaku.Consumer.Execute.Keeps.{AllKeep}
use wakuwaku.Consumer.Execute.{execute_key}
use wakuwaku.Consumer.Encode.{encode_key}
use wakuwaku.Consumer.Runtime.{
  no_event_lose, ConsumerConfig, Handlers, Topic, main_topic, retry_topic, Iggy,
}
use wakuwaku.Consumer.Runtime.Batch.{run_keys}
use wakuwaku.Consumer.Execute.Stages.{Results, Told}
use wakuwaku.Consumer.Runtime.Retries.{attempt}
use wakuwaku.Consumer.Runtime.Retries.Attempted.{Attempted, attempt-Attempted}
use wakuwaku.Consumer.Runtime.Task.{run}
use wakuwaku.Consumer.Runtime.Task.Waits.{Always, Keeps}
use wakuwaku.Consumer.Runtime.Task.Stored.{Safe, Quiet, Clock}
use wakuwaku.Consumer.Runtime.Task.Rounds.{run-Safe}

abbrev TestMessage : Type 0
TestMessage = Message ℕ ℕ (List ℕ)

-- The offset that is stored for the main topic, a clock, the messages that are still to be polled, and a log of
-- the calls, in which only storing an offset of the main topic isn't 0.
record World : Type 0 where
  stored : Option ℕ
  time : ℕ
  log : List ℕ
  queue : List TestMessage

abbrev tick : World → World
tick w = record w { time = suc w.time; log = 0 ∷ w.log }

abbrev one_by_one : {B : Type 0} → List (World → World × B) → World → World × List B
one_by_one [] w = (w, [])
one_by_one (f ∷ fs) w = let (w', b) = f w in let (w'', bs) = one_by_one fs w' in (w'', b ∷ bs)

one_by_one-Results :
    (B : Type 0) (fs : List (World → World × B)) (w : World) → Results fs (one_by_one fs w).1
one_by_one-Results B [] w = tt
one_by_one-Results B (f ∷ fs) w = ((w, refl), one_by_one-Results B fs (f w).0)

-- Events of type 3 fail, with their payloads as remainder.
abbrev handlers : Handlers World ℕ
handlers = record {
  handle_run = λ w tag run.
      (tick w, if tag == 3 then failed 9 (map (λ (r : RunRecord). r.payload) run) else done);
  associativity = λ tag. some non_associative;
  reduce_run = λ tag run. map (λ (r : RunRecord). r.payload) run;
  join_all = one_by_one;
}

abbrev config : ConsumerConfig
config = record {
  mode = no_event_lose;
  retry_delays = 2 ∷ 4 ∷ [];
  poll_interval = 100;
  max_pending_retry = 10;
}

-- A record of a key and a type, with its type as payload.
abbrev parsed_of : ℕ → ℕ → ℕ → ParsedRecord
parsed_of offset key tag = record {
  offset = offset;
  headers = record {
    tag = tag;
    key = key;
    properties = record { atomic_level = relaxed; associativity = non_associative };
  };
  payload = tag ∷ [];
}

abbrev batch : List ParsedRecord
batch = parsed_of 5 7 1 ∷ parsed_of 6 8 3 ∷ parsed_of 7 7 1 ∷ []

abbrev batch_plan : Plan
batch_plan = new (plan_records batch)

abbrev fresh : RetryState
fresh = Retry.new config.retry_delays

abbrev world : World
world = record { stored = none; time = 0; log = []; queue = [] }

batch_entries :
    (run_keys handlers config fresh batch_plan batch batch_plan.keys world).1
    ≡ record { headers = (parsed_of 6 8 3).headers; payload = 3 ∷ [] } ∷ []
unfolding run_keys rank plan_records View.segments View.head View.body View.tail View.records new
    Retry.is_quarantined Retry.new execute_key Retry.pending_len encode_key
batch_entries = refl

abbrev one_key : List ParsedRecord
one_key = parsed_of 5 7 1 ∷ parsed_of 7 7 2 ∷ []

attempt-Attempted_example :
    let report = (attempt handlers one_key world).1 in
    let plan = new (plan_records one_key) in
    Attempted plan (Told handlers.handle_run plan one_key) 2 report.completed report.failure
attempt-Attempted_example =
    attempt-Attempted handlers one_by_one-Results 7 one_key world (refl, (refl, tt))

abbrev message : TestMessage
message = record {
  offset = 5;
  payload = 1 ∷ [];
  user_headers = ok (
      some (λ (k : ℕ).
        if k == 0
        then some (1 ∷ 0 ∷ 0 ∷ 0 ∷ [])
        else if k == 1
        then some (7 ∷ 0 ∷ 0 ∷ 0 ∷ 0 ∷ 0 ∷ 0 ∷ 0 ∷ [])
        else if k == 2
        then some (Events.into_bytes (parsed_of 5 7 1).headers.properties)
        else none));
}

abbrev poll : Topic → World → World × Result ℕ (List TestMessage)
poll main_topic w = (record w { time = suc w.time; log = 0 ∷ w.log; queue = [] }, ok w.queue)
poll retry_topic w = (tick w, ok [])

abbrev store : Topic → ℕ → World → World × Result ℕ (Unit {0})
store main_topic n w = (record w { stored = some n; time = suc w.time; log = suc n ∷ w.log }, ok tt)
store retry_topic n w = (tick w, ok tt)

abbrev iggy : Iggy World ℕ ℕ (List ℕ)
iggy = record {
  get_consumer_offset = λ t w. (tick w, ok none);
  store_consumer_offset = store;
  poll_messages = λ t s w. poll t w;
  send_messages = λ ms w. (tick w, ok tt);
  build = λ payload headers.
      ok (record { offset = 0; payload = payload; user_headers = ok (some headers) });
  key_eq = ℕ_discrete;
  as_bytes = λ v. v;
  try_from = λ bs. ok bs;
  sleep = λ d w. tick w;
  now = λ w. w.time;
  now_ms = λ w. w.time;
  stopped = λ w. none;
}

abbrev keys : HeaderKeys ℕ
keys = record { tag = 0; key = 1; props = 2; retry = 3 }

abbrev stored_of : World → Option ℕ
stored_of w = w.stored

abbrev Later : World → World → Type 0
Later a b = (calls : List ℕ) × (b.log ≡ calls ++ a.log)

abbrev QuietFrom : World → World → Type 0
QuietFrom = Quiet handlers iggy config keys 1000 4 stored_of Later

call_later : (n : ℕ) (w v : World) → Later w v → Later w (record v { log = n ∷ v.log })
call_later n w v (calls, e) = (n ∷ calls, ap (◌∷◌ n) e)

ticked : (w v : World) → QuietFrom w v → QuietFrom w (tick v)
ticked w v q = record { unstored = q.unstored; passed = call_later 0 w v q.passed }

poll-quiet : (t : Topic) (w v : World) → QuietFrom w v → QuietFrom w (poll t v).0
poll-quiet main_topic w v q = record { unstored = q.unstored; passed = call_later 0 w v q.passed }
poll-quiet retry_topic w v q = ticked w v q

one_by_one-keeps :
    {B : Type 0} (P : World → Type 0) (fs : List (World → World × B))
    → AllKeep P fs
    → (w : World) → P w
    → P (one_by_one fs w).0
one_by_one-keeps P [] k w p = p
one_by_one-keeps P (f ∷ fs) (k, ks) w p = one_by_one-keeps P fs ks (f w).0 (k w p)

keeps : (w : World) → Keeps handlers iggy (QuietFrom w)
keeps w = record {
  get_keeps = λ t v q. ticked w v q;
  store_keeps = λ n v q. ticked w v q;
  poll_keeps = λ t s v q. poll-quiet t w v q;
  send_keeps = λ ms v q. ticked w v q;
  sleep_keeps = λ d v q. ticked w v q;
  stopped_keeps = λ v v' q e. absurd (cc);
  handle_keeps = λ v tag r q. ticked w v q;
  join_keeps = λ B fs k v q. one_by_one-keeps (QuietFrom w) fs k v q;
}

clock : Clock handlers iggy config keys 1000 4 stored_of Later
clock = record {
  later_refl = λ w. ([], refl);
  later_trans = λ a b c (k, e) (l, f). (l ++ k, f ∙ ap (◌++◌ l) e ∙ sym (append_assoc l k a.log));
  quiet = keeps;
  store_later = λ n w. (suc n ∷ [], refl);
  store_main = λ n w. inr refl;
}

abbrev loaded : World
loaded = record { stored = none; time = 0; log = []; queue = message ∷ [] }

run-Safe_example :
    Always
      (Safe handlers iggy config keys 1000 4 stored_of Later loaded none)
      (run handlers iggy config keys 1000 4 2 loaded)
run-Safe_example = run-Safe handlers iggy config keys 1000 4 stored_of Later clock refl 2 loaded
