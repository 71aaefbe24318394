-- ===== src/Consumer/Runtime/Batch.antt =====
-- `process_main` and `send_retry` of wakuwaku-iggy/src/consumer/runtime.rs: each key of a batch is
-- executed or diverted, and the failed and diverted work is written to the retry partition.
pub mod Accounts
use wakuwaku.Base.{
  ℕ, List, [], ◌∷◌, ◌++◌, Option, none, some, Bool, true, false, not, map, length, ltb,
  if◌then◌else◌, Result, ok, err, ◌>>=◌, saturating_add,
}
use wakuwaku.Events.Headers.{HeaderKeys, RetryProperties, to_map}
use wakuwaku.Partition.Plan.{KeyPlan, Plan}
use wakuwaku.Partition.Plan.Build.{new}
use wakuwaku.Consumer.Backoff.{until_ok}
use wakuwaku.Consumer.Record.{ParsedRecord, Message, parse, plan_records}
use wakuwaku.Consumer.Retry.{RetryState, is_quarantined, pending_len, is_empty}
use wakuwaku.Consumer.Execute.{KeyReport, execute_key}
use wakuwaku.Consumer.Encode.{RetryEntry, encode_key}
use wakuwaku.Consumer.Runtime.{Handlers, Iggy, ConsumerConfig}

-- The keys that are not quarantined: `zip(..).filter(..).map(..)`.
unfoldable pub active : List KeyPlan → List Bool → List KeyPlan
active [] quarantined = []
active (k ∷ keys) [] = []
active (k ∷ keys) (q ∷ quarantined) =
    let rest = active keys quarantined in if q then rest else k ∷ rest

-- `reports.next()`, and the reports that are left.
abbrev next_report :
    {Err : Type 0} → List (KeyReport Err) → Option (KeyReport Err) × List (KeyReport Err)
next_report [] = (none, [])
next_report (r ∷ reports) = (some r, reports)

module _ {W Err : Type 0} (handlers : Handlers W Err) (config : ConsumerConfig) (state : RetryState)
    (plan : Plan) (records : List ParsedRecord) where
  -- `execute_key(&*self.handlers, &plan, key, &records, self.delays())`
  unfoldable pub execute : KeyPlan → W → W × KeyReport Err
  execute key w = execute_key handlers.handle_run handlers.join_all plan records key w

  unfoldable pub encode : KeyPlan → KeyReport Err → List RetryEntry
  encode key report =
      encode_key handlers.associativity handlers.reduce_run plan key records report.failure

  -- All the work of a key as retry entries.
  unfoldable pub encode_all : KeyPlan → List RetryEntry
  encode_all key =
      encode_key handlers.associativity handlers.reduce_run {Err = Err} plan key records none

  -- The records that would wait in the retry partition.
  unfoldable pub backlog : List RetryEntry → List RetryEntry → ℕ
  backlog entries failed =
      saturating_add (saturating_add (pending_len state) (length entries)) (length failed)

  -- The entries after a key that was executed.
  unfoldable pub after_report : KeyPlan → Option (KeyReport Err) → List RetryEntry → List RetryEntry
  unfolding encode backlog
  after_report key none entries = entries
  after_report key (some report) entries =
      let failed = encode key report in
      elim report.failure [
        | none ↦ entries
        | some failure ↦
            if ltb config.max_pending_retry (backlog entries failed)
            then entries
            else entries ++ failed
      ]

  -- The loop over the keys.
  unfoldable pub collect :
      List KeyPlan → List Bool → List (KeyReport Err) → List RetryEntry → List RetryEntry
  unfolding encode_all after_report
  collect [] quarantined reports entries = entries
  collect (key ∷ keys) [] reports entries = entries
  collect (key ∷ keys) (true ∷ quarantined) reports entries =
      collect keys quarantined reports (entries ++ encode_all key)
  collect (key ∷ keys) (false ∷ quarantined) reports entries =
      let (report, rest) = next_report reports in
      collect keys quarantined rest (after_report key report entries)

  -- `process_main` between the planning and `send_retry`.
  unfoldable pub run_keys : List KeyPlan → W → W × List RetryEntry
  unfolding active execute collect
  run_keys keys w =
      let quarantined = map (λ (k : KeyPlan). is_quarantined state k.key) keys in
      let (w', reports) = handlers.join_all (map execute (active keys quarantined)) w in
      (w', collect keys quarantined reports [])

module _ {W IggyError HeaderKey HeaderValue : Type 0}
    (iggy : Iggy W IggyError HeaderKey HeaderValue) (config : ConsumerConfig)
    (keys : HeaderKeys HeaderKey) where
  -- The records of the messages whose headers parse.
  unfoldable pub parse_all : List (Message IggyError HeaderKey HeaderValue) → List ParsedRecord
  parse_all [] = []
  parse_all (m ∷ messages) =
      let rest = parse_all messages in
      elim (parse iggy.as_bytes m keys) [ ok (record_, _) ↦ record_ ∷ rest | err _ ↦ rest ]

  -- The messages of the entries that can be built.
  unfoldable pub build_all :
      RetryProperties → List RetryEntry → List (Message IggyError HeaderKey HeaderValue)
  build_all retry [] = []
  build_all retry (entry ∷ entries) =
      let rest = build_all retry entries in
      elim (to_map iggy.key_eq iggy.try_from entry.headers keys (some retry)
        >>= iggy.build entry.payload) [ ok message ↦ message ∷ rest | err _ ↦ rest ]

  -- Up to `fuel` attempts to send; `none` if none of them succeeded.
  unfoldable pub send_retry : ℕ → List RetryEntry → W → Option W
  unfolding build_all
  send_retry fuel entries w =
      let messages = build_all (record { failed_at_ms = iggy.now_ms w }) entries in
      if is_empty messages
      then some w
      else elim (until_ok iggy.sleep config.retry_delays (iggy.send_messages messages) fuel 0 w) [
        | none ↦ none
        | some (w', _) ↦ some w'
      ]

  unfoldable pub process_main :
      {Err : Type 0}
      → Handlers W Err
      → ℕ
      → RetryState
      → List (Message IggyError HeaderKey HeaderValue)
      → W
      → Option W
  unfolding parse_all run_keys send_retry
  process_main handlers fuel state polled w =
      let records = parse_all polled in
      let plan = new (plan_records records) in
      let (w', entries) = run_keys handlers config state plan records plan.keys w in
      send_retry fuel entries w'
