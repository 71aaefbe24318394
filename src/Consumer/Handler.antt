-- ===== src/Consumer/Handler.antt =====
-- wakuwaku-iggy/src/consumer/handler.rs: decoding a run, reducing it and handing it to the handler in
-- chunks. The body's codec, its algebra and the handler are parameters; `W` is the state of the world
-- that a handler changes. Retrying a chunk in place takes fuel: `none` is a handler that stays
-- transient for all of it.
pub mod Chunks
pub mod Termination
mod Examples
use wakuwaku.Base.{
  Bool, ℕ, zero, suc, ◌==◌, ltb, min, List, [], ◌∷◌, Option, none, some, length, drop,
  if◌then◌else◌, saturating_add,
}
use wakuwaku.Events.{EventAssociativity, associativity_byte}
use wakuwaku.Partition.Algebra.{Algebra, associativity, reduce}
use wakuwaku.Partition.Plan.View.{slice}
use wakuwaku.Consumer.Backoff.{Duration, delay_for}

-- wakuwaku-iggy/src/error.rs
pub data ErrorClass : Type 0 where
  transient retryable unrecoverable : ErrorClass

pub record HandleError (Err : Type 0) : Type 0 where
  pub class : ErrorClass
  pub source : Err

pub record RunRecord : Type 0 where
  pub payload : List ℕ
  pub associativity : EventAssociativity

pub data RunResult (Err : Type 0) : Type 0 where
  done : RunResult Err
  failed : Err → List (List ℕ) → RunResult Err

-- `record.associativity == expected`
same_associativity : EventAssociativity → EventAssociativity → Bool
unfolding associativity_byte
same_associativity a b = associativity_byte a == associativity_byte b

module _ {T : Type 0} (from_bytes : List ℕ → Option T) (algebra : Algebra T) where
  -- The events of the run, without the records that can't be decoded.
  decode_all : List RunRecord → List T
  unfolding same_associativity
  decode_all [] = []
  decode_all (r ∷ run) =
      let rest = decode_all run in
      if same_associativity r.associativity (associativity algebra)
      then elim (from_bytes r.payload) [ none ↦ rest | some e ↦ e ∷ rest ]
      else rest

  unfoldable pub decode : List RunRecord → List T
  unfolding decode_all
  decode run = reduce algebra (decode_all run)

unfoldable pub encode : {T : Type 0} → (T → Option (List ℕ)) → List T → List (List ℕ)
encode to_bytes [] = []
encode to_bytes (e ∷ events) =
    let rest = encode to_bytes events in
    elim (to_bytes e) [ none ↦ rest | some bytes ↦ bytes ∷ rest ]

module _ {T W Err : Type 0} (handle : W → List T → W × Option (HandleError Err))
    (sleep : W → Duration → W) (delays : List Duration) where
  -- The inner loop: one chunk until it is settled (`none`) or fails with a retryable error.
  pub attempt_chunk : ℕ → List T → ℕ → W → Option (W × Option Err)
  attempt_chunk zero chunk attempt w = none
  attempt_chunk (suc fuel) chunk attempt w =
      let (w', outcome) = handle w chunk in
      elim outcome [
        | none ↦ some (w', none)
        | some error ↦ elim error.class [
          | transient ↦
              attempt_chunk fuel chunk (saturating_add attempt 1)
                (sleep w' (delay_for delays attempt))
          | unrecoverable ↦ some (w', none)
          | retryable ↦ some (w', some error.source)
        ]
      ]

  module _ (to_bytes : T → Option (List ℕ)) (max_batch : ℕ) (fuel : ℕ) where
    -- The outer loop, from the event of index `start`; at most `rounds` rounds.
    pub run_chunks : ℕ → List T → ℕ → W → Option (W × RunResult Err)
    run_chunks zero events start w = none
    run_chunks (suc rounds) events start w =
        let end = min (saturating_add start max_batch) (length events) in
        let chunk = slice events (record { start = start; end = end }) in
        let next : Option (W × RunResult Err) = elim (attempt_chunk fuel chunk 0 w) [
          | none ↦ none
          | some (w', none) ↦ run_chunks rounds events end w'
          | some (w', some error) ↦ some (w', failed error (encode to_bytes (drop start events)))
        ] in
        if ltb start (length events) then next else some (w, done)

    -- `handle_events`; each round takes an event, so that a round more than the events is enough.
    unfoldable pub handle_events :
        (List ℕ → Option T) → Algebra T → List RunRecord → W → Option (W × RunResult Err)
    unfolding run_chunks attempt_chunk
    handle_events from_bytes algebra run w =
        let events = decode from_bytes algebra run in run_chunks (suc (length events)) events 0 w
