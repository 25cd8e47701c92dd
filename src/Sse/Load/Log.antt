-- ===== src/Sse/Load/Log.antt =====
-- benchmarks/sse-load.mjs, what the shared counters and samples stand for: the list of the streams
-- that have ended, in their order.
pub mod Snoc
pub mod Records
pub mod Refines
use senix.Prelude.{
  ℕ, zero, suc, ◌+◌, Bool, true, false, not, String, str_eq, List, [], ◌∷◌, ◌++◌, Option, none,
  some, ltb, ◌==◌, length, replicate, get_elem?, replace, take, ◌&&◌, if◌then◌else◌, ◌≡◌,
}
use senix.Sse.Reader.{Platform, Parameters, Progress, Outcome, returned, thrown, one_stream}
use senix.Sse.Load.{
  Worker, waiting, streaming, done, Error, transport, refused, Attempt, broken, responded, Load,
  Event, turn, finish,
}
use senix.Sse.Load.Flight.{in_flight}

abbrev pub collect {ℓ κ} : {A : Type ℓ} {B : Type κ} → (A → List B) → List A → List B
collect f [] = []
collect f (a ∷ more) = f a ++ collect f more

abbrev pub total {ℓ} : {A : Type ℓ} → (A → ℕ) → List A → ℕ
total f [] = 0
total f (a ∷ more) = f a + total f more

-- How often a protocol was counted.
abbrev pub counted : String → List (String × ℕ) → ℕ
counted name [] = 0
counted name ((other, n) ∷ later) = (if str_eq other name then n else 0) + counted name later

module _ (platform : Platform) (parameters : Parameters) where
  -- A stream that has ended.
  pub data Finished : Type 0 where
    good : (protocol : String) (micros : ℕ) → Progress platform parameters → Finished
    bad : Error → Finished

  abbrev pub outcome_of : String → ℕ → Outcome (Progress platform parameters) → Finished
  outcome_of protocol micros (returned p) = good protocol micros p
  outcome_of protocol micros (thrown why) = bad (refused why)

  abbrev pub finished_of : Attempt platform parameters → Finished
  finished_of (broken message) = bad (transport message)
  finished_of (responded status type protocol chunks started ended) =
      outcome_of protocol (platform.micros started ended)
        (one_stream platform parameters started status type chunks)

  -- The abstract run: the workers, and the log of the streams that have ended.
  pub record Log : Type 0 where
    pub workers : List Worker
    pub streams : List Finished

  abbrev pub is_bad : Finished → ℕ
  is_bad (bad e) = 1
  is_bad (good protocol micros p) = 0

  abbrev pub is_good : Finished → ℕ
  is_good (bad e) = 0
  is_good (good protocol micros p) = 1

  -- A worker goes on as long as no stream has failed and there is time.
  abbrev pub log_turn : ℕ → Bool → Option Worker → Log → Log
  log_turn k in_time (some waiting) l =
      if total is_bad l.streams == 0 && in_time
      then record l { workers = replace k streaming l.workers }
      else record l { workers = replace k done l.workers }
  log_turn k in_time _ l = l

  -- The end of a stream is one more entry.
  abbrev pub log_finish : ℕ → Attempt platform parameters → Option Worker → Log → Log
  log_finish k a (some streaming) l = record {
    workers = replace k waiting l.workers;
    streams = l.streams ++ finished_of a ∷ [];
  }
  log_finish k a _ l = l

  abbrev pub log_step : Log → Event platform parameters → Log
  log_step l (turn k in_time) = log_turn k in_time (get_elem? l.workers k) l
  log_step l (finish k a) = log_finish k a (get_elem? l.workers k) l

  unfoldable pub log_all : Log → List (Event platform parameters) → Log
  log_all l [] = l
  log_all l (e ∷ later) = log_all (log_step l e) later

  abbrev pub first_log : ℕ → Log
  first_log vus = record { workers = replicate vus waiting; streams = [] }

  abbrev pub error_of : Finished → List Error
  error_of (bad e) = e ∷ []
  error_of (good protocol micros p) = []

  abbrev pub count_of : Finished → ℕ
  count_of (bad e) = 0
  count_of (good protocol micros p) = p.count

  abbrev pub bytes_of : Finished → ℕ
  bytes_of (bad e) = 0
  bytes_of (good protocol micros p) = p.bytes

  abbrev pub first_of : Finished → List (Option ℕ)
  first_of (bad e) = []
  first_of (good protocol micros p) = p.first ∷ []

  abbrev pub gaps_of : Finished → List ℕ
  gaps_of (bad e) = []
  gaps_of (good protocol micros p) = p.gaps

  abbrev pub times_of : Finished → List ℕ
  times_of (bad e) = []
  times_of (good protocol micros p) = micros ∷ []

  abbrev pub batches_of : Finished → List ℕ
  batches_of (bad e) = []
  batches_of (good protocol micros p) = p.batches ∷ []

  abbrev pub has_protocol : String → Finished → ℕ
  has_protocol name (bad e) = 0
  has_protocol name (good protocol micros p) = if str_eq protocol name then 1 else 0

  -- The counters and samples are those of the log.
  pub record IsReportOf (l : Log) (s : Load platform parameters) : Type 0 where
    pub workers : s.workers ≡ l.workers
    pub active : s.active ≡ in_flight l.workers
    pub completed : s.completed ≡ total is_good l.streams
    pub failed : s.failed ≡ total is_bad l.streams
    pub stop : s.stop ≡ not (total is_bad l.streams == 0)
    pub errors : s.errors ≡ take 8 (collect error_of l.streams)
    pub received_events : s.received_events ≡ total count_of l.streams
    pub body_bytes : s.body_bytes ≡ total bytes_of l.streams
    pub first_event_us : s.first_event_us ≡ collect first_of l.streams
    pub event_gap_us : s.event_gap_us ≡ collect gaps_of l.streams
    pub complete_stream_us : s.complete_stream_us ≡ collect times_of l.streams
    pub delivery_batches : s.delivery_batches ≡ collect batches_of l.streams
    pub protocols : (name : String) → counted name s.protocols ≡ total (has_protocol name) l.streams
