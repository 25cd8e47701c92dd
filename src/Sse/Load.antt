-- ===== src/Sse/Load.antt =====
-- benchmarks/sse-load.mjs, the workers: each opens one stream after the other until the time is up
-- or a stream has failed. They share the counters and the samples.
pub mod Flight
pub mod Laws
pub mod Log
use senix.Prelude.{
  ℕ, zero, suc, ◌+◌, ◌-◌, Bool, true, false, not, String, str_eq, Text, List, [], ◌∷◌, ◌++◌, Option,
  none, some, ltb, max, length, replicate, get_elem?, replace, ◌&&◌, if◌then◌else◌,
}
use senix.Sse.Reader.{
  Platform, Parameters, Progress, Failure, Outcome, returned, thrown, one_stream,
}

-- Where a worker stands: before the loop's condition, in `oneStream`, or behind the loop.
pub data Worker : Type 0 where
  waiting streaming done : Worker

-- Why a stream failed: an error of the transport, or what `oneStream` throws itself.
pub data Error : Type 0 where
  transport : Text → Error
  refused : Failure → Error

abbrev pub tally : String → List (String × ℕ) → List (String × ℕ)
tally protocol [] = (protocol, 1) ∷ []
tally protocol ((name, n) ∷ later) =
    let rest = tally protocol later in
    if str_eq name protocol then (name, n + 1) ∷ later else (name, n) ∷ rest

module _ (platform : Platform) (parameters : Parameters) where
  -- How a stream ends: the transport breaks it off, or its response has come in full.
  pub data Attempt : Type 0 where
    broken : Text → Attempt
    responded :
        (status : ℕ) (type protocol : String) (chunks : List (List ℕ))
        (started ended : platform.Time)
        → Attempt

  pub record Load : Type 0 where
    pub workers : List Worker
    pub active : ℕ
    pub peak_active : ℕ
    pub completed : ℕ
    pub failed : ℕ
    pub stop : Bool
    pub errors : List Error
    pub received_events : ℕ
    pub body_bytes : ℕ
    pub first_event_us : List (Option ℕ)
    pub event_gap_us : List ℕ
    pub complete_stream_us : List ℕ
    pub delivery_batches : List ℕ
    pub protocols : List (String × ℕ)

  pub data Event : Type 0 where
    turn : (k : ℕ) → (in_time : Bool) → Event
    finish : (k : ℕ) → Attempt → Event

  abbrev pub launch : ℕ → Load
  launch vus = record {
    workers = replicate vus waiting;
    active = 0;
    peak_active = 0;
    completed = 0;
    failed = 0;
    stop = false;
    errors = [];
    received_events = 0;
    body_bytes = 0;
    first_event_us = [];
    event_gap_us = [];
    complete_stream_us = [];
    delivery_batches = [];
    protocols = [];
  }

  -- The end of `oneStream`, behind its last check.
  unfoldable pub record_stream :
      String → platform.Time → platform.Time → Progress platform parameters → Load → Load
  record_stream protocol started ended p s = record s {
    first_event_us = s.first_event_us ++ p.first ∷ [];
    event_gap_us = s.event_gap_us ++ p.gaps;
    complete_stream_us = s.complete_stream_us ++ platform.micros started ended ∷ [];
    delivery_batches = s.delivery_batches ++ p.batches ∷ [];
    protocols = tally protocol s.protocols;
    completed = s.completed + 1;
    received_events = s.received_events + p.count;
    body_bytes = s.body_bytes + p.bytes;
  }

  -- The `catch` of the worker.
  unfoldable pub record_error : Error → Load → Load
  record_error e s = record s {
    failed = s.failed + 1;
    stop = true;
    errors = if ltb (length s.errors) 8 then s.errors ++ e ∷ [] else s.errors;
  }

  abbrev pub settle :
      String → platform.Time → platform.Time → Outcome (Progress platform parameters) → Load → Load
  settle protocol started ended (returned p) s = record_stream protocol started ended p s
  settle protocol started ended (thrown why) s = record_error (refused why) s

  unfoldable pub attempt : Attempt → Load → Load
  unfolding record_stream record_error
  attempt (broken message) s = record_error (transport message) s
  attempt (responded status type protocol chunks started ended) s =
      settle protocol started ended (one_stream platform parameters started status type chunks) s

  -- The loop's condition, and the start of its body.
  abbrev pub turn_of : ℕ → Bool → Option Worker → Load → Load
  turn_of k in_time (some waiting) s =
      if not s.stop && in_time
      then record s {
        workers = replace k streaming s.workers;
        active = s.active + 1;
        peak_active = max s.peak_active (s.active + 1);
      }
      else record s { workers = replace k done s.workers }
  turn_of k in_time _ s = s

  -- The `finally`, and back to the loop's condition.
  abbrev pub release : ℕ → Load → Load
  release k s = record s { workers = replace k waiting s.workers; active = s.active - 1 }

  abbrev pub finish_of : ℕ → Attempt → Option Worker → Load → Load
  finish_of k a (some streaming) s = release k (attempt a s)
  finish_of k a _ s = s

  unfoldable pub work : Load → Event → Load
  unfolding attempt
  work s (turn k in_time) = turn_of k in_time (get_elem? s.workers k) s
  work s (finish k a) = finish_of k a (get_elem? s.workers k) s

  unfoldable pub work_all : Load → List Event → Load
  unfolding work
  work_all s [] = s
  work_all s (e ∷ later) = work_all (work s e) later
