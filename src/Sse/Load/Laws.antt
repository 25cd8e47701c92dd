-- ===== src/Sse/Load/Laws.antt =====
-- The counters and the samples of the load generator, and the workers.
use senix.Prelude.{
  ℕ, ◌+◌, ◌*◌, ◌≤◌, Bool, true, not, String, List, [], ◌∷◌, Option, none, some, ◌≡◌, ◌⊎◌, refl, sym,
  arith, length, length-append, length-replace, ltb, min, Bool-cases, inl, inr, ◌&&◌, get_elem?,
  replace, length-replicate,
}
use senix.Sse.Reader.{Platform, Parameters, Progress, Outcome, returned, thrown, one_stream}
use senix.Sse.Reader.Sound.{IsTimed, one_stream_sound}
use senix.Sse.Load.{
  Worker, waiting, streaming, done, Error, transport, refused, Attempt, broken, responded, Load,
  Event, turn, finish, launch, record_stream, record_error, attempt, turn_of, release, finish_of,
  work, work_all,
}
use senix.Sse.Load.Flight.{in_flight, in_flight-replace, in_flight-le-length, in_flight-replicate}

module _ (platform : Platform) (parameters : Parameters) where
  -- What the counters say of the workers and of each other.
  pub record IsTallied (vus : ℕ) (s : Load platform parameters) : Type 0 where
    pub workers : length s.workers ≡ vus
    pub current : s.active ≡ in_flight s.workers
    pub peak : s.active ≤ s.peak_active
    pub peak_vus : s.peak_active ≤ vus
    pub few_failed : s.failed + s.active ≤ vus
    pub stopped : (s.stop ≡ true) ⊎ (s.failed ≡ 0)
    pub some_errors : length s.errors ≡ min s.failed 8
    pub events_received : s.received_events ≡ s.completed * parameters.events
    pub firsts : length s.first_event_us ≡ s.completed
    pub gaps : length s.event_gap_us + s.completed ≡ s.received_events
    pub times : length s.complete_stream_us ≡ s.completed
    pub batches : length s.delivery_batches ≡ s.completed

  IsTimed-length :
      {T : Type 0} (count : ℕ) (previous : Option T) (first : Option ℕ) (gaps : List ℕ)
      → 2 ≤ count
      → IsTimed count previous first gaps
      → length gaps + 1 ≡ count
  IsTimed-length count none first gaps two (e, _, _) = absurd (omega arith)
  IsTimed-length count (some t) first gaps two (e, _) = e

  -- What recording a stream, good or bad, leaves in place, before the worker is released.
  record_error-IsTallied :
      (vus k : ℕ) (e : Error) (s : Load platform parameters)
      → get_elem? s.workers k ≡ some streaming
      → IsTallied vus s
      → IsTallied vus (release platform parameters k (record_error platform parameters e s))
  unfolding record_error
  record_error-IsTallied vus k e s here h =
      let count = in_flight-replace k waiting s.workers here in
      let same = length-replace k waiting s.workers in
      record {
        workers = omega (arith, same, h.workers);
        current = omega (arith, count, h.current);
        peak = omega (arith, h.peak);
        peak_vus = h.peak_vus;
        few_failed = omega (arith, h.few_failed, count, h.current);
        stopped = inl refl;
        some_errors = elim (Bool-cases (ltb (length s.errors) 8)) [
          | inl room ↦ rw room (ground (arith, length-append s.errors (e ∷ []), h.some_errors))
          | inr full ↦ rw full (ground (arith, h.some_errors))
        ];
        events_received = h.events_received;
        firsts = h.firsts;
        gaps = h.gaps;
        times = h.times;
        batches = h.batches;
      }

  record_stream-IsTallied :
      (vus k : ℕ) (protocol : String) (started ended : platform.Time)
      (p : Progress platform parameters) (s : Load platform parameters)
      → get_elem? s.workers k ≡ some streaming
      → p.count ≡ parameters.events
      → length p.gaps + 1 ≡ parameters.events
      → IsTallied vus s
      → IsTallied vus (
          release platform parameters k
            (record_stream platform parameters protocol started ended p s))
  unfolding record_stream
  record_stream-IsTallied vus k protocol started ended p s here all_counted timed h =
      let count = in_flight-replace k waiting s.workers here in
      let same = length-replace k waiting s.workers in
      record {
        workers = omega (arith, same, h.workers);
        current = omega (arith, count, h.current);
        peak = omega (arith, h.peak);
        peak_vus = h.peak_vus;
        few_failed = omega (arith, h.few_failed, count, h.current);
        stopped = h.stopped;
        some_errors = h.some_errors;
        events_received = one_more s.completed (omega (arith, h.events_received, all_counted));
        firsts = omega (arith, h.firsts, length-append s.first_event_us (p.first ∷ []));
        gaps = omega (arith, h.gaps, timed, all_counted, length-append s.event_gap_us p.gaps);
        times = omega (
          arith,
          h.times,
          length-append s.complete_stream_us (platform.micros started ended ∷ []),
        );
        batches = omega (arith, h.batches, length-append s.delivery_batches (p.batches ∷ []));
      }
    where
      one_more :
          {a : ℕ} (n : ℕ)
          → a ≡ n * parameters.events + parameters.events
          → a ≡ (n + 1) * parameters.events
      one_more n e = grind arith

  finish-IsTallied :
      (vus k : ℕ) (a : Attempt platform parameters) (s : Load platform parameters)
      → 2 ≤ parameters.events
      → get_elem? s.workers k ≡ some streaming
      → IsTallied vus s
      → IsTallied vus (release platform parameters k (attempt platform parameters a s))
  unfolding attempt
  finish-IsTallied vus k (broken message) s two here h =
      record_error-IsTallied vus k (transport message) s here h
  finish-IsTallied vus k (responded status type protocol chunks started ended) s two here h =
      elim (outcome_cases (one_stream platform parameters started status type chunks)) [
        | inl (p, good) ↦
            let sound = one_stream_sound platform parameters started status type chunks p good in
            rw good (
              record_stream-IsTallied vus k protocol started ended p s here sound.counted_all
                (IsTimed-length parameters.events p.previous p.first p.gaps two sound.timed) h)
        | inr (why, bad) ↦ rw bad (record_error-IsTallied vus k (refused why) s here h)
      ]
    where
      outcome_cases :
          (o : Outcome (Progress platform parameters))
          → ((p : Progress platform parameters) × (o ≡ returned p)) ⊎ ((why : _) × (o ≡ thrown why))
      outcome_cases (returned p) = inl (p, refl)
      outcome_cases (thrown why) = inr (why, refl)

  turn-IsTallied :
      (vus k : ℕ) (in_time : Bool) (s : Load platform parameters)
      → get_elem? s.workers k ≡ some waiting
      → IsTallied vus s
      → IsTallied vus (turn_of platform parameters k in_time (some waiting) s)
  turn-IsTallied vus k in_time s here h = elim (Bool-cases (not s.stop && in_time)) [
    | inl go ↦
        let count = in_flight-replace k streaming s.workers here in
        let same = length-replace k streaming s.workers in
        let some_free = in_flight-le-length (replace k streaming s.workers) in
        let running : s.failed ≡ 0 = elim h.stopped [
          | inl stopped ↦ absurd (ground arith)
          | inr no_failure ↦ no_failure
        ] in
        rw go (record {
          workers = omega (arith, same, h.workers);
          current = omega (arith, count, h.current);
          peak = omega arith;
          peak_vus = omega (arith, h.peak_vus, count, h.current, some_free, same, h.workers);
          few_failed = omega (arith, running, count, h.current, some_free, same, h.workers);
          stopped = inr running;
          some_errors = h.some_errors;
          events_received = h.events_received;
          firsts = h.firsts;
          gaps = h.gaps;
          times = h.times;
          batches = h.batches;
        })
    | inr over ↦
        let count = in_flight-replace k done s.workers here in
        let same = length-replace k done s.workers in
        rw over (record {
          workers = omega (arith, same, h.workers);
          current = omega (arith, count, h.current);
          peak = h.peak;
          peak_vus = h.peak_vus;
          few_failed = h.few_failed;
          stopped = h.stopped;
          some_errors = h.some_errors;
          events_received = h.events_received;
          firsts = h.firsts;
          gaps = h.gaps;
          times = h.times;
          batches = h.batches;
        })
  ]

  turn_of-IsTallied :
      (vus k : ℕ) (in_time : Bool) (at : Option Worker) (s : Load platform parameters)
      → get_elem? s.workers k ≡ at
      → IsTallied vus s
      → IsTallied vus (turn_of platform parameters k in_time at s)
  turn_of-IsTallied vus k in_time none s here h = h
  turn_of-IsTallied vus k in_time (some waiting) s here h = turn-IsTallied vus k in_time s here h
  turn_of-IsTallied vus k in_time (some streaming) s here h = h
  turn_of-IsTallied vus k in_time (some done) s here h = h

  finish_of-IsTallied :
      (vus k : ℕ) (a : Attempt platform parameters) (at : Option Worker)
      (s : Load platform parameters)
      → 2 ≤ parameters.events
      → get_elem? s.workers k ≡ at
      → IsTallied vus s
      → IsTallied vus (finish_of platform parameters k a at s)
  finish_of-IsTallied vus k a none s two here h = h
  finish_of-IsTallied vus k a (some waiting) s two here h = h
  finish_of-IsTallied vus k a (some streaming) s two here h = finish-IsTallied vus k a s two here h
  finish_of-IsTallied vus k a (some done) s two here h = h

  work_all-IsTallied :
      (vus : ℕ) (s : Load platform parameters) (later : List (Event platform parameters))
      → 2 ≤ parameters.events
      → IsTallied vus s
      → IsTallied vus (work_all platform parameters s later)
  unfolding work_all work
  work_all-IsTallied vus s [] two h = h
  work_all-IsTallied vus s (turn k in_time ∷ later) two h =
      work_all-IsTallied vus (work platform parameters s (turn k in_time)) later two
        (turn_of-IsTallied vus k in_time (get_elem? s.workers k) s refl h)
  work_all-IsTallied vus s (finish k a ∷ later) two h =
      work_all-IsTallied vus (work platform parameters s (finish k a)) later two
        (finish_of-IsTallied vus k a (get_elem? s.workers k) s two refl h)

  -- However the turns of the workers and the ends of their streams interleave, and whatever the
  -- responses hold, if at least two events are asked for per stream then: the active streams are
  -- the workers in `oneStream`, and the peak never exceeds the number of workers; the failed and
  -- the active streams together are never more than the workers, and no stream has failed unless
  -- the run is stopped; the errors kept are the failed streams up to eight; the events received
  -- are those asked for, for each completed stream; and the samples have an entry for each
  -- completed stream, or for each two neighbouring events of one.
  pub work_all-launch-IsTallied :
      (vus : ℕ) (later : List (Event platform parameters))
      → 2 ≤ parameters.events
      → IsTallied vus (work_all platform parameters (launch platform parameters vus) later)
  work_all-launch-IsTallied vus later two =
      work_all-IsTallied vus (launch platform parameters vus) later two (record {
        workers = length-replicate vus waiting;
        current = sym (in_flight-replicate vus);
        peak = omega arith;
        peak_vus = omega arith;
        few_failed = omega arith;
        stopped = inr refl;
        some_errors = refl;
        events_received = omega arith;
        firsts = refl;
        gaps = refl;
        times = refl;
        batches = refl;
      })
