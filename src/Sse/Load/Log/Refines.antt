-- ===== src/Sse/Load/Log/Refines.antt =====
-- The counters and samples of the load generator against the log of its streams.
use senix.Prelude.{
  max, ◌+◌, subst, ℕ, Bool, not, List, [], ◌∷◌, ◌++◌, Option, none, some, ◌==◌, get_elem?, replace,
  ◌&&◌, ◌≡◌, refl, sym, ap, arith, Bool-cases, inl, inr,
}
use senix.Sse.Reader.{Platform, Parameters, returned, thrown, one_stream}
use senix.Sse.Load.{
  Worker, waiting, streaming, done, transport, refused, Attempt, broken, responded, Load, Event,
  turn, finish, launch, settle, attempt, turn_of, release, finish_of, work, work_all,
}
use senix.Sse.Load.Flight.{in_flight, in_flight-replace, in_flight-replicate}
use senix.Sse.Load.Log.{
  total, outcome_of, Log, is_bad, log_turn, log_finish, log_step, log_all, first_log, IsReportOf,
}
use senix.Sse.Load.Log.Records.{record_error-IsReportOf, record_stream-IsReportOf}

module _ (platform : Platform) (parameters : Parameters) where
  finish-IsReportOf :
      (k : ℕ) (a : Attempt platform parameters) (l : Log platform parameters)
      (s : Load platform parameters)
      → get_elem? l.workers k ≡ some streaming
      → IsReportOf platform parameters l s
      → IsReportOf platform parameters
          (log_finish platform parameters k a (some streaming) l)
          (finish_of platform parameters k a (some streaming) s)
  unfolding attempt
  finish-IsReportOf k (broken message) l s here h =
      record_error-IsReportOf platform parameters k (transport message) l s here h
  finish-IsReportOf k (responded status type protocol chunks started ended) l s here h =
      elim (one_stream platform parameters started status type chunks)
        as (λ o.
          IsReportOf platform parameters
            (record {
              workers = replace k waiting l.workers;
              streams =
                  l.streams
                  ++ outcome_of platform parameters protocol (platform.micros started ended) o ∷ [];
            })
            (release platform parameters k
              (settle platform parameters protocol started ended o s))) [
                | returned p ↦
                    record_stream-IsReportOf platform parameters k protocol started ended p l s here
                      h
                | thrown why ↦
                    record_error-IsReportOf platform parameters k (refused why) l s here h
              ]

  -- A worker that moves on without ending a stream leaves the report as it is.
  moved-IsReportOf :
      (k active peak : ℕ) (w : Worker) (l : Log platform parameters) (s : Load platform parameters)
      → active ≡ in_flight (replace k w l.workers)
      → IsReportOf platform parameters l s
      → IsReportOf platform parameters
          (record l { workers = replace k w l.workers })
          (record s { workers = replace k w s.workers; active = active; peak_active = peak })
  moved-IsReportOf k active peak w l s count h = record {
    workers = ap (replace k w) h.workers;
    active = count;
    completed = h.completed;
    failed = h.failed;
    stop = h.stop;
    errors = h.errors;
    received_events = h.received_events;
    body_bytes = h.body_bytes;
    first_event_us = h.first_event_us;
    event_gap_us = h.event_gap_us;
    complete_stream_us = h.complete_stream_us;
    delivery_batches = h.delivery_batches;
    protocols = h.protocols;
  }

  turn-IsReportOf :
      (k : ℕ) (in_time : Bool) (l : Log platform parameters) (s : Load platform parameters)
      → get_elem? l.workers k ≡ some waiting
      → IsReportOf platform parameters l s
      → IsReportOf platform parameters
          (log_turn platform parameters k in_time (some waiting) l)
          (turn_of platform parameters k in_time (some waiting) s)
  turn-IsReportOf k in_time l s here h =
      let same : (not s.stop && in_time)
          ≡ (total (is_bad platform parameters) l.streams == 0 && in_time) =
        ground (arith, h.stop) in
      elim (Bool-cases (total (is_bad platform parameters) l.streams == 0 && in_time)) [
        | inl go ↦
            rw (same, go)
              (moved-IsReportOf k (s.active + 1) (max s.peak_active (s.active + 1)) streaming l s
                (omega (arith, h.active, in_flight-replace k streaming l.workers here)) h)
        | inr over ↦
            rw (same, over)
              (moved-IsReportOf k s.active s.peak_active done l s
                (omega (arith, h.active, in_flight-replace k done l.workers here)) h)
      ]

  turn_of-IsReportOf :
      (k : ℕ) (in_time : Bool) (o : Option Worker) (l : Log platform parameters)
      (s : Load platform parameters)
      → get_elem? l.workers k ≡ o
      → IsReportOf platform parameters l s
      → IsReportOf platform parameters
          (log_turn platform parameters k in_time o l)
          (turn_of platform parameters k in_time o s)
  turn_of-IsReportOf k in_time none l s here h = h
  turn_of-IsReportOf k in_time (some waiting) l s here h = turn-IsReportOf k in_time l s here h
  turn_of-IsReportOf k in_time (some streaming) l s here h = h
  turn_of-IsReportOf k in_time (some done) l s here h = h

  finish_of-IsReportOf :
      (k : ℕ) (a : Attempt platform parameters) (o : Option Worker) (l : Log platform parameters)
      (s : Load platform parameters)
      → get_elem? l.workers k ≡ o
      → IsReportOf platform parameters l s
      → IsReportOf platform parameters
          (log_finish platform parameters k a o l)
          (finish_of platform parameters k a o s)
  finish_of-IsReportOf k a none l s here h = h
  finish_of-IsReportOf k a (some waiting) l s here h = h
  finish_of-IsReportOf k a (some streaming) l s here h = finish-IsReportOf k a l s here h
  finish_of-IsReportOf k a (some done) l s here h = h

  work-IsReportOf :
      (e : Event platform parameters) (l : Log platform parameters) (s : Load platform parameters)
      → IsReportOf platform parameters l s
      → IsReportOf platform parameters
          (log_step platform parameters l e)
          (work platform parameters s e)
  unfolding work
  work-IsReportOf (turn k in_time) l s h =
      subst
        (λ (o : Option Worker).
          IsReportOf platform parameters (log_step platform parameters l (turn k in_time))
            (turn_of platform parameters k in_time o s))
        (sym (ap (λ (workers : List Worker). get_elem? workers k) h.workers))
        (turn_of-IsReportOf k in_time (get_elem? l.workers k) l s refl h)
  work-IsReportOf (finish k a) l s h =
      subst
        (λ (o : Option Worker).
          IsReportOf platform parameters (log_step platform parameters l (finish k a))
            (finish_of platform parameters k a o s))
        (sym (ap (λ (workers : List Worker). get_elem? workers k) h.workers))
        (finish_of-IsReportOf k a (get_elem? l.workers k) l s refl h)

  work_all-IsReportOf :
      (events : List (Event platform parameters)) (l : Log platform parameters)
      (s : Load platform parameters)
      → IsReportOf platform parameters l s
      → IsReportOf platform parameters
          (log_all platform parameters l events)
          (work_all platform parameters s events)
  unfolding work_all log_all
  work_all-IsReportOf [] l s h = h
  work_all-IsReportOf (e ∷ events) l s h =
      work_all-IsReportOf events (log_step platform parameters l e) (work platform parameters s e)
        (work-IsReportOf e l s h)

  -- However the turns of the workers and the ends of their streams interleave, the shared counters
  -- and samples report the log of the streams that have ended, in their order: how many of them are
  -- good and bad, the first eight errors, all samples of the good ones, and each protocol as often as
  -- it was met; and the workers stop just when the log has a failure.
  pub work_all-launch-IsReportOf :
      (vus : ℕ) (events : List (Event platform parameters))
      → IsReportOf platform parameters
          (log_all platform parameters (first_log platform parameters vus) events)
          (work_all platform parameters (launch platform parameters vus) events)
  work_all-launch-IsReportOf vus events =
      work_all-IsReportOf events (first_log platform parameters vus)
        (launch platform parameters vus)
        (record {
          workers = refl;
          active = sym (in_flight-replicate vus);
          completed = refl;
          failed = refl;
          stop = refl;
          errors = refl;
          received_events = refl;
          body_bytes = refl;
          first_event_us = refl;
          event_gap_us = refl;
          complete_stream_us = refl;
          delivery_batches = refl;
          protocols = λ name. refl;
        })
