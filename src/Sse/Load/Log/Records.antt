-- ===== src/Sse/Load/Log/Records.antt =====
-- What recording a stream, good or bad, does to the report.
use senix.Prelude.{
  ℕ, String, List, [], ◌∷◌, ◌++◌, append-nil, some, ltb, length, get_elem?, replace, take,
  if◌then◌else◌, ◌≡◌, refl, sym, ap, ◌∙◌, arith,
}
use senix.Sse.Reader.{Platform, Parameters, Progress}
use senix.Sse.Load.{waiting, streaming, Error, Load, record_stream, record_error, release}
use senix.Sse.Load.Flight.{in_flight-replace}
use senix.Sse.Load.Log.{
  collect, Finished, good, bad, Log, is_bad, is_good, error_of, count_of, bytes_of, first_of,
  gaps_of, times_of, batches_of, has_protocol, IsReportOf,
}
use senix.Sse.Load.Log.Snoc.{collect-snoc, total-snoc, take-snoc, counted-tally}

module _ (platform : Platform) (parameters : Parameters) where
  -- A failed stream in the report.
  pub record_error-IsReportOf :
      (k : ℕ) (e : Error) (l : Log platform parameters) (s : Load platform parameters)
      → get_elem? l.workers k ≡ some streaming
      → IsReportOf platform parameters l s
      → IsReportOf platform parameters
          (record { workers = replace k waiting l.workers; streams = l.streams ++ bad e ∷ [] })
          (release platform parameters k (record_error platform parameters e s))
  unfolding record_error
  record_error-IsReportOf k e l s here h =
      let x : Finished platform parameters = bad e in
      let flight = in_flight-replace k waiting l.workers here in
      let sums = total-snoc (is_bad platform parameters) l.streams x in
      record {
        workers = ap (replace k waiting) h.workers;
        active = omega (arith, h.active, flight);
        completed =
            omega (arith, h.completed, total-snoc (is_good platform parameters) l.streams x);
        failed = omega (arith, h.failed, sums);
        stop = ground (arith, sums);
        errors =
            ap (λ (es : List Error). if ltb (length es) 8 then es ++ e ∷ [] else es) h.errors
            ∙ sym (
                ap (take 8) (collect-snoc (error_of platform parameters) l.streams x)
                ∙ take-snoc 8 (collect (error_of platform parameters) l.streams) e);
        received_events =
            omega (arith, h.received_events, total-snoc (count_of platform parameters) l.streams x);
        body_bytes =
            omega (arith, h.body_bytes, total-snoc (bytes_of platform parameters) l.streams x);
        first_event_us = h.first_event_us ∙ same_list (first_of platform parameters) x refl;
        event_gap_us = h.event_gap_us ∙ same_list (gaps_of platform parameters) x refl;
        complete_stream_us = h.complete_stream_us ∙ same_list (times_of platform parameters) x refl;
        delivery_batches = h.delivery_batches ∙ same_list (batches_of platform parameters) x refl;
        protocols = λ name. omega (
          arith,
          h.protocols name,
          total-snoc (has_protocol platform parameters name) l.streams x,
        );
      }
    where
      -- A sample to which the stream adds nothing.
      same_list :
          {B : Type 0} (f : Finished platform parameters → List B)
          (x : Finished platform parameters)
          → f x ≡ []
          → collect f l.streams ≡ collect f (l.streams ++ x ∷ [])
      same_list f x none_of = sym (
          collect-snoc f l.streams x
          ∙ ap (collect f l.streams ++◌) none_of
          ∙ append-nil (collect f l.streams))

  -- A good stream in the report.
  pub record_stream-IsReportOf :
      (k : ℕ) (protocol : String) (started ended : platform.Time) (p : Progress platform parameters)
      (l : Log platform parameters) (s : Load platform parameters)
      → get_elem? l.workers k ≡ some streaming
      → IsReportOf platform parameters l s
      → IsReportOf platform parameters
          (record {
            workers = replace k waiting l.workers;
            streams = l.streams ++ good protocol (platform.micros started ended) p ∷ [];
          })
          (release platform parameters k
            (record_stream platform parameters protocol started ended p s))
  unfolding record_stream
  record_stream-IsReportOf k protocol started ended p l s here h =
      let x : Finished platform parameters = good protocol (platform.micros started ended) p in
      let flight = in_flight-replace k waiting l.workers here in
      let sums = total-snoc (is_bad platform parameters) l.streams x in
      record {
        workers = ap (replace k waiting) h.workers;
        active = omega (arith, h.active, flight);
        completed =
            omega (arith, h.completed, total-snoc (is_good platform parameters) l.streams x);
        failed = omega (arith, h.failed, sums);
        stop = ground (arith, sums, h.stop);
        errors =
            h.errors
            ∙ ap (take 8)
                (sym (collect-snoc (error_of platform parameters) l.streams x ∙ append-nil _));
        received_events =
            omega (arith, h.received_events, total-snoc (count_of platform parameters) l.streams x);
        body_bytes =
            omega (arith, h.body_bytes, total-snoc (bytes_of platform parameters) l.streams x);
        first_event_us = longer (first_of platform parameters) x h.first_event_us;
        event_gap_us = longer (gaps_of platform parameters) x h.event_gap_us;
        complete_stream_us = longer (times_of platform parameters) x h.complete_stream_us;
        delivery_batches = longer (batches_of platform parameters) x h.delivery_batches;
        protocols = λ name. omega (
          arith,
          h.protocols name,
          counted-tally name protocol s.protocols,
          total-snoc (has_protocol platform parameters name) l.streams x,
        );
      }
    where
      longer :
          {B : Type 0} {sample : List B} (f : Finished platform parameters → List B)
          (x : Finished platform parameters)
          → sample ≡ collect f l.streams
          → sample ++ f x ≡ collect f (l.streams ++ x ∷ [])
      longer f x e = ap (◌++ f x) e ∙ sym (collect-snoc f l.streams x)
