-- ===== src/Sse/Backend.antt =====
-- benchmarks/sse-backend.mjs, the request handler: the statistics, and the loop that writes the
-- frames of a response, cut at its `await`s.
pub mod Laws
use senix.Prelude.{
  ℕ, zero, suc, ◌+◌, ◌-◌, Bool, true, false, Text, List, [], ◌∷◌, ◌++◌, Option, none, some, ltb,
  max, ◌==◌, ◌&&◌, if◌then◌else◌, get_elem?, replace, remove,
}
use senix.Sse.Frame.{frame}

pub record Stats : Type 0 where
  pub active : ℕ
  pub peak_active : ℕ
  pub started : ℕ
  pub completed : ℕ
  pub aborted : ℕ
  pub backpressure_waits : ℕ

abbrev pub no_stats : Stats
no_stats = record {
  active = 0;
  peak_active = 0;
  started = 0;
  completed = 0;
  aborted = 0;
  backpressure_waits = 0;
}

-- Where the loop stands: at its top, waiting for the response to drain or to close, in the pause
-- between two frames, or behind `response.end()`.
pub data Phase : Type 0 where
  ready blocked pausing ended : Phase

-- A response that is not closed, with the text and the number of the frames written to it.
pub record Response : Type 0 where
  pub sent : Text
  pub written : ℕ
  pub phase : Phase

pub record Server : Type 0 where
  pub stats : Stats
  pub responses : List Response

pub data Event : Type 0 where
  connect : Event  -- a request of /events
  turn : (k : ℕ) → (accepted : Bool) → Event  -- the loop of a response goes on
  close : (k : ℕ) → (flushed : Bool) → Event  -- the response is closed
  read_stats clear_stats : Event  -- a request of /stats, by GET or by POST
  stray : Event  -- any other request

pub data Reply : Type 0 where
  silent conflict not_found : Reply
  statistics : Stats → Reply

abbrev pub is_ended : Phase → Bool
is_ended ended = true
is_ended _ = false

-- `if (i + 1 < frames.length) await delay(interval)`
abbrev pub after_frame : ℕ → ℕ → Phase
after_frame events written = if ltb written events then pausing else ready

-- How many waits the round adds.
abbrev pub waits : ℕ → Bool → Response → ℕ
waits events accepted r = elim r.phase [
  | ready ↦ if ltb r.written events then (if accepted then 0 else 1) else 0
  | _ ↦ 0
]

abbrev pub open_stream : Stats → Stats
open_stream s = record s {
  started = s.started + 1;
  active = s.active + 1;
  peak_active = max s.peak_active (s.active + 1);
}

-- `writableFinished` needs the end of the response, and that everything is flushed.
abbrev pub close_stream : Bool → Stats → Stats
close_stream true s = record s { active = s.active - 1; completed = s.completed + 1 }
close_stream false s = record s { active = s.active - 1; aborted = s.aborted + 1 }

module _ (events data_bytes : ℕ) where
  -- A round of the loop up to the next `await`, on whether `response.write` gives true.
  unfoldable pub go_on : Bool → Response → Response
  go_on accepted r = elim r.phase [
    | ready ↦
        if ltb r.written events
        then record {
          sent = r.sent ++ frame data_bytes r.written;
          written = r.written + 1;
          phase = if accepted then after_frame events (r.written + 1) else blocked;
        }
        else record r { phase = ended }
    | blocked ↦ record r { phase = after_frame events r.written }
    | pausing ↦ record r { phase = ready }
    | ended ↦ r
  ]

  abbrev pub turn_of : ℕ → Bool → Option Response → Server → Server
  turn_of k accepted none s = s
  turn_of k accepted (some r) s = record {
    stats = record s.stats {
      backpressure_waits = s.stats.backpressure_waits + waits events accepted r;
    };
    responses = replace k (go_on accepted r) s.responses;
  }

  abbrev pub close_of : ℕ → Bool → Option Response → Server → Server
  close_of k flushed none s = s
  close_of k flushed (some r) s = record {
    stats = close_stream (is_ended r.phase && flushed) s.stats;
    responses = remove k s.responses;
  }

  unfoldable pub handle : Server → Event → Server × Reply
  unfolding go_on
  handle s connect = (
    record {
      stats = open_stream s.stats;
      responses = s.responses ++ record { sent = []; written = 0; phase = ready } ∷ [];
    },
    silent,
  )
  handle s (turn k accepted) = (turn_of k accepted (get_elem? s.responses k) s, silent)
  handle s (close k flushed) = (close_of k flushed (get_elem? s.responses k) s, silent)
  handle s read_stats = (s, statistics s.stats)
  handle s clear_stats =
      if s.stats.active == 0
      then (record s { stats = no_stats }, statistics no_stats)
      else (s, conflict)
  handle s stray = (s, not_found)

  unfoldable pub serve : Server → List Event → Server
  unfolding handle
  serve s [] = s
  serve s (e ∷ later) = serve (handle s e).0 later

abbrev pub idle_server : Server
idle_server = record { stats = no_stats; responses = [] }
