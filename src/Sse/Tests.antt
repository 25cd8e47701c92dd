-- ===== src/Sse/Tests.antt =====
-- The stream reader, run on the body of the fixture server.
use senix.Prelude.{
  length, none, some, true, false, codes, ℕ, Text, List, [], ◌∷◌, ◌≡◌, refl, drop, take, arith,
  some,
}
use senix.Decimal.{decimal, digits, read_number}
use senix.Sse.Frame.{utf8, byte_length, payload, padding_of, id_line, data_line, frame, body_text}
use senix.Sse.Reader.{
  initial, Parameters, Progress, returned, thrown, truncated, invalid_response, one_stream, cut,
  split_lines, record_event, take_event, drain, take_chunk, take_chunks,
}
use senix.Sse.Reader.Faithful.{joined}
use senix.Sse.Reader.Drain.{drain_exhausts}
use senix.Sse.Reader.Accepts.{one_stream_accepts}
use senix.Sse.Reader.Sound.{IsComplete, one_stream_sound}
use senix.Sse.Backend
use senix.Sse.Backend.Laws.{IsCounted, serve-idle_server-IsCounted}
use senix.Sse.Load
use senix.Sse.Load.Log.{IsReportOf, log_all, first_log}
use senix.Sse.Load.Log.Refines.{work_all-launch-IsReportOf}
use senix.Sse.Load.Laws.{IsTallied, work_all-launch-IsTallied}
use senix.Sse.Reference.{reference, reference-IsFaithful, feed, read_padding, read_message}

abbrev small : Parameters
small = record { events = 2; data_bytes = 64 }

abbrev body : Text
body = utf8 (body_text 64 0 2)

-- The body, cut inside the two lines and inside a character.
abbrev chunks : List (List ℕ)
chunks = take 5 body ∷ take 35 (drop 5 body) ∷ drop 40 body ∷ []

chunks-joined : joined chunks ≡ utf8 (body_text 64 0 2)
unfolding utf8 body_text frame id_line data_line payload padding_of byte_length decimal digits
chunks-joined = refl

one_stream_accepts_example :
    (p : Progress reference small) × (one_stream reference small 0 200 "text/event-stream" chunks
      ≡ returned p)
    × (p.count ≡ 2)
    × (p.bytes ≡ byte_length (body_text 64 0 2))
one_stream_accepts_example =
    one_stream_accepts reference small 0 chunks reference-IsFaithful (omega arith) (omega arith)
      chunks-joined

abbrev whole_stream : Progress reference small
whole_stream = record {
  buffer = [];
  count = 2;
  bytes = 156;
  batches = 1;
  first = some 0;
  previous = some 50000;
  gaps = 50000 ∷ [];
}

whole_run : one_stream reference small 0 200 "text/event-stream" chunks ≡ returned whole_stream
unfolding utf8 body_text frame id_line data_line payload padding_of byte_length decimal digits
    one_stream cut split_lines record_event take_event drain take_chunk take_chunks feed
    read_padding read_message read_number
whole_run = refl

one_stream_sound_example : IsComplete reference small 200 "text/event-stream" chunks whole_stream
one_stream_sound_example =
    one_stream_sound reference small 0 200 "text/event-stream" chunks whole_stream whole_run

-- An event that is cut off fails the stream.
cut_off :
    one_stream reference small 0 200 "text/event-stream" (take 150 body ∷ []) ≡ thrown truncated
unfolding utf8 body_text frame id_line data_line payload padding_of byte_length decimal digits
    one_stream cut split_lines record_event take_event drain take_chunk take_chunks feed
    read_padding read_message read_number
cut_off = refl

-- So does an answer with another status.
refused : one_stream reference small 0 503 "text/event-stream" [] ≡ thrown invalid_response
unfolding one_stream
refused = refl

-- Two responses are opened; one is written in full, the other is cut off.
abbrev requests : List Backend.Event
requests =
    Backend.connect
    ∷ Backend.connect
    ∷ Backend.turn 0 false
    ∷ Backend.turn 0 true
    ∷ Backend.turn 0 true
    ∷ Backend.turn 0 true
    ∷ Backend.turn 0 true
    ∷ Backend.clear_stats
    ∷ Backend.close 0 true
    ∷ Backend.close 0 true
    ∷ []

serve-idle_server-IsCounted_example :
    IsCounted 2 64 (Backend.serve 2 64 Backend.idle_server requests)
serve-idle_server-IsCounted_example = serve-idle_server-IsCounted 2 64 requests

counters : (Backend.serve 2 64 Backend.idle_server requests).stats ≡ record {
  active = 0;
  peak_active = 2;
  started = 2;
  completed = 1;
  aborted = 1;
  backpressure_waits = 1;
}
unfolding Backend.serve Backend.handle Backend.go_on
counters = refl

-- Three workers; one stream completes, then one is broken off.
abbrev turns : List (Load.Event reference small)
turns =
    Load.turn 0 true
    ∷ Load.turn 1 true
    ∷ Load.finish 0 (Load.responded 200 "text/event-stream" "h2" chunks 0 9)
    ∷ Load.finish 1 (Load.broken (codes "reset"))
    ∷ Load.turn 2 true
    ∷ []

work_all-launch-IsTallied_example :
    IsTallied reference small 3
      (Load.work_all reference small (Load.launch reference small 3) turns)
work_all-launch-IsTallied_example = work_all-launch-IsTallied reference small 3 turns (omega arith)

abbrev full : Progress reference small
full = record (initial reference small) { buffer = body_text 64 0 2 }

abbrev emptied : Progress reference small
emptied = record {
  buffer = [];
  count = 2;
  bytes = 0;
  batches = 0;
  first = some 0;
  previous = some 50000;
  gaps = 50000 ∷ [];
}

full_drained : drain reference small (length full.buffer) 0 full false ≡ returned (emptied, true)
unfolding utf8 body_text frame id_line data_line payload padding_of byte_length decimal digits cut
    split_lines record_event take_event drain read_padding read_message read_number
full_drained = refl

drain_exhausts_example : cut emptied.buffer ≡ none
drain_exhausts_example = drain_exhausts reference small 0 full emptied false true full_drained

work_all-launch-IsReportOf_example :
    IsReportOf reference small
      (log_all reference small (first_log reference small 3) turns)
      (Load.work_all reference small (Load.launch reference small 3) turns)
work_all-launch-IsReportOf_example = work_all-launch-IsReportOf reference small 3 turns

-- Two characters, one of them beyond U+FFFF, and a high surrogate on its own.
surrogates :
    (utf8 (233 ∷ 55357 ∷ 56832 ∷ []) ≡ 195 ∷ 169 ∷ 240 ∷ 159 ∷ 152 ∷ 128 ∷ [])
    × (byte_length (233 ∷ 55357 ∷ 56832 ∷ []) ≡ 6)
    × (byte_length (55357 ∷ []) ≡ 3)
unfolding utf8 byte_length
surrogates = (refl, refl, refl)
