-- ===== src/Sse/Delivery/Tests.antt =====
-- A response of two events, from the server's first write to the last check of the reader.
use senix.Prelude.{
  ℕ, true, false, List, [], ◌∷◌, ◌++◌, some, ◌≡◌, refl, take, drop, arith, get_elem?,
}
use senix.Decimal.{decimal, digits}
use senix.Sse.Frame.{utf8, byte_length, payload, padding_of, id_line, data_line, frame, body_text}
use senix.Sse.Reader.{Parameters, Progress, returned, one_stream}
use senix.Sse.Reader.Faithful.{joined}
use senix.Sse.Reference.{reference, reference-IsFaithful}
use senix.Sse.Backend.{Event, connect, turn, Response, ended, serve, idle_server, handle, go_on}
use senix.Sse.Delivery.{served-one_stream}

abbrev parameters : Parameters
parameters = record { events = 2; data_bytes = 64 }

abbrev requests : List Event
requests =
    connect
    ∷ connect
    ∷ turn 0 true
    ∷ turn 1 true
    ∷ turn 0 false
    ∷ turn 0 false
    ∷ turn 0 true
    ∷ turn 0 true
    ∷ turn 0 true
    ∷ []

abbrev finished : Response
finished = record { sent = frame 64 0 ++ frame 64 1; written = 2; phase = ended }

finished-served : get_elem? (serve 2 64 idle_server requests).responses 0 ≡ some finished
unfolding serve handle go_on frame
finished-served = refl

abbrev chunks : List (List ℕ)
chunks = take 70 (utf8 finished.sent) ∷ drop 70 (utf8 finished.sent) ∷ []

chunks-joined : joined chunks ≡ utf8 finished.sent
unfolding utf8 body_text frame id_line data_line payload padding_of byte_length decimal digits
chunks-joined = refl

served-one_stream_example :
    (p : Progress reference parameters) × (one_stream reference parameters 0 200 "text/event-stream"
        chunks
      ≡ returned p)
    × (p.count ≡ 2)
    × (p.bytes ≡ byte_length finished.sent)
served-one_stream_example =
    served-one_stream reference parameters 0 requests 0 finished chunks reference-IsFaithful
      (omega arith) (omega arith) finished-served refl chunks-joined
