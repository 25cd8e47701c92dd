-- ===== src/Sse/Delivery.antt =====
-- benchmarks/sse-backend.mjs and benchmarks/sse-load.mjs together: a response from the
-- server's writes to the checks of the load generator.
mod Tests
use senix.Prelude.{
  ℕ, ◌^◌, ◌≤◌, Bool, true, List, [], ◌∷◌, some, none, get_elem?, All-at, ◌≡◌, refl, sym, subst, ap,
  ◌∙◌, Text,
}
use senix.Sse.Frame.{byte_length, utf8, body_text}
use senix.Sse.Reader.{Platform, Parameters, Progress, returned, one_stream}
use senix.Sse.Reader.Faithful.{joined, IsFaithful}
use senix.Sse.Reader.Accepts.{one_stream_accepts}
use senix.Sse.Backend.{
  Phase, ready, blocked, pausing, ended, Response, Event, is_ended, serve, idle_server,
}
use senix.Sse.Backend.Laws.{IsFull, IsSending, serve-idle_server-IsCounted}

full_if_ended :
    (events : ℕ) (phase : Phase) (n : ℕ)
    → is_ended phase ≡ true
    → IsFull events phase n
    → n ≡ events
full_if_ended events ended n h k = k
full_if_ended events ready n h k = cc
full_if_ended events blocked n h k = cc
full_if_ended events pausing n h k = cc

ended-sent :
    (events data_bytes : ℕ) (r : Response)
    → is_ended r.phase ≡ true
    → IsSending events data_bytes r
    → r.sent ≡ body_text data_bytes 0 events
ended-sent events data_bytes r h k =
    k.first_frames ∙ ap (body_text data_bytes 0) (full_if_ended events r.phase r.written h k.full)

-- Given a faithful platform, at least 64 bytes of data per event and at most 10^16 events: whatever
-- other requests the server has, and however the writes are taken, the bytes of a response that the
-- server has ended, cut into chunks in any way, are accepted by the load generator with the same
-- parameters, which counts every event and every byte that was written.
pub served-one_stream :
    (platform : Platform) (parameters : Parameters) (started : platform.Time)
    (requests : List Event) (k : ℕ) (r : Response) (chunks : List (List ℕ))
    → IsFaithful platform
    → 64 ≤ parameters.data_bytes
    → parameters.events ≤ 10 ^ 16
    → get_elem? (serve parameters.events parameters.data_bytes idle_server requests).responses k
      ≡ some r
    → is_ended r.phase ≡ true
    → joined chunks ≡ utf8 r.sent
    → (p : Progress platform parameters) × (one_stream platform parameters started 200
          "text/event-stream" chunks
        ≡ returned p)
      × (p.count ≡ parameters.events)
      × (p.bytes ≡ byte_length r.sent)
served-one_stream platform parameters started requests k r chunks faithful wide few found over
      same =
    let counted = serve-idle_server-IsCounted parameters.events parameters.data_bytes requests in
    let sent =
      ended-sent parameters.events parameters.data_bytes r over
        (All-at (IsSending parameters.events parameters.data_bytes) k _ counted.sending found) in
    let (p, run, count, size) =
      one_stream_accepts platform parameters started chunks faithful wide few
        (same ∙ ap utf8 sent) in
    (p, run, count, size ∙ ap byte_length (sym sent))
