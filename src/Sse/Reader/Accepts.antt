-- ===== src/Sse/Reader/Accepts.antt =====
-- The body that the fixture server sends, as the load generator reads it.
pub mod Event
pub use Event.{take_event-frame}
use senix.Prelude.{
  ℕ, zero, suc, ◌+◌, ◌-◌, ◌^◌, ◌≤◌, ◌<◌, Bool, true, false, Text, text_eq_refl, List, [], ◌∷◌, ◌++◌,
  Option, none, some, ◌≡◌, refl, sym, ap, ◌∙◌, arith, length, length-append, replicate,
  append_assoc, append-nil, inl, inr, ◌==◌, Option-cases, all, ==_refl,
}
use senix.Sse.Frame.{
  byte_length, token, payload, padding_of, id_line, data_line, event_text, frame, utf8, body_text,
}
use senix.Sse.Frame.Laws.{length-utf8, byte_length-payload-padding_of}
use senix.Sse.Reader.{
  Platform, Parameters, returned, cut, Progress, initial, record_event, take_event, drain,
  take_chunk, take_chunks, one_stream, framed, checked, counted, is_within,
}
use senix.Sse.Reader.Cut.{cut_extend, cut-empty, length-cut, nothing_left}
use senix.Sse.Reader.Faithful.{decoded, state_after, joined, IsFaithful}
use senix.Sse.Reader.Frames.{
  cut-frame, split_lines-event_text, uncut_short, All-IsCharacter-body_text,
}

module _ (platform : Platform) (parameters : Parameters) (faithful : IsFaithful platform)
    (wide : 64 ≤ parameters.data_bytes) (few : parameters.events ≤ 10 ^ 16)
    (started : platform.Time) where
  -- What is still to come: the rest of the body, in the buffer and behind it.
  record Expects (p : Progress platform parameters) (rest : Text) (left : ℕ) : Type 0 where
    text : p.buffer ++ rest ≡ body_text parameters.data_bytes p.count left
    total : p.count + left ≡ parameters.events

  -- The loop over the buffer has ended with no event left in it.
  record IsDrained (p : Progress platform parameters) (rest : Text) (bytes : ℕ) : Type 0 where
    left : ℕ
    expects : Expects p rest left
    uncut : cut p.buffer ≡ none
    same_bytes : p.bytes ≡ bytes

  -- The first event in the buffer is the next frame's, and what is behind it are the later frames.
  next_event :
      (p : Progress platform parameters) (event r rest : Text) (left : ℕ)
      → cut p.buffer ≡ some (event, r)
      → Expects p rest (suc left)
      → (event ≡ event_text parameters.data_bytes p.count)
        × (r ++ rest ≡ body_text parameters.data_bytes (p.count + 1) left)
  next_event p event r rest left found e =
      let tail = body_text parameters.data_bytes (p.count + 1) left in
      let whole : p.buffer ++ rest ≡ frame parameters.data_bytes p.count ++ tail =
        unfold body_text in e.text in
      let same : ◌≡◌ {A = Option (Text × Text)} (some (event, r ++ rest))
          (some (event_text parameters.data_bytes p.count, tail)) =
        sym (cut_extend p.buffer rest event r found)
        ∙ ap cut whole
        ∙ cut-frame parameters.data_bytes p.count tail in
      (ground arith, ground arith)

  drain-uncut :
      (fuel : ℕ) (p : Progress platform parameters) (delivered : Bool)
      → cut p.buffer ≡ none
      → drain platform parameters fuel started p delivered ≡ returned (p, delivered)
  unfolding drain
  drain-uncut zero p delivered h = refl
  drain-uncut (suc fuel) p delivered h = rw (drain, h) refl

  drain-cut :
      (fuel : ℕ) (p q : Progress platform parameters) (delivered : Bool) {event r : Text}
      → cut p.buffer ≡ some (event, r)
      → take_event platform parameters started (record p { buffer = r }) event ≡ returned q
      → drain platform parameters (suc fuel) started p delivered
        ≡ drain platform parameters fuel started q true
  unfolding drain
  drain-cut fuel p q delivered h k = rw (drain, h) (rw k refl)

  stop :
      (p : Progress platform parameters) (fuel : ℕ) (delivered : Bool) (rest : Text) (left : ℕ)
      → cut p.buffer ≡ none
      → Expects p rest left
      → (q : Progress platform parameters) × (flag : Bool) × (drain platform parameters fuel started
            p delivered
          ≡ returned (q, flag))
        × IsDrained q rest p.bytes
  stop p fuel delivered rest left h e = (
    p,
    delivered,
    drain-uncut fuel p delivered h,
    record { left = left; expects = e; uncut = h; same_bytes = refl },
  )

  -- With its buffer's length as fuel the inner loop takes every event that is there, fails at none,
  -- and leaves a buffer with no event.
  drain-IsDrained :
      (fuel : ℕ) (p : Progress platform parameters) (delivered : Bool) (rest : Text) (left : ℕ)
      → length p.buffer ≤ fuel
      → Expects p rest left
      → (q : Progress platform parameters) × (flag : Bool) × (drain platform parameters fuel started
            p delivered
          ≡ returned (q, flag))
        × IsDrained q rest p.bytes
  unfolding record_event
  drain-IsDrained zero p delivered rest left short e =
      stop p zero delivered rest left (cut-empty p.buffer short) e
  drain-IsDrained (suc fuel) p delivered rest zero short e = elim (Option-cases (cut p.buffer)) [
    | inl absent ↦ stop p (suc fuel) delivered rest zero absent e
    | inr ((event, r), found) ↦
        absurd (nothing_left p.buffer rest found (unfold body_text in e.text))
  ]
  drain-IsDrained (suc fuel) p delivered rest (suc left) short e =
      elim (Option-cases (cut p.buffer)) [
        | inl absent ↦ stop p (suc fuel) delivered rest (suc left) absent e
        | inr ((event, r), found) ↦
            let (first, later) = next_event p event r rest left found e in
            let q = record_event platform parameters started (record p { buffer = r }) in
            let taken : take_event platform parameters started (record p { buffer = r }) event
                ≡ returned q =
              rw first (
                take_event-frame platform parameters faithful wide few started
                  (record p { buffer = r }) (omega (arith, e.total))) in
            let shorter : length r ≤ fuel = omega (arith, length-cut p.buffer found) in
            let q_expects : Expects q rest left = record {
              text = later;
              total = omega (arith, e.total);
            } in
            let (done, flag, run, drained) =
              drain-IsDrained fuel q true rest left shorter q_expects in
            (done, flag, drain-cut fuel p q delivered found taken ∙ run, drained)
      ]

  counted-IsDrained :
      (flag : Bool) (q : Progress platform parameters) (rest : Text) (bytes : ℕ)
      → IsDrained q rest bytes
      → IsDrained (counted platform parameters flag q) rest bytes
  counted-IsDrained true q rest bytes h = record {
    left = h.left;
    expects = record { text = h.expects.text; total = h.expects.total };
    uncut = h.uncut;
    same_bytes = h.same_bytes;
  }
  counted-IsDrained false q rest bytes h = h

  IsDrained-is_within :
      (q : Progress platform parameters) (rest : Text) (bytes : ℕ)
      → IsDrained q rest bytes
      → is_within platform parameters q ≡ true
  IsDrained-is_within q rest bytes h =
      let short =
        uncut_short parameters.data_bytes q.count h.left q.buffer rest wide
          (omega (arith, h.expects.total)) h.uncut h.expects.text in
      ground (arith, short, h.expects.total)

  take_chunk-drain :
      (p q : Progress platform parameters) (s : platform.decoder.State) (chunk : List ℕ)
      (flag : Bool)
      → drain platform parameters
          (length (p.buffer ++ (platform.decoder.write s chunk).0))
          started
          (record p {
            bytes = p.bytes + length chunk;
            buffer = p.buffer ++ (platform.decoder.write s chunk).0;
          })
          false
        ≡ returned (q, flag)
      → is_within platform parameters (counted platform parameters flag q) ≡ true
      → take_chunk platform parameters started p s chunk
        ≡ returned (counted platform parameters flag q, (platform.decoder.write s chunk).1)
  unfolding take_chunk
  take_chunk-drain p q s chunk flag run within = rw run (rw within refl)

  -- A chunk is taken, and leaves no event in the buffer.
  take_chunk-IsDrained :
      (p : Progress platform parameters) (s : platform.decoder.State) (chunk : List ℕ) (rest : Text)
      (left : ℕ)
      → Expects p ((platform.decoder.write s chunk).0 ++ rest) left
      → (q : Progress platform parameters) × (take_chunk platform parameters started p s chunk
          ≡ returned (q, (platform.decoder.write s chunk).1))
        × IsDrained q rest (p.bytes + length chunk)
  take_chunk-IsDrained p s chunk rest left e =
      let text = (platform.decoder.write s chunk).0 in
      let filled = record p { bytes = p.bytes + length chunk; buffer = p.buffer ++ text } in
      let expected : Expects filled rest left = record {
        text = append_assoc p.buffer text rest ∙ e.text;
        total = e.total;
      } in
      let (q, flag, run, drained) =
        drain-IsDrained (length filled.buffer) filled false rest left (omega arith) expected in
      let batch = counted-IsDrained flag q rest (p.bytes + length chunk) drained in
      let within = IsDrained-is_within _ rest (p.bytes + length chunk) batch in
      (counted platform parameters flag q, take_chunk-drain p q s chunk flag run within, batch)

  -- Where nothing more comes, a buffer with no event in it is empty.
  uncut-empty :
      (p : Progress platform parameters) (left : ℕ)
      → cut p.buffer ≡ none
      → Expects p [] left
      → (p.buffer ≡ []) × (p.count ≡ parameters.events)
  unfolding body_text
  uncut-empty p zero h e = (sym (append-nil p.buffer) ∙ e.text, omega (arith, e.total))
  uncut-empty p (suc left) h e =
      let tail = body_text parameters.data_bytes (p.count + 1) left in
      let found =
        ap cut (sym (append-nil p.buffer) ∙ e.text)
        ∙ cut-frame parameters.data_bytes p.count tail in
      absurd (ground arith)

  take_chunks_complete :
      (p : Progress platform parameters) (s : platform.decoder.State) (chunks : List (List ℕ))
      (bytes : ℕ)
      → IsDrained p (decoded platform.decoder s chunks) bytes
      → platform.decoder.end (state_after platform.decoder s chunks) ≡ []
      → (q : Progress platform parameters) × (take_chunks platform parameters started p s chunks
          ≡ returned q)
        × (q.buffer ≡ [])
        × (q.count ≡ parameters.events)
        × (q.bytes ≡ bytes + length (joined chunks))
  unfolding take_chunks decoded state_after
  take_chunks_complete p s [] bytes h ended =
      let (empty, all_counted) = uncut-empty p h.left h.uncut h.expects in
      (
        record p { buffer = p.buffer ++ platform.decoder.end s },
        refl,
        rw (empty, ended) refl,
        all_counted,
        omega (arith, h.same_bytes),
      )
  take_chunks_complete p s (chunk ∷ chunks) bytes h ended =
      let s' = (platform.decoder.write s chunk).1 in
      let rest = decoded platform.decoder s' chunks in
      let (q, run, drained) = take_chunk-IsDrained p s chunk rest h.left h.expects in
      let (done, more, empty, all_counted, size) =
        take_chunks_complete q s' chunks (p.bytes + length chunk) drained ended in
      (
        done,
        rw run more,
        empty,
        all_counted,
        omega (arith, size, h.same_bytes, length-append chunk (joined chunks)),
      )

-- Given a faithful platform, the reader accepts the body of the fixture server with the same
-- parameters, cut into chunks in any way: it counts every event and every byte.
pub one_stream_accepts :
    (platform : Platform) (parameters : Parameters) (started : platform.Time)
    (chunks : List (List ℕ))
    → IsFaithful platform
    → 64 ≤ parameters.data_bytes
    → parameters.events ≤ 10 ^ 16
    → joined chunks ≡ utf8 (body_text parameters.data_bytes 0 parameters.events)
    → (p : Progress platform parameters) × (one_stream platform parameters started 200
          "text/event-stream" chunks
        ≡ returned p)
      × (p.count ≡ parameters.events)
      × (p.bytes ≡ byte_length (body_text parameters.data_bytes 0 parameters.events))
unfolding one_stream cut
one_stream_accepts platform parameters started chunks faithful wide few same =
    let body = body_text parameters.data_bytes 0 parameters.events in
    let characters = All-IsCharacter-body_text parameters.data_bytes 0 parameters.events in
    let read = faithful.decodes body chunks characters same in
    let ended = faithful.ends body chunks characters same in
    let (p, run, empty, all_counted, size) =
      take_chunks_complete platform parameters faithful wide few started
        (initial platform parameters) platform.decoder.start chunks 0
        (record {
          left = parameters.events;
          expects = record { text = read; total = omega arith };
          uncut = refl;
          same_bytes = refl;
        })
        ended in
    (
      p,
      rw run (rw (empty, all_counted, ==_refl parameters.events) refl),
      all_counted,
      omega (arith, size, ap length same, length-utf8 body characters),
    )
