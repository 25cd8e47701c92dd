-- ===== src/Sse/Backend/Laws.antt =====
-- The statistics against the open responses, and what each response holds.
use senix.Prelude.{
  get_elem?, remove, length-replace, length-remove, All-at, All-replace, All-remove, ℕ, zero, suc,
  ◌+◌, ◌≤◌, Bool, true, false, Text, List, [], ◌∷◌, ◌++◌, ◌≡◌, refl, sym, ap, ◌∙◌, arith, All,
  All-append, length, length-append, ltb, append_assoc, append-nil, Bool-cases, Option-cases, inl,
  inr, if◌then◌else◌, ◌==◌, ◌&&◌, ==_iff,
}
use senix.Sse.Frame.{frame, body_text}
use senix.Sse.Backend.{
  Phase, ready, blocked, pausing, ended, Response, Server, Event, connect, turn, close, read_stats,
  clear_stats, stray, is_ended, after_frame, go_on, close_stream, handle, serve, idle_server,
}

body_text-suc :
    (data_bytes seq n : ℕ)
    → body_text data_bytes seq (suc n) ≡ body_text data_bytes seq n ++ frame data_bytes (seq + n)
unfolding body_text
body_text-suc data_bytes seq zero =
    append-nil (frame data_bytes seq) ∙ ap (frame data_bytes) (omega arith)
body_text-suc data_bytes seq (suc n) =
    let later = body_text-suc data_bytes (seq + 1) n in
    let same : seq + 1 + n ≡ seq + suc n = omega arith in
    ap (λ (t : Text). frame data_bytes seq ++ t)
      (later ∙ ap (λ (k : ℕ). body_text data_bytes (seq + 1) n ++ frame data_bytes k) same)
    ∙ sym (
        append_assoc (frame data_bytes seq) (body_text data_bytes (seq + 1) n)
          (frame data_bytes (seq + suc n)))

-- All frames are written where the loop is over.
abbrev pub IsFull : ℕ → Phase → ℕ → Type 0
IsFull events ended written = written ≡ events
IsFull events _ written = Unit

after_frame-IsFull : (events n : ℕ) → IsFull events (after_frame events n) n
after_frame-IsFull events n = elim (Bool-cases (ltb n events)) [
  | inl more_left ↦ rw more_left tt
  | inr done ↦ rw done tt
]

module _ (events data_bytes : ℕ) where
  -- A response holds the first frames in order, and has ended only with all of them.
  pub record IsSending (r : Response) : Type 0 where
    pub first_frames : r.sent ≡ body_text data_bytes 0 r.written
    pub bounded : r.written ≤ events
    pub full : IsFull events r.phase r.written

  -- The counters tell of the open responses.
  pub record IsCounted (s : Server) : Type 0 where
    pub current : s.stats.active ≡ length s.responses
    pub total : s.stats.started ≡ s.stats.active + s.stats.completed + s.stats.aborted
    pub peak : s.stats.active ≤ s.stats.peak_active
    pub peak_started : s.stats.peak_active ≤ s.stats.started
    pub sending : All IsSending s.responses

  next_frame :
      (t : Text) (n : ℕ)
      → t ≡ body_text data_bytes 0 n
      → t ++ frame data_bytes n ≡ body_text data_bytes 0 (n + 1)
  next_frame t n e =
      let same : suc n ≡ n + 1 = omega arith in
      let first : n ≡ 0 + n = omega arith in
      ap (λ (u : Text). u ++ frame data_bytes n) e
      ∙ ap (λ (k : ℕ). body_text data_bytes 0 n ++ frame data_bytes k) first
      ∙ sym (body_text-suc data_bytes 0 n)
      ∙ ap (body_text data_bytes 0) same

  go_on-IsSending :
      (accepted : Bool) (sent : Text) (written : ℕ) (phase : Phase)
      → IsSending (record { sent = sent; written = written; phase = phase })
      → IsSending (
          go_on events data_bytes accepted
            (record { sent = sent; written = written; phase = phase }))
  unfolding go_on
  go_on-IsSending accepted t n blocked h = record {
    first_frames = h.first_frames;
    bounded = h.bounded;
    full = after_frame-IsFull events n;
  }
  go_on-IsSending accepted t n pausing h = record {
    first_frames = h.first_frames;
    bounded = h.bounded;
    full = tt;
  }
  go_on-IsSending accepted t n ended h = h
  go_on-IsSending accepted t n ready h = elim (Bool-cases (ltb n events)) [
    | inr all_sent ↦ rw all_sent (record {
      first_frames = h.first_frames;
      bounded = h.bounded;
      full = ground (arith, h.bounded);
    })
    | inl some_left ↦
        let longer = next_frame t n h.first_frames in
        let le : n + 1 ≤ events = ground arith in
        rw some_left
          (elim accepted
            as (λ flag. IsSending (record {
              sent = t ++ frame data_bytes n;
              written = n + 1;
              phase = if flag then after_frame events (n + 1) else blocked;
            })) [
              | true ↦ record {
                first_frames = longer;
                bounded = le;
                full = after_frame-IsFull events (n + 1);
              }
              | false ↦ record { first_frames = longer; bounded = le; full = tt }
            ])
  ]

  close_stream-IsCounted :
      (k : ℕ) (finished : Bool) (s : Server)
      → length (remove k s.responses) + 1 ≡ length s.responses
      → IsCounted s
      → IsCounted
          (record { stats = close_stream finished s.stats; responses = remove k s.responses })
  close_stream-IsCounted k true s fewer h = record {
    current = omega (arith, h.current);
    total = omega (arith, h.total, h.current);
    peak = omega (arith, h.peak);
    peak_started = h.peak_started;
    sending = All-remove IsSending k s.responses h.sending;
  }
  close_stream-IsCounted k false s fewer h = record {
    current = omega (arith, h.current);
    total = omega (arith, h.total, h.current);
    peak = omega (arith, h.peak);
    peak_started = h.peak_started;
    sending = All-remove IsSending k s.responses h.sending;
  }

  handle-IsCounted :
      (s : Server) (e : Event) → IsCounted s → IsCounted (handle events data_bytes s e).0
  unfolding handle
  handle-IsCounted s connect h =
      let longer =
        length-append s.responses (record { sent = []; written = 0; phase = ready } ∷ []) in
      record {
        current = omega (arith, h.current, longer);
        total = omega (arith, h.total);
        peak = omega arith;
        peak_started = omega (arith, h.peak_started, h.peak, h.total);
        sending = All-append IsSending s.responses _ h.sending (
          record { first_frames = unfold body_text in refl; bounded = omega arith; full = tt },
          tt,
        );
      }
  handle-IsCounted s (turn k accepted) h = elim (Option-cases (get_elem? s.responses k)) [
    | inl absent ↦ rw absent h
    | inr (r, found) ↦
        let same = length-replace k (go_on events data_bytes accepted r) s.responses in
        rw found (record {
          current = omega (arith, h.current, same);
          total = h.total;
          peak = h.peak;
          peak_started = h.peak_started;
          sending =
              All-replace IsSending k _ s.responses
                (go_on-IsSending accepted r.sent r.written r.phase
                  (All-at IsSending k s.responses h.sending found))
                h.sending;
        })
  ]
  handle-IsCounted s (close k flushed) h = elim (Option-cases (get_elem? s.responses k)) [
    | inl absent ↦ rw absent h
    | inr (r, found) ↦ rw found (
        close_stream-IsCounted k (is_ended r.phase && flushed) s (length-remove k s.responses found)
          h)
  ]
  handle-IsCounted s read_stats h = h
  handle-IsCounted s clear_stats h = elim (Bool-cases (s.stats.active == 0)) [
    | inl none_active ↦ rw none_active (record {
      current = omega (arith, h.current, (==_iff s.stats.active 0).0 none_active);
      total = refl;
      peak = omega arith;
      peak_started = omega arith;
      sending = h.sending;
    })
    | inr active ↦ rw active h
  ]
  handle-IsCounted s stray h = h

  serve-IsCounted :
      (s : Server) (later : List Event) → IsCounted s → IsCounted (serve events data_bytes s later)
  unfolding serve
  serve-IsCounted s [] h = h
  serve-IsCounted s (e ∷ later) h =
      serve-IsCounted (handle events data_bytes s e).0 later (handle-IsCounted s e h)

  -- Whatever requests come, however the writes are taken and the responses closed: the active
  -- streams are the open responses, every stream that was started is active, completed or aborted,
  -- the peak lies between the active and the started streams, and each open response holds the
  -- first frames in order, all of them once it has ended.
  pub serve-idle_server-IsCounted :
      (later : List Event) → IsCounted (serve events data_bytes idle_server later)
  serve-idle_server-IsCounted later = serve-IsCounted idle_server later (record {
    current = refl;
    total = refl;
    peak = omega arith;
    peak_started = omega arith;
    sending = tt;
  })
