-- ===== src/Sse/Reader/Sound.antt =====
-- What a stream that the load generator counts as complete has delivered, whatever the server and
-- the platform.
pub mod Event
pub use Event.{
  IsTimed, IsValidData, IsStream, none_yet, one_more, Took, take_event-Took, record_event-IsTimed,
}
use senix.Prelude.{
  ℕ, zero, suc, ◌+◌, Bool, true, false, String, str_eq, str_eq_iff, Text, text_eq, eq_of_text_eq,
  List, [], ◌∷◌, ◌++◌, Option, none, some, ◌≡◌, ◌≢◌, refl, sym, subst, ap, ◌∙◌, arith, length,
  length-append, all, append_assoc, append-nil, inl, inr, Option-cases, ◌==◌, ◌&&◌, ==_iff,
  and-true,
}
use senix.Sse.Frame.{byte_length, token}
use senix.Sse.Reader.{
  Message, Platform, Parameters, returned, event_payload, malformed_json, unexpected_size,
  invalid_response, truncated, is_complete, is_within, demand, require, cut, split_lines, framed,
  checked, Progress, record_event, take_event, drain, take_chunk, take_chunks, one_stream,
  is_number, is_text, is_padding, first_or, since, initial, counted,
}
use senix.Sse.Reader.Cut.{blank_line, cut-eq-some}
use senix.Sse.Reader.Faithful.{decoded, state_after}
use senix.Sse.Reader.Parts.{
  >>=-eq-returned, demand-eq-returned, sent_event, framed-eq-returned, number-eq_some, text-eq_some,
  padding-eq_some, demand-then, require-eq-returned,
}

module _ (platform : Platform) (parameters : Parameters) where
  -- What the local variables know of the text read so far.
  record Knows (read : Text) (p : Progress platform parameters) : Type 0 where
    taken : Text
    stream : IsStream platform parameters p.count taken
    split : taken ++ p.buffer ≡ read
    timed : IsTimed p.count p.previous p.first p.gaps

  record_event-Knows :
      (started : platform.Time) (read r event : Text) (p : Progress platform parameters)
      → Knows read p
      → p.buffer ≡ event ++ blank_line r
      → (text : Text) → event ≡ sent_event p.count text
      → IsValidData platform parameters p.count text
      → Knows read (record_event platform parameters started (record p { buffer = r }))
  record_event-Knows started read r event p k found text sent valid =
      let whole = k.taken ++ (event ++ blank_line []) in
      let timed =
        record_event-IsTimed platform parameters started (record p { buffer = r }) k.timed in
      unfold record_event in
      record {
        taken = whole;
        stream = one_more text whole k.stream valid (rw sent refl);
        split =
            append_assoc k.taken (event ++ blank_line []) r
            ∙ ap (λ (t : Text). k.taken ++ t) (append_assoc event (blank_line []) r ∙ sym found)
            ∙ k.split;
        timed = timed;
      }

  drain-Knows :
      (fuel : ℕ) (started : platform.Time) (p q : Progress platform parameters)
      (delivered flag : Bool) (read : Text)
      → Knows read p
      → drain platform parameters fuel started p delivered ≡ returned (q, flag)
      → Knows read q
  unfolding drain
  drain-Knows zero started p q delivered flag read k h =
      let same : p ≡ q = ground arith in subst (Knows read) same k
  drain-Knows (suc fuel) started p q delivered flag read k h = elim (Option-cases (cut p.buffer)) [
    | inl absent ↦
        let stopped = rw (absent, drain) at h in
        let same : p ≡ q = ground arith in subst (Knows read) same k
    | inr ((event, r), found) ↦
        let (p', taken, later) =
          >>=-eq-returned (take_event platform parameters started (record p { buffer = r }) event)
            (λ p'. drain platform parameters fuel started p' true) (rw (found, drain) at h) in
        let took =
          take_event-Took platform parameters started (record p { buffer = r }) p' event taken in
        let known =
          record_event-Knows started read r event p k (cut-eq-some p.buffer found) took.text
            took.sent took.valid in
        drain-Knows fuel started p' q true flag read (subst (Knows read) (sym took.recorded) known)
          later
  ]

  fill-Knows :
      (read text : Text) (p : Progress platform parameters) (bytes : ℕ)
      → Knows read p
      → Knows (read ++ text) (record p { bytes = bytes; buffer = p.buffer ++ text })
  fill-Knows read text p bytes k = record {
    taken = k.taken;
    stream = k.stream;
    split = sym (append_assoc k.taken p.buffer text) ∙ ap (λ (t : Text). t ++ text) k.split;
    timed = k.timed;
  }

  counted-Knows :
      (flag : Bool) (read : Text) (p : Progress platform parameters)
      → Knows read p
      → Knows read (counted platform parameters flag p)
  counted-Knows true read p k = record {
    taken = k.taken;
    stream = k.stream;
    split = k.split;
    timed = k.timed;
  }
  counted-Knows false read p k = k

  take_chunk-Knows :
      (started : platform.Time) (p q : Progress platform parameters) (s s' : platform.decoder.State)
      (chunk : List ℕ) (read : Text)
      → Knows read p
      → take_chunk platform parameters started p s chunk ≡ returned (q, s')
      → Knows (read ++ (platform.decoder.write s chunk).0) q
        × (s' ≡ (platform.decoder.write s chunk).1)
  unfolding take_chunk
  take_chunk-Knows started p q s s' chunk read k h =
      let text = (platform.decoder.write s chunk).0 in
      let filled = fill-Knows read text p (p.bytes + length chunk) k in
      let ((r, flag), drained, h') =
        >>=-eq-returned (drain platform parameters _ started _ false) _ h in
      let batch = counted platform parameters flag r in
      let next = (platform.decoder.write s chunk).1 in
      let (within, result) =
        demand-then (is_within platform parameters batch) unexpected_size (batch, next) h' in
      let known =
        counted-Knows flag (read ++ text) r
          (drain-Knows _ started _ r false flag (read ++ text) filled drained) in
      (
        subst (Knows (read ++ text))
            (ap (λ (t : Progress platform parameters × platform.decoder.State). t.0) result) known,
        sym (ap (λ (t : Progress platform parameters × platform.decoder.State). t.1) result),
      )

  take_chunks-Knows :
      (started : platform.Time) (p q : Progress platform parameters) (s : platform.decoder.State)
      (chunks : List (List ℕ)) (read : Text)
      → Knows read p
      → take_chunks platform parameters started p s chunks ≡ returned q
      → Knows
          (read
            ++ (decoded platform.decoder s chunks
                ++ platform.decoder.end (state_after platform.decoder s chunks)))
          q
  unfolding take_chunks decoded state_after
  take_chunks-Knows started p q s [] read k h =
      let filled = fill-Knows read (platform.decoder.end s) p p.bytes k in
      let same : record p { buffer = p.buffer ++ platform.decoder.end s } ≡ q = ground arith in
      subst (Knows _) same filled
  take_chunks-Knows started p q s (chunk ∷ chunks) read k h =
      let ((r, s'), taken, h') =
        >>=-eq-returned (take_chunk platform parameters started p s chunk) _ h in
      let (known, state) = take_chunk-Knows started p r s s' chunk read k taken in
      let text = (platform.decoder.write s chunk).0 in
      let next = (platform.decoder.write s chunk).1 in
      let rest = decoded platform.decoder next chunks in
      let tail = platform.decoder.end (state_after platform.decoder next chunks) in
      let run : take_chunks platform parameters started r next chunks ≡ returned q =
        subst
          (λ (t : platform.decoder.State).
            take_chunks platform parameters started r t chunks ≡ returned q)
          state h' in
      let later = take_chunks-Knows started r q next chunks (read ++ text) known run in
      let regroup : (read ++ text) ++ (rest ++ tail) ≡ read ++ ((text ++ rest) ++ tail) =
        append_assoc read text (rest ++ tail)
        ∙ ap (λ (t : Text). read ++ t) (sym (append_assoc text rest tail)) in
      subst (λ (t : Text). Knows t q) regroup later

  -- What the decoder made of the whole body.
  abbrev pub received : List (List ℕ) → Text
  received chunks =
      decoded platform.decoder platform.decoder.start chunks
      ++ platform.decoder.end (state_after platform.decoder platform.decoder.start chunks)

  -- What a stream that counts as complete has been: a good response, whose text consists of just
  -- the events asked for, in order and valid; and the times that go into the samples.
  pub record IsComplete (status : ℕ) (type : String) (chunks : List (List ℕ))
      (p : Progress platform parameters) : Type 0 where
    pub good_status : status ≡ 200
    pub event_stream : type ≡ "text/event-stream"
    pub stream : IsStream platform parameters parameters.events (received chunks)
    pub counted_all : p.count ≡ parameters.events
    pub timed : IsTimed parameters.events p.previous p.first p.gaps

-- Whatever the server sends and however it arrives, if the load generator counts the stream as
-- complete then it was a 200 response of the right type whose whole text is the events 0, 1, … up
-- to the number asked for, in order, each well framed and valid; and there is one gap between each
-- two events.
pub one_stream_sound :
    (platform : Platform) (parameters : Parameters) (started : platform.Time) (status : ℕ)
    (type : String) (chunks : List (List ℕ)) (p : Progress platform parameters)
    → one_stream platform parameters started status type chunks ≡ returned p
    → IsComplete platform parameters status type chunks p
unfolding one_stream
one_stream_sound platform parameters started status type chunks p h =
    let (u, fine, h') =
      >>=-eq-returned (demand (status == 200 && str_eq type "text/event-stream") invalid_response) _
        h in
    let (q, run, h'') =
      >>=-eq-returned
        (take_chunks platform parameters started (initial platform parameters)
          platform.decoder.start chunks)
        _ h' in
    let (complete, same) = demand-then (is_complete platform parameters q) truncated q h'' in
    let (is_200, is_stream) =
      and-true (status == 200) _ (demand-eq-returned _ invalid_response fine) in
    let (empty, counted_all) =
      and-true (text_eq q.buffer []) (q.count == parameters.events) complete in
    let start : Knows platform parameters [] (initial platform parameters) = record {
      taken = [];
      stream = none_yet;
      split = refl;
      timed = (refl, refl, refl);
    } in
    let k =
      take_chunks-Knows platform parameters started _ q platform.decoder.start chunks [] start
        run in
    let number : q.count ≡ parameters.events = (==_iff _ _).0 counted_all in
    let whole : k.taken ≡ received platform parameters chunks =
      sym (append-nil k.taken)
      ∙ ap (λ (t : Text). k.taken ++ t) (sym (eq_of_text_eq q.buffer [] empty))
      ∙ k.split in
    subst (IsComplete platform parameters status type chunks) same (record {
      good_status = (==_iff _ _).0 is_200;
      event_stream = (str_eq_iff _ _).0 is_stream;
      stream =
          subst (λ (n : ℕ). IsStream platform parameters n (received platform parameters chunks))
            number (subst (IsStream platform parameters q.count) whole k.stream);
      counted_all = number;
      timed = subst (λ (n : ℕ). IsTimed n q.previous q.first q.gaps) number k.timed;
    })
