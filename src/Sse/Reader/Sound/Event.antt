-- ===== src/Sse/Reader/Sound/Event.antt =====
-- What the load generator has checked of an event that it counts.
use senix.Prelude.{
  ℕ, ◌+◌, true, Text, List, [], ◌∷◌, ◌++◌, Option, none, some, ◌≡◌, ◌≢◌, refl, ap, ◌∙◌, arith,
  length, length-append, all, ◌==◌, ==_iff, and-true,
}
use senix.Sse.Frame.{byte_length, token}
use senix.Sse.Reader.{
  Message, Platform, Parameters, returned, event_payload, malformed_json, require, split_lines,
  framed, checked, Progress, record_event, take_event, is_number, is_text, is_padding, first_or,
  since,
}
use senix.Sse.Reader.Cut.{blank_line}
use senix.Sse.Reader.Parts.{
  >>=-eq-returned, demand-eq-returned, sent_event, framed-eq-returned, number-eq_some, text-eq_some,
  padding-eq_some, require-eq-returned,
}

-- One gap between each two events, and the time of the first event as soon as there is one.
abbrev pub IsTimed : {T : Type 0} → ℕ → Option T → Option ℕ → List ℕ → Type 0
IsTimed count none first gaps = (count ≡ 0) × (gaps ≡ []) × (first ≡ none)
IsTimed count (some _) first gaps = (length gaps + 1 ≡ count) × (first ≢ none)

module _ (platform : Platform) (parameters : Parameters) where
  -- The data of the event with number `count` is as it must be.
  pub record IsValidData (count : ℕ) (text : Text) : Type 0 where
    pub padding : Text
    pub size : byte_length text ≡ parameters.data_bytes
    pub parsed :
        platform.parse text
        ≡ some (record { seq = some count; token = some token; padding = some padding })
    pub filled : all (λ c. c == b'x') padding ≡ true

  -- A text that consists of the events 0, 1, …, count - 1 in order, each framed and valid.
  pub data IsStream : ℕ → Text → Type 0 where
    none_yet : IsStream 0 []
    one_more :
        {count : ℕ} {t : Text} (text whole : Text)
        → IsStream count t
        → IsValidData count text
        → whole ≡ t ++ (sent_event count text ++ blank_line [])
        → IsStream (count + 1) whole

  pub checked-IsValidData :
      (count : ℕ) (text : Text) (message : Message) {u : Unit {0}}
      → platform.parse text ≡ some message
      → checked platform parameters count text message ≡ returned u
      → IsValidData count text
  checked-IsValidData count text message h k =
      let (others, padded) =
        and-true _ (is_padding message.padding) (demand-eq-returned _ event_payload k) in
      let (more, worded) = and-true _ (is_text message.token token) others in
      let (size, numbered) = and-true _ (is_number message.seq count) more in
      let (padding, full, filled) = padding-eq_some message.padding padded in
      let seq = number-eq_some message.seq count numbered in
      let word = text-eq_some message.token token worded in
      record {
        padding = padding;
        size = (==_iff _ _).0 size;
        parsed = h ∙ ap some (λ i. record { seq = seq i; token = word i; padding = full i });
        filled = filled;
      }

  pub record Took (started : platform.Time) (p q : Progress platform parameters) (event : Text)
      : Type 0 where
    pub text : Text
    pub sent : event ≡ sent_event p.count text
    pub valid : IsValidData p.count text
    pub recorded : q ≡ record_event platform parameters started p

  pub take_event-Took :
      (started : platform.Time) (p q : Progress platform parameters) (event : Text)
      → take_event platform parameters started p event ≡ returned q
      → Took started p q event
  unfolding take_event
  take_event-Took started p q event h =
      let (text, is_framed, h') = >>=-eq-returned (framed p.count (split_lines [] event)) _ h in
      let (message, is_parsed, h'') =
        >>=-eq-returned (require (platform.parse text) malformed_json) _ h' in
      let (u, is_checked, recorded) =
        >>=-eq-returned (checked platform parameters p.count text message) _ h'' in
      record {
        text = text;
        sent = framed-eq-returned p.count event text is_framed;
        valid =
            checked-IsValidData p.count text message
              (require-eq-returned _ malformed_json is_parsed) is_checked;
        recorded = ground arith;
      }

  pub record_event-IsTimed :
      (started : platform.Time) (p : Progress platform parameters)
      → IsTimed p.count p.previous p.first p.gaps
      → let q = record_event platform parameters started p in
        IsTimed q.count q.previous q.first q.gaps
  unfolding record_event
  record_event-IsTimed started p h =
      go p.previous p.first p.gaps (platform.clock p.count)
        (platform.micros started (platform.clock p.count)) h
    where
      go :
          (previous : Option platform.Time) (first : Option ℕ) (gaps : List ℕ) (now : platform.Time)
          (t : ℕ)
          → IsTimed p.count previous first gaps
          → (length (since platform parameters previous now gaps) + 1 ≡ p.count + 1)
            × (first_or first t ≢ none)
      go none first gaps now t (zeroth, no_gaps, no_first) =
          (rw no_gaps (omega arith), rw no_first (λ e. cc))
      go (some before) none gaps now t (gapped, present) = absurd (present refl)
      go (some before) (some u) gaps now t (gapped, present) =
          (omega (arith, length-append gaps (platform.micros before now ∷ [])), λ e. cc)
