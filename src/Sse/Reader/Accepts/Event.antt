-- ===== src/Sse/Reader/Accepts/Event.antt =====
-- An event of the fixture server, as the load generator reads it.
use senix.Prelude.{
  ℕ, zero, suc, ◌-◌, ◌^◌, ◌≤◌, ◌<◌, true, text_eq_refl, [], ◌∷◌, some, ◌≡◌, refl, arith, replicate,
  ◌==◌, all, ==_refl,
}
use senix.Sse.Frame.{byte_length, token, payload, padding_of, id_line, data_line, event_text}
use senix.Sse.Frame.Laws.{byte_length-payload-padding_of}
use senix.Sse.Reader.{
  Platform, Parameters, returned, Progress, record_event, take_event, framed, checked,
}
use senix.Sse.Reader.Faithful.{IsFaithful}
use senix.Sse.Reader.Frames.{split_lines-event_text}

all_x : (n : ℕ) → all (λ c. c == b'x') (replicate n b'x') ≡ true
all_x zero = refl
all_x (suc n) = ground (arith, all_x n)

module _ (platform : Platform) (parameters : Parameters) (faithful : IsFaithful platform)
    (wide : 64 ≤ parameters.data_bytes) (few : parameters.events ≤ 10 ^ 16)
    (started : platform.Time) where
  framed-event :
      (seq : ℕ)
      → framed seq (id_line seq ∷ data_line parameters.data_bytes seq ∷ [])
        ≡ returned (payload seq (padding_of parameters.data_bytes seq))
  unfolding id_line data_line
  framed-event seq = simp (text_eq_refl)

  parsed :
      (seq : ℕ)
      → platform.parse (payload seq (padding_of parameters.data_bytes seq))
        ≡ some (record {
          seq = some seq;
          token = some token;
          padding = some (padding_of parameters.data_bytes seq);
        })
  unfolding padding_of
  parsed seq = faithful.parses seq (parameters.data_bytes - byte_length (payload seq []))

  checked-event :
      (seq : ℕ)
      → seq < parameters.events
      → checked platform parameters seq
          (payload seq (padding_of parameters.data_bytes seq))
          (record {
            seq = some seq;
            token = some token;
            padding = some (padding_of parameters.data_bytes seq);
          })
        ≡ returned tt
  checked-event seq lt =
      let size = (byte_length-payload-padding_of parameters.data_bytes seq wide (omega arith)).1 in
      let full = all_x (parameters.data_bytes - byte_length (payload seq [])) in
      rw (size, ==_refl parameters.data_bytes, ==_refl seq) (unfold padding_of in rw full refl)

  -- The event of the next frame passes every check.
  pub take_event-frame :
      (p : Progress platform parameters)
      → p.count < parameters.events
      → take_event platform parameters started p (event_text parameters.data_bytes p.count)
        ≡ returned (record_event platform parameters started p)
  unfolding take_event
  take_event-frame p lt =
      rw (split_lines-event_text parameters.data_bytes p.count)
        (rw (framed-event p.count) (rw (parsed p.count) (rw (checked-event p.count lt) refl)))
