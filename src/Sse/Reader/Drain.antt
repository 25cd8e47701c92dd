-- ===== src/Sse/Reader/Drain.antt =====
-- The fuel of the inner loop.
use senix.Prelude.{
  ℕ, zero, suc, ◌≤◌, Bool, true, Text, [], none, ◌≡◌, sym, ap, subst, arith, length, Option-cases,
  inl, inr,
}
use senix.Sse.Reader.{
  Platform, Parameters, returned, cut, split_lines, framed, checked, require, malformed_json,
  Progress, record_event, take_event, drain,
}
use senix.Sse.Reader.Cut.{length-cut, cut-empty}
use senix.Sse.Reader.Parts.{>>=-eq-returned, returned_injective}

module _ (platform : Platform) (parameters : Parameters) (started : platform.Time) where
  -- Taking an event leaves the buffer as it is.
  take_event-buffer :
      (p q : Progress platform parameters) (event : Text)
      → take_event platform parameters started p event ≡ returned q
      → q.buffer ≡ p.buffer
  unfolding take_event record_event
  take_event-buffer p q event e =
      let (text, _, e') = >>=-eq-returned (framed p.count (split_lines [] event)) _ e in
      let (message, _, e'') = >>=-eq-returned (require (platform.parse text) malformed_json) _ e' in
      let (_, _, last) = >>=-eq-returned (checked platform parameters p.count text message) _ e'' in
      ap (λ (r : Progress platform parameters). r.buffer) (sym (returned_injective last))

  drain_within :
      (fuel : ℕ) (p q : Progress platform parameters) (delivered flag : Bool)
      → length p.buffer ≤ fuel
      → drain platform parameters fuel started p delivered ≡ returned (q, flag)
      → cut q.buffer ≡ none
  unfolding drain
  drain_within zero p q delivered flag short e =
      subst (λ (r : Progress platform parameters × Bool). cut r.0.buffer ≡ none)
        (returned_injective e) (cut-empty p.buffer short)
  drain_within (suc fuel) p q delivered flag short e = elim (Option-cases (cut p.buffer)) [
    | inl absent ↦
        subst (λ (r : Progress platform parameters × Bool). cut r.0.buffer ≡ none)
          (returned_injective (rw (drain, absent) at e)) absent
    | inr ((event, rest), found) ↦
        let (next, taken, e') = >>=-eq-returned _ _ (rw (drain, found) at e) in
        let same = take_event-buffer (record p { buffer = rest }) next event taken in
        let shorter : length next.buffer ≤ fuel =
          rw same (omega (arith, length-cut p.buffer found)) in
        drain_within fuel next q true flag shorter e'
  ]

  -- The length of the buffer is fuel enough: wherever the inner loop ends without a failure, no
  -- complete event is left in the buffer.
  pub drain_exhausts :
      (p q : Progress platform parameters) (delivered flag : Bool)
      → drain platform parameters (length p.buffer) started p delivered ≡ returned (q, flag)
      → cut q.buffer ≡ none
  drain_exhausts p q delivered flag e =
      drain_within (length p.buffer) p q delivered flag (omega arith) e
