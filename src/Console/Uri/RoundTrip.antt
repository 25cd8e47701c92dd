-- ===== src/Console/Uri/RoundTrip.antt =====
-- The decoding of an encoded text.
use senix.Prelude.{
  ℕ, ◌+◌, ◌-◌, ◌*◌, ◌/◌, ◌%◌, ◌<◌, true, false, Text, List, [], ◌∷◌, ◌++◌, none, some, All, ltb,
  ◌==◌, if◌then◌else◌, ◌≡◌, refl, sym, ap, ◌∙◌, arith, some_injective, Bool-cases, inl, inr,
}
use senix.Sse.Frame.{encode, utf8}
use senix.Sse.Frame.Laws.{utf8-cons}
use senix.Sse.Reference.{feed, feed-utf8}
use senix.Sse.Reader.Faithful.{IsCharacter}
use senix.Console.Uri.{
  is_unreserved, hex_digit, percent, percents, is_high, is_low, encode_one, encode_from,
  encode_uri_component,
}

abbrev pub hex_value : ℕ → ℕ
hex_value c = if ltb c b'A' then c - b'0' else (c - b'A') + 10

-- The bytes that a text stands for.
unfoldable pub unescape : Text → List ℕ
unescape [] = []
unescape (c ∷ []) = c ∷ []
unescape (c ∷ d ∷ []) = c ∷ d ∷ []
unescape (c ∷ d ∷ e ∷ s) =
    let escaped = (hex_value d * 16 + hex_value e) ∷ unescape s in
    let plain = c ∷ unescape (d ∷ e ∷ s) in if c == b'%' then escaped else plain

hex : (d : ℕ) → d < 16 → hex_value (hex_digit d) ≡ d
hex d h = ground arith

unescape-percent :
    (byte : ℕ) (s : Text) → byte < 256 → unescape (percent byte ++ s) ≡ byte ∷ unescape s
unfolding unescape
unescape-percent byte s h =
    let high = hex (byte / 16) (omega arith) in
    let low = hex (byte % 16) (omega arith) in
    ap (λ (b : ℕ). b ∷ unescape s) (omega (arith, high, low))

unescape-plain : (c : ℕ) (s : Text) → is_unreserved c ≡ true → unescape (c ∷ s) ≡ c ∷ unescape s
unfolding unescape
unescape-plain c [] h = refl
unescape-plain c (d ∷ []) h = refl
unescape-plain c (d ∷ e ∷ s) h = ground arith

unescape-percents :
    (bytes : List ℕ) (s : Text)
    → All (λ (b : ℕ). b < 256) bytes
    → unescape (percents bytes ++ s) ≡ bytes ++ unescape s
unfolding percents
unescape-percents [] s h = refl
unescape-percents (b ∷ bytes) s (small, h) =
    unescape-percent b (percents bytes ++ s) small ∙ ap (b ∷◌) (unescape-percents bytes s h)

pub encode-bytes : (c : ℕ) → IsCharacter c → All (λ (b : ℕ). b < 256) (encode c)
encode-bytes c h = elim (Bool-cases (ltb c 128)) [
  | inl one ↦ rw one (ground arith, tt)
  | inr more ↦ elim (Bool-cases (ltb c 2048)) [
    | inl two ↦ rw (more, two) (ground arith, (ground arith, tt))
    | inr three ↦ rw (more, three) (ground arith, (ground arith, (ground arith, tt)))
  ]
]

encode-ascii : (c : ℕ) → is_unreserved c ≡ true → encode c ≡ c ∷ []
encode-ascii c h = ground arith

unescape-encode_one :
    (c : ℕ) (s : Text) → IsCharacter c → unescape (encode_one c ++ s) ≡ encode c ++ unescape s
unescape-encode_one c s h = elim (Bool-cases (is_unreserved c)) [
  | inl plain ↦ rw (plain, encode-ascii c plain) (unescape-plain c s plain)
  | inr other ↦ rw other (unescape-percents (encode c) s (encode-bytes c h))
]

pub no_surrogate : (c : ℕ) → IsCharacter c → (is_high c ≡ false) × (is_low c ≡ false)
no_surrogate c h = (ground arith, ground arith)

encode_from-unescape :
    (s : Text)
    → All IsCharacter s
    → (t : Text) × (encode_from none s ≡ some t) × (unescape t ≡ utf8 s)
unfolding encode_from
encode_from-unescape [] h = ([], refl, unfold unescape utf8 in refl)
encode_from-unescape (c ∷ s) (small, h) =
    let (t, run, back) = encode_from-unescape s h in
    let (no_high, no_low) = no_surrogate c small in
    (
      encode_one c ++ t,
      rw (no_high, no_low, run) refl,
      unescape-encode_one c t small
          ∙ ap (λ (bytes : List ℕ). encode c ++ bytes) back
          ∙ sym (utf8-cons c s small),
    )

-- A text of characters, none of them a surrogate, is always encoded, and gives itself back: its
-- escapes give bytes, and the bytes are its UTF-8.
pub encode_uri_component-decodes :
    (s : Text)
    → All IsCharacter s
    → (t : Text) × (encode_uri_component s ≡ some t) × (feed [] (unescape t) ≡ (s, []))
unfolding encode_uri_component
encode_uri_component-decodes s h =
    let (t, run, back) = encode_from-unescape s h in (t, run, ap (feed []) back ∙ feed-utf8 s h)

-- Different ids are encoded differently.
pub encode_uri_component_injective :
    (s r t : Text)
    → All IsCharacter s
    → All IsCharacter r
    → encode_uri_component s ≡ some t
    → encode_uri_component r ≡ some t
    → s ≡ r
encode_uri_component_injective s r t h k e f =
    let (u, run, back) = encode_uri_component-decodes s h in
    let (w, run2, back2) = encode_uri_component-decodes r k in
    let same : u ≡ t = some_injective (sym run ∙ e) in
    let same2 : w ≡ t = some_injective (sym run2 ∙ f) in
    ap (λ (r : Text × List ℕ). r.0)
      (sym back ∙ ap (λ (x : Text). feed [] (unescape x)) (same ∙ sym same2) ∙ back2)
