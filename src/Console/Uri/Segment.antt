-- ===== src/Console/Uri/Segment.antt =====
-- Which characters an encoded text has.
use senix.Prelude.{
  subst, ℕ, ◌/◌, ◌%◌, ◌<◌, true, Text, List, [], ◌∷◌, ◌++◌, none, some, All, All-append, ◌==◌, ◌||◌,
  ◌≡◌, refl, sym, ◌∙◌, arith, some_injective, Bool-cases, inl, inr,
}
use senix.Sse.Frame.{encode}
use senix.Sse.Reader.Faithful.{IsCharacter}
use senix.Console.Uri.{
  is_unreserved, hex_digit, percents, encode_one, encode_from, encode_uri_component,
}
use senix.Console.Uri.RoundTrip.{encode-bytes, no_surrogate}

abbrev pub IsPlain : ℕ → Type 0
IsPlain c = (is_unreserved c || c == b'%') ≡ true

hex_digit-IsPlain : (d : ℕ) → d < 16 → IsPlain (hex_digit d)
hex_digit-IsPlain d h = ground arith

percents-IsPlain : (bytes : List ℕ) → All (λ (b : ℕ). b < 256) bytes → All IsPlain (percents bytes)
unfolding percents
percents-IsPlain [] h = tt
percents-IsPlain (b ∷ bytes) (small, h) = (
  refl,
  (
    hex_digit-IsPlain (b / 16) (omega arith),
    (hex_digit-IsPlain (b % 16) (omega arith), percents-IsPlain bytes h),
  ),
)

encode_one-IsPlain : (c : ℕ) → IsCharacter c → All IsPlain (encode_one c)
encode_one-IsPlain c h = elim (Bool-cases (is_unreserved c)) [
  | inl plain ↦ rw plain (ground arith, tt)
  | inr other ↦ rw other (percents-IsPlain (encode c) (encode-bytes c h))
]

encode_from-IsPlain :
    (s : Text) → All IsCharacter s → (t : Text) × (encode_from none s ≡ some t) × All IsPlain t
unfolding encode_from
encode_from-IsPlain [] h = ([], refl, tt)
encode_from-IsPlain (c ∷ s) (small, h) =
    let (t, run, plain) = encode_from-IsPlain s h in
    let (no_high, no_low) = no_surrogate c small in
    (
      encode_one c ++ t,
      rw (no_high, no_low, run) refl,
      All-append IsPlain (encode_one c) t (encode_one-IsPlain c small) plain,
    )

-- An encoded text has only unreserved characters and percent signs.
pub encode_uri_component-IsPlain :
    (s t : Text) → All IsCharacter s → encode_uri_component s ≡ some t → All IsPlain t
unfolding encode_uri_component
encode_uri_component-IsPlain s t h e =
    let (u, run, plain) = encode_from-IsPlain s h in
    subst (All IsPlain) (some_injective (sym run ∙ e)) plain
