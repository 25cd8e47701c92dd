-- ===== src/Console/Uri.antt =====
-- `encodeURIComponent`, by which the console puts ids into the paths of its requests.
pub mod RoundTrip
pub mod Segment
mod Tests
use senix.Prelude.{
  ℕ, ◌+◌, ◌-◌, ◌*◌, ◌/◌, ◌%◌, Bool, true, false, Text, codes, List, [], ◌∷◌, ◌++◌, Option, none,
  some, map, any, ltb, leb, ◌==◌, ◌&&◌, ◌||◌, if◌then◌else◌,
}
use senix.Sse.Frame.{encode}

-- A to Z, a to z, 0 to 9, and -_.!~*'()
abbrev pub is_unreserved : ℕ → Bool
is_unreserved c =
    (leb b'A' c && leb c b'Z')
    || (leb b'a' c && leb c b'z')
    || (leb b'0' c && leb c b'9')
    || any (c ==◌) (codes "-_.!~*'()")

abbrev pub hex_digit : ℕ → ℕ
hex_digit d = if ltb d 10 then b'0' + d else b'A' + (d - 10)

abbrev pub percent : ℕ → Text
percent byte = b'%' ∷ hex_digit (byte / 16) ∷ hex_digit (byte % 16) ∷ []

unfoldable pub percents : List ℕ → Text
percents [] = []
percents (byte ∷ bytes) = percent byte ++ percents bytes

abbrev pub is_high : ℕ → Bool
is_high c = leb 55296 c && leb c 56319

abbrev pub is_low : ℕ → Bool
is_low c = leb 56320 c && leb c 57343

-- The four bytes of a character beyond the basic plane.
abbrev pub encode_pair : ℕ → ℕ → List ℕ
encode_pair high low =
    let c = 65536 + (high - 55296) * 1024 + (low - 56320) in
    (240 + c / 262144) ∷ (128 + c / 4096 % 64) ∷ (128 + c / 64 % 64) ∷ (128 + c % 64) ∷ []

abbrev pub encode_one : ℕ → Text
encode_one c = if is_unreserved c then c ∷ [] else percents (encode c)

abbrev pub after {ℓ} : {A : Type ℓ} → List A → Option (List A) → Option (List A)
after head none = none
after head (some rest) = some (head ++ rest)

-- `none` where it throws: at a surrogate that stands alone. The first argument is the high surrogate
-- that has been read.
unfoldable pub encode_from : Option ℕ → Text → Option Text
encode_from none [] = some []
encode_from none (c ∷ s) =
    let opened = encode_from (some c) s in
    let plain = after (encode_one c) (encode_from none s) in
    if is_high c then opened else if is_low c then none else plain
encode_from (some high) [] = none
encode_from (some high) (c ∷ s) =
    let pair = after (percents (encode_pair high c)) (encode_from none s) in
    if is_low c then pair else none

unfoldable pub encode_uri_component : Text → Option Text
unfolding encode_from
encode_uri_component s = encode_from none s
