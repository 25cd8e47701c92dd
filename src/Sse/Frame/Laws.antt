-- ===== src/Sse/Frame/Laws.antt =====
-- The size of a frame's data, and the characters of its lines.
use senix.Prelude.{
  ℕ, Bool, false, zero, suc, ◌+◌, ◌-◌, ◌/◌, ◌%◌, ◌^◌, ◌≤◌, ◌<◌, Text, codes, [], ◌∷◌, ◌++◌, ltb,
  length, length-append, length-replicate, replicate, ◌≡◌, refl, ap, ◌∙◌, arith, All, All-append,
  ◌≢◌, Bool-cases, inl, inr,
}
use senix.Decimal.{digits, decimal}
use senix.Sse.Frame.{
  encode, utf8, is_high_surrogate, is_low_surrogate, utf8_from, bytes_from, byte_length, payload,
  padding_of,
}

-- A code unit that is ASCII and does not end a line.
abbrev pub InLine : ℕ → Type 0
InLine c = c ≢ b'\n'

-- A code unit below the surrogates.
abbrev pub IsSingle : ℕ → Type 0
IsSingle c = c < 55296

pub utf8-cons : (c : ℕ) (s : Text) → IsSingle c → utf8 (c ∷ s) ≡ encode c ++ utf8 s
unfolding utf8 utf8_from
utf8-cons c s single =
    let high : is_high_surrogate c ≡ false = ground (arith, single) in
    let low : is_low_surrogate c ≡ false = ground (arith, single) in rw (high, low) refl

pub length-utf8 : (s : Text) → All IsSingle s → length (utf8 s) ≡ byte_length s
unfolding byte_length bytes_from
length-utf8 [] h = unfold utf8 utf8_from in refl
length-utf8 (c ∷ s) (single, h) =
    ground
      (arith, ap length (utf8-cons c s single), length-utf8 s h, length-append (encode c) (utf8 s))

byte_length-append :
    (s t : Text) → All IsSingle s → byte_length (s ++ t) ≡ byte_length s + byte_length t
unfolding byte_length bytes_from
byte_length-append [] t h = omega arith
byte_length-append (c ∷ s) t (single, h) = ground (arith, byte_length-append s t h)

abbrev pub IsAscii : ℕ → Type 0
IsAscii c = c < 128

byte_length-IsAscii : (s : Text) → All IsAscii s → byte_length s ≡ length s
unfolding byte_length bytes_from
byte_length-IsAscii [] h = refl
byte_length-IsAscii (c ∷ s) (small, h) = ground (arith, byte_length-IsAscii s h)

bytes_from-bound : (high : Bool) (s : Text) → length s ≤ bytes_from high s
unfolding bytes_from
bytes_from-bound high [] = omega arith
bytes_from-bound high (c ∷ s) = ground (arith, bytes_from-bound (is_high_surrogate c) s)

-- A code unit takes a byte at least.
pub length-le-byte_length : (s : Text) → length s ≤ byte_length s
unfolding byte_length
length-le-byte_length s = bytes_from-bound false s

abbrev IsDigit : ℕ → Type 0
IsDigit c = (b'0' ≤ c) × (c ≤ b'9')

digits-IsDigit : (fuel n : ℕ) → All IsDigit (digits fuel n)
unfolding digits
digits-IsDigit zero n = tt
digits-IsDigit (suc fuel) n =
    let last : All IsDigit ((b'0' + n % 10) ∷ []) = omega arith in
    let more = All-append IsDigit (digits fuel (n / 10)) _ (digits-IsDigit fuel (n / 10)) last in
    elim (Bool-cases (ltb n 10)) [ inl small ↦ rw small (ground arith) | inr large ↦ rw large more ]

-- A number below 10 ^ k has at most k digits.
length-digits-le : (k fuel n : ℕ) → n < 10 ^ suc k → length (digits fuel n) ≤ suc k
unfolding digits
length-digits-le k zero n h = omega arith
length-digits-le zero (suc fuel) n h = ground arith
length-digits-le (suc k) (suc fuel) n h = ground (
  arith,
  length-digits-le k fuel (n / 10),
  length-append (digits fuel (n / 10)) ((b'0' + n % 10) ∷ []),
)

pub All-weaken : (P Q : ℕ → Type 0) (s : Text) → ((c : ℕ) → P c → Q c) → All P s → All Q s
All-weaken P Q [] f h = tt
All-weaken P Q (c ∷ s) f (p, h) = (f c p, All-weaken P Q s f h)

pub decimal-IsAscii : (n : ℕ) → All IsAscii (decimal n)
unfolding decimal
decimal-IsAscii n =
    All-weaken IsDigit IsAscii (decimal n) (λ c h. omega arith) (digits-IsDigit (suc n) n)

pub decimal-InLine : (n : ℕ) → All InLine (decimal n)
unfolding decimal
decimal-InLine n =
    All-weaken IsDigit InLine (decimal n) (λ c h. omega arith) (digits-IsDigit (suc n) n)

-- The digits of a number below 10 ^ 16 take 16 bytes at most.
pub byte_length-decimal-le : (n : ℕ) → n < 10 ^ 16 → byte_length (decimal n) ≤ 16
byte_length-decimal-le n h =
    let few : length (decimal n) ≤ 16 = unfold decimal in length-digits-le 15 (suc n) n h in
    omega (arith, byte_length-IsAscii (decimal n) (decimal-IsAscii n))

byte_length-payload :
    (seq : ℕ) (padding : Text)
    → All IsSingle padding
    → byte_length (payload seq padding)
      ≡ 7 + (byte_length (decimal seq) + (29 + (byte_length padding + 2)))
unfolding payload
byte_length-payload seq padding single =
    let head : byte_length (codes "{\"seq\":") ≡ 7 = unfold byte_length bytes_from in refl in
    let middle : byte_length (codes ",\"token\":\"你好\",\"padding\":\"") ≡ 29 =
      unfold byte_length bytes_from in refl in
    let last : byte_length (codes "\"}") ≡ 2 = unfold byte_length bytes_from in refl in
    let number : All IsSingle (decimal seq) =
      All-weaken IsAscii IsSingle (decimal seq) (λ c h. omega arith) (decimal-IsAscii seq) in
    byte_length-append (codes "{\"seq\":") _ (omega arith)
    ∙ rw
        (
          head,
          byte_length-append (decimal seq)
              (codes ",\"token\":\"你好\",\"padding\":\"" ++ (padding ++ codes "\"}")) number,
          byte_length-append (codes ",\"token\":\"你好\",\"padding\":\"") (padding ++ codes "\"}")
              (omega arith),
          middle,
          byte_length-append padding (codes "\"}") single,
          last,
        )
        refl

All-replicate : (n : ℕ) (P : ℕ → Type 0) (c : ℕ) → P c → All P (replicate n c)
All-replicate zero P c p = tt
All-replicate (suc n) P c p = (p, All-replicate n P c p)

byte_length-padding : (n : ℕ) → byte_length (replicate n b'x') ≡ n
byte_length-padding n =
    byte_length-IsAscii (replicate n b'x') (All-replicate n IsAscii b'x' (omega arith))
    ∙ length-replicate n b'x'

-- The parameter check `data_bytes ≥ 64` leaves room for every number below 10 ^ 16: the repetition
-- count of the padding is never negative, and the data of each frame has the size asked for.
pub byte_length-payload-padding_of :
    (data_bytes seq : ℕ)
    → 64 ≤ data_bytes
    → seq < 10 ^ 16
    → (byte_length (payload seq []) ≤ data_bytes)
      × (byte_length (payload seq (padding_of data_bytes seq)) ≡ data_bytes)
unfolding padding_of
byte_length-payload-padding_of data_bytes seq wide small =
    let bound = byte_length-decimal-le seq small in
    let empty = byte_length-payload seq [] tt in
    let none : byte_length [] ≡ 0 = unfold byte_length bytes_from in refl in
    let full =
      byte_length-payload seq (padding_of data_bytes seq)
        (All-replicate _ IsSingle b'x' (omega arith)) in
    let size = byte_length-padding (data_bytes - byte_length (payload seq [])) in
    (omega arith, omega arith)
