-- ===== src/Decimal.antt =====
-- Natural numbers as JavaScript writes them into a text, and read back.
use senix.Prelude.{
  ℕ, zero, suc, ◌+◌, ◌-◌, ◌*◌, ◌/◌, ◌%◌, ◌<◌, Bool, true, Text, [], ◌∷◌, ◌++◌, ◌≡◌, refl, ap, ◌∙◌,
  arith, ltb, leb, ◌&&◌, if◌then◌else◌, append_assoc, append-nil, sym, Bool-cases, inl, inr,
}

-- `${n}`, by fuel: a number has fewer digits than its successor counts.
unfoldable pub digits : ℕ → ℕ → Text
digits zero n = []
digits (suc fuel) n =
    let more = digits fuel (n / 10) ++ (b'0' + n % 10) ∷ [] in
    if ltb n 10 then (b'0' + n) ∷ [] else more

unfoldable pub decimal : ℕ → Text
unfolding digits
decimal n = digits (suc n) n

abbrev pub is_digit : ℕ → Bool
is_digit c = leb b'0' c && leb c b'9'

-- The number at the head of a text, and what is behind it.
unfoldable pub read_number : ℕ → Text → ℕ × Text
read_number n [] = (n, [])
read_number n (c ∷ s) =
    let longer = read_number (n * 10 + (c - b'0')) s in if is_digit c then longer else (n, c ∷ s)

read_number-digit :
    (n d : ℕ) (rest : Text)
    → d < 10
    → read_number n ((b'0' + d) ∷ rest) ≡ read_number (n * 10 + d) rest
unfolding read_number
read_number-digit n d rest h =
    let digit : is_digit (b'0' + d) ≡ true = ground arith in
    let value : (b'0' + d) - b'0' ≡ d = omega arith in rw (digit, value) refl

pub read_number-digits :
    (fuel n : ℕ) (rest : Text)
    → n < fuel
    → read_number 0 (digits fuel n ++ rest) ≡ read_number n rest
unfolding digits
read_number-digits zero n rest h = absurd (omega arith)
read_number-digits (suc fuel) n rest h = elim (Bool-cases (ltb n 10)) [
  | inl small ↦
      rw small (
        read_number-digit 0 n rest (ground arith)
        ∙ ap (λ (k : ℕ). read_number k rest) (omega arith))
  | inr large ↦ rw large (
      ap (read_number 0) (append_assoc (digits fuel (n / 10)) ((b'0' + n % 10) ∷ []) rest)
      ∙ read_number-digits fuel (n / 10) ((b'0' + n % 10) ∷ rest) (ground arith)
      ∙ read_number-digit (n / 10) (n % 10) rest (omega arith)
      ∙ ap (λ (k : ℕ). read_number k rest) (omega arith))
]

-- A number is read back from its digits.
pub read_number-decimal : (n : ℕ) → read_number 0 (decimal n) ≡ (n, [])
unfolding decimal
read_number-decimal n =
    ap (read_number 0) (sym (append-nil (digits (suc n) n)))
    ∙ read_number-digits (suc n) n [] (omega arith)
    ∙ unfold read_number in refl
