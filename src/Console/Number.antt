-- ===== src/Console/Number.antt =====
-- The JavaScript numbers of the console's forms. A finite double is a dyadic fraction, and is given
-- exactly; reading a text, writing an integer and the one product of the forms are the platform's.
use senix.Prelude.{
  ℕ, suc, ◌+◌, ◌-◌, ◌*◌, ◌/◌, ◌%◌, ◌^◌, ◌≤◌, Bool, true, false, not, Text, ◌≡◌, ◌==◌, ltb, ◌&&◌,
  if◌then◌else◌,
}

-- `finite negative m k` is m / 2 ^ k, with a minus sign if `negative`.
pub data Number : Type 0 where
  nan : Number
  infinite : Bool → Number
  finite : Bool → ℕ → ℕ → Number

abbrev pub is_finite : Number → Bool
is_finite (finite _ _ _) = true
is_finite _ = false

-- Number.isInteger
abbrev pub is_integer : Number → Bool
is_integer (finite _ m k) = m % 2 ^ k == 0
is_integer _ = false

-- Number.isSafeInteger
abbrev pub is_safe_integer : Number → Bool
is_safe_integer (finite s m k) = m % 2 ^ k == 0 && ltb (m / 2 ^ k) (2 ^ 53)
is_safe_integer _ = false

-- x < n
abbrev pub is_below : Number → ℕ → Bool
is_below nan n = false
is_below (infinite negative) n = negative
is_below (finite true m k) n = if m == 0 then ltb 0 n else true
is_below (finite false m k) n = ltb m (n * 2 ^ k)

-- x > n
abbrev pub is_above : Number → ℕ → Bool
is_above nan n = false
is_above (infinite negative) n = not negative
is_above (finite true m k) n = false
is_above (finite false m k) n = ltb (n * 2 ^ k) m

-- x === n
abbrev pub is_equal : Number → ℕ → Bool
is_equal (finite true m k) n = m == 0 && n == 0
is_equal (finite false m k) n = m == n * 2 ^ k
is_equal _ n = false

-- Math.round
abbrev pub round : Number → Number
round (finite false m k) = finite false ((2 * m + 2 ^ k) / 2 ^ suc k) 0
round (finite true m k) = finite true ((2 * m + 2 ^ k - 1) / 2 ^ suc k) 0
round x = x

-- The number is the natural number `n`.
abbrev pub IsNatural : Number → ℕ → Type 0
IsNatural x n = is_equal x n ≡ true

pub record Doubles : Type 0 where
  pub of_text : Text → Number  -- Number(text)
  pub to_text : ℕ → Text  -- String(n)
  pub times_1000 : Number → Number  -- x * 1000

-- What the forms rely on: an integer that a double holds is read back from its text, and the
-- rounding of a product is monotone, with 1000 and 86400000 exact.
pub record AreIeee (d : Doubles) : Type 0 where
  pub reads : (n : ℕ) → n ≤ 2 ^ 53 → d.of_text (d.to_text n) ≡ finite false n 0
  pub product_finite :
      (x : Number)
      → is_finite x ≡ true
      → is_below x 1 ≡ false
      → is_above x 86400 ≡ false
      → is_finite (d.times_1000 x) ≡ true
  pub product_low :
      (x : Number)
      → is_finite x ≡ true
      → is_below x 1 ≡ false
      → is_above x 86400 ≡ false
      → is_below (d.times_1000 x) 1000 ≡ false
  pub product_high :
      (x : Number)
      → is_finite x ≡ true
      → is_below x 1 ≡ false
      → is_above x 86400 ≡ false
      → is_above (d.times_1000 x) 86400000 ≡ false
