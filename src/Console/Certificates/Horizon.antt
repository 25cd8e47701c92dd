-- ===== src/Console/Certificates/Horizon.antt =====
-- The share of a certificate's lifetime that is over.
use senix.Prelude.{ℕ, ◌+◌, ◌-◌, ◌*◌, ◌/◌, ◌≤◌, ◌<◌, ◌≡◌, arith}
use native.Mathlib.Nat.{le-div_iff_mul-le, div-mul-le_self, div-eq_of_lt, mul-div_cancel}
use senix.Console.Certificates.{Certificate}
use senix.Console.Certificates.Screen.{lifetime, elapsed}

div_mono : (a b k : ℕ) → 0 < k → a ≤ b → a / k ≤ b / k
div_mono a b k positive h =
    (le-div_iff_mul-le {x = a / k} {y = b} positive).1 (omega (arith, div-mul-le_self a k))

div_small : (a k : ℕ) → a < k → a / k ≡ 0
div_small a k h = div-eq_of_lt h

-- Of a certificate that ends after its start, the share shown is 0 at the start and 100 at the end,
-- grows with the time, and never goes beyond 100.
pub elapsed-IsProgress :
    (item : Certificate) (now later : ℕ)
    → item.not_before_ms < item.not_after_ms
    → now ≤ later
    → (elapsed item.not_before_ms item ≡ 0)
      × (elapsed item.not_after_ms item ≡ 100)
      × (elapsed now item ≤ elapsed later item)
      × (elapsed later item ≤ 100)
unfolding elapsed
elapsed-IsProgress item now later valid h =
    let k = 2 * lifetime item in
    let grows =
      div_mono ((now - item.not_before_ms) * 200 + lifetime item)
        ((later - item.not_before_ms) * 200 + lifetime item) k (omega arith) (omega arith) in
    let start =
      div_small ((item.not_before_ms - item.not_before_ms) * 200 + lifetime item) k (omega arith) in
    let full =
      div_mono (100 * k) ((item.not_after_ms - item.not_before_ms) * 200 + lifetime item) k
        (omega arith) (omega arith) in
    (
      omega (arith, start),
      omega (arith, full, mul-div_cancel 100 {n = k} (omega arith)),
      omega (arith, grows),
      omega arith,
    )
