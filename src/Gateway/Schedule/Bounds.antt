-- ===== src/Gateway/Schedule/Bounds.antt =====
-- Bounds of the terms of a sum over backends from the sum, and of the sum from the terms.
use senix.Prelude.{
  ℕ, ◌+◌, ◌*◌, ◌≤◌, ◌<◌, String, List, [], ◌∷◌, All, ltb, ◌≡◌, arith, Bool-cases, inl, inr,
}
use senix.Gateway.Schedule.{total_weight}
use senix.Gateway.Schedule.Sums.{weight_of, sum_of, sum_of-add}

pub weight_of-le-total_weight :
    (id : String) (ws : List (String × ℕ)) → weight_of id ws ≤ total_weight ws
weight_of-le-total_weight id [] = omega arith
weight_of-le-total_weight id ((key, w) ∷ ws) = ground (arith, weight_of-le-total_weight id ws)

pub sum_of_mono :
    (f g : String → ℕ) (ws : List (String × ℕ))
    → ((id : String) → f id ≤ g id)
    → sum_of f ws ≤ sum_of g ws
sum_of_mono f g [] h = omega arith
sum_of_mono f g ((id, w) ∷ ws) h = omega (arith, h id, sum_of_mono f g ws h)

-- An upper bound of each term, from the sum and a lower bound of each.
pub sum_of-bound :
    (f : String → ℕ) (o W B : ℕ) (ws : List (String × ℕ))
    → sum_of f ws + o + sum_of (λ _. W) ws ≤ sum_of (λ _. o) ws + B
    → ((id : String) → o ≤ f id + W)
    → All (λ (b : String × ℕ). f b.0 + W ≤ B) ws
sum_of-bound f o W B [] h low = tt
sum_of-bound f o W B ((id, w) ∷ ws) h low = (
  omega (arith, sum_of-add f (λ _. W) ws, sum_of_mono (λ _. o) (λ other. f other + W) ws low),
  sum_of-bound f o W B ws (omega (arith, low id)) low,
)

pub sum_of-le :
    (f : String → ℕ) (o : ℕ) (ws : List (String × ℕ))
    → All (λ (b : String × ℕ). f b.0 ≤ o) ws
    → sum_of f ws ≤ sum_of (λ _. o) ws
sum_of-le f o [] h = omega arith
sum_of-le f o ((id, w) ∷ ws) h = omega (arith, h.0, sum_of-le f o ws h.1)

-- Terms that are at most those of a sum that is not greater are equal to these.
pub sum_of-tight :
    (f g : String → ℕ) (ws : List (String × ℕ))
    → ((id : String) → f id ≤ g id)
    → sum_of g ws ≤ sum_of f ws
    → All (λ (b : String × ℕ). f b.0 ≡ g b.0) ws
sum_of-tight f g [] h sums = tt
sum_of-tight f g ((id, w) ∷ ws) h sums =
    (omega (arith, h id, sum_of_mono f g ws h), sum_of-tight f g ws h (omega (arith, h id)))

pub le-sum_of : (W : ℕ) (ws : List (String × ℕ)) → 0 < total_weight ws → W ≤ sum_of (λ _. W) ws
le-sum_of W [] h = absurd (omega arith)
le-sum_of W (b ∷ ws) h = omega arith

pub sum_of-scale :
    (m : ℕ) (f : String → ℕ) (ws : List (String × ℕ)) → sum_of (λ id. m * f id) ws ≡ m * sum_of f ws
sum_of-scale m f [] = omega arith
sum_of-scale m f ((id, w) ∷ ws) = grind (arith, sum_of-scale m f ws)

pub scaled : (W a b : ℕ) → a ≤ b → W * a ≤ W * b
scaled W a b h = grind arith

pub within_share : (c m w W : ℕ) → W * c < m * W * w + W → c ≤ m * w
within_share c m w W h = elim (Bool-cases (ltb (m * w) c)) [
  | inl over ↦
      let more : m * w + 1 ≤ c = ground (arith, over) in
      absurd (omega (arith, h, scaled W (m * w + 1) c more, regroup))
  | inr within ↦ ground (arith, within)
]
  where
    regroup : W * (m * w + 1) ≡ m * W * w + W
    regroup = grind arith
