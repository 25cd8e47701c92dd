-- ===== src/Gateway/Schedule/Fair.antt =====
-- How often each backend is selected.
use senix.Prelude.{
  ℕ, ◌+◌, ◌*◌, ◌^◌, ◌≤◌, ◌<◌, String, List, length, ◌≡◌, ap, ◌∙◌, arith, Bool-cases, inl, inr,
}
use senix.Gateway.Schedule.{Schedule, origin, value, total_weight}
use senix.Gateway.Schedule.Sums.{
  is_absent, AreDistinct, weight_of, weight_of-absent, sum_of, All-at, sum_of-const,
  sum_of-weight_of,
}
use senix.Gateway.Schedule.Bounds.{
  sum_of-bound, sum_of-tight, le-sum_of, sum_of-scale, within_share,
}
use senix.Gateway.Schedule.Turns.{turns, count, IsFair, turns-IsFair}

-- At any time a backend is ahead of its share by less than a request, and behind it by at most one
-- request for each other backend.
pub turns-near_share :
    (ws : List (String × ℕ)) (k : ℕ) (s : Schedule)
    → AreDistinct ws
    → 0 < total_weight ws
    → length ws * total_weight ws < 2 ^ 63
    → ((id : String) → value id s ≡ origin)
    → (id : String)
    → (total_weight ws * count id (turns k ws s).1 < k * weight_of id ws + total_weight ws)
      × (k * weight_of id ws + total_weight ws
          ≤ total_weight ws * count id (turns k ws s).1 + length ws * total_weight ws)
turns-near_share ws k s distinct pos small fresh id =
    let r = turns k ws s in
    let W : ℕ = total_weight ws in
    let fair = turns-IsFair ws distinct pos small k s fresh in
    (
      omega (arith, fair.even id, fair.low id),
      elim (Bool-cases (is_absent id ws)) [
        | inl absent ↦
            let none_due : k * weight_of id ws ≡ 0 =
              rw (weight_of-absent id ws absent) (omega arith) in
            omega (arith, none_due, sum_of-const W ws, le-sum_of W ws pos)
        | inr present ↦
            let B : ℕ = origin + sum_of (λ _. W) ws in
            let each =
              sum_of-bound (λ other. value other r.0) origin W B ws (omega (arith, fair.balance))
                (λ other. omega (arith, fair.low other)) in
            let here : value id r.0 + W ≤ B =
              All-at (λ other. value other r.0 + W ≤ B) id ws each present in
            omega (arith, here, fair.even id, sum_of-const W ws)
      ],
    )

-- After so many whole rounds, each of as many selections as the sum of the weights, every backend
-- has been selected as often as its weight in each, and all values are back at the origin.
pub turns-shares :
    (ws : List (String × ℕ)) (m : ℕ) (s : Schedule)
    → AreDistinct ws
    → 0 < total_weight ws
    → length ws * total_weight ws < 2 ^ 63
    → ((id : String) → value id s ≡ origin)
    → (id : String)
    → (count id (turns (m * total_weight ws) ws s).1 ≡ m * weight_of id ws)
      × (value id (turns (m * total_weight ws) ws s).0 ≡ origin)
turns-shares ws m s distinct pos small fresh id =
    (shares, omega (arith, fair.even id, product, ap (λ (n : ℕ). W * n) shares))
  where
    W : ℕ
    W = total_weight ws

    r : Schedule × List String
    r = turns (m * W) ws s

    fair : IsFair ws (m * W) r
    fair = turns-IsFair ws distinct pos small (m * W) s fresh

    product : m * W * weight_of id ws ≡ W * (m * weight_of id ws)
    product = grind arith

    at_most : (other : String) → count other r.1 ≤ m * weight_of other ws
    at_most other =
        within_share (count other r.1) m (weight_of other ws) W
          (omega (arith, fair.even other, fair.low other))

    whole : sum_of (λ other. m * weight_of other ws) ws ≡ m * W
    whole =
        sum_of-scale m (λ other. weight_of other ws) ws
        ∙ ap (λ n. m * n) (sum_of-weight_of ws distinct)

    shares : count id r.1 ≡ m * weight_of id ws
    shares = elim (Bool-cases (is_absent id ws)) [
      | inl absent ↦
          let none_due : m * weight_of id ws ≡ 0 =
            rw (weight_of-absent id ws absent) (omega arith) in
          omega (arith, at_most id, none_due)
      | inr present ↦
          All-at (λ other. count other r.1 ≡ m * weight_of other ws) id ws
            (sum_of-tight (λ other. count other r.1) (λ other. m * weight_of other ws) ws at_most
              (omega (arith, whole, fair.each)))
            present
    ]
