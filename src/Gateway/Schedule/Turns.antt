-- ===== src/Gateway/Schedule/Turns.antt =====
-- A row of selections with the same weights, and how far each backend is from its share.
use senix.Prelude.{
  ℕ, zero, suc, ◌+◌, ◌*◌, ◌^◌, ◌≤◌, ◌<◌, Bool, true, false, String, str_eq, str_eq_iff, List, [],
  ◌∷◌, Option, none, some, length, ltb, ltb→lt, if◌then◌else◌, ◌≡◌, sym, subst, arith, Bool-cases,
  inl, inr,
}
use senix.Gateway.Schedule.{Schedule, origin, value, select, total_weight}
use senix.Gateway.Schedule.Sums.{
  is_absent, AreDistinct, weight_of, weight_of-absent, sum_of, All-at, sum_of-ext, sum_of-add,
  sum_of-zero, sum_of-const, sum_of-one, sum_of-weight_of,
}
use senix.Gateway.Schedule.Sweep.{Selects, select_lem}
use senix.Gateway.Schedule.Bounds.{
  weight_of-le-total_weight, sum_of_mono, sum_of-bound, sum_of-le, le-sum_of,
}

abbrev pub note : Schedule × Option String → List String → Schedule × List String
note (s, none) chosen = (s, chosen)
note (s, some id) chosen = (s, id ∷ chosen)

-- So many selections, one after the other, with the ids that were selected, the last one first.
unfoldable pub turns : ℕ → List (String × ℕ) → Schedule → Schedule × List String
turns zero ws s = (s, [])
turns (suc k) ws s = let before = turns k ws s in note (select ws before.0) before.1

abbrev pub count : String → List String → ℕ
count id [] = 0
count id (x ∷ xs) = (if str_eq x id then 1 else 0) + count id xs

pub noted :
    (p : Schedule × Option String) (chosen : List String) (id : String)
    → p.1 ≡ some id
    → note p chosen ≡ (p.0, id ∷ chosen)
noted (s, none) chosen id h = absurd cc
noted (s, some other) chosen id h = cc

even_step :
    (b : Bool) (v f W c o k w : ℕ)
    → v + (if b then W else 0) ≡ f + w
    → f + W * c ≡ o + k * w
    → v + W * ((if b then 1 else 0) + c) ≡ o + suc k * w
even_step true v f W c o k w h e = grind arith
even_step false v f W c o k w h e = grind arith

-- After `k` selections: a backend that is behind its share has a value above the origin by what it
-- lacks, one that is ahead a value below it by less than the sum of the weights.
pub record IsFair (ws : List (String × ℕ)) (k : ℕ) (r : Schedule × List String) : Type 0 where
  pub even :
      (id : String) → value id r.0 + total_weight ws * count id r.1 ≡ origin + k * weight_of id ws
  pub each : sum_of (λ id. count id r.1) ws ≡ k
  pub balance : sum_of (λ id. value id r.0) ws ≡ sum_of (λ _. origin) ws
  pub low : (id : String) → origin < value id r.0 + total_weight ws

module _ (ws : List (String × ℕ)) (distinct : AreDistinct ws) (some_weight : 0 < total_weight ws)
    (small : length ws * total_weight ws < 2 ^ 63) where
  pub total-lt : total_weight ws < 2 ^ 63
  total-lt =
      omega (arith, sum_of-const (total_weight ws) ws, le-sum_of (total_weight ws) ws some_weight)

  weight-lt : (id : String) → weight_of id ws < 2 ^ 63
  weight-lt id = omega (arith, weight_of-le-total_weight id ws, total-lt)

  module _ (k : ℕ) (r : Schedule × List String) (fair : IsFair ws k r) where
    abbrev pub after : String → ℕ
    after id = value id r.0 + weight_of id ws

    sum-after : sum_of after ws ≡ sum_of (λ _. origin) ws + total_weight ws
    sum-after = omega (
      arith,
      sum_of-add (λ id. value id r.0) (λ id. weight_of id ws) ws,
      fair.balance,
      sum_of-weight_of ws distinct,
    )

    after-low : (id : String) → origin ≤ after id + total_weight ws
    after-low id = omega (arith, fair.low id)

    after-lt : (id : String) → after id < 2 ^ 64
    after-lt id = elim (Bool-cases (is_absent id ws)) [
      | inl absent ↦
          let none_due : k * weight_of id ws ≡ 0 =
            rw (weight_of-absent id ws absent) (omega arith) in
          omega (arith, fair.even id, none_due, weight_of-absent id ws absent)
      | inr present ↦
          let W : ℕ = total_weight ws in
          let B : ℕ = origin + sum_of (λ _. W) ws + W in
          let each = sum_of-bound after origin W B ws (omega (arith, sum-after)) after-low in
          let here : after id + W ≤ B = All-at (λ other. after other + W ≤ B) id ws each present in
          omega (arith, sum_of-const W ws, here, small)
    ]

    pub chosen_selection : Selects ws r.0 after
    chosen_selection = select_lem ws r.0 distinct some_weight total-lt after-lt weight-lt

    -- The greatest value is above the origin, as the values have grown by the sum of the weights.
    chosen-above : origin < after chosen_selection.chosen
    chosen-above = elim (Bool-cases (ltb origin (after chosen_selection.chosen))) [
      | inl above ↦ ltb→lt _ _ above
      | inr below ↦
          let v : ℕ = after chosen_selection.chosen in
          let at_most : v ≤ origin = ground (arith, below) in
          absurd (
            omega (
              arith,
              some_weight,
              sum-after,
              sum_of-le after v ws chosen_selection.top,
              sum_of_mono (λ _. v) (λ _. origin) ws (λ _. at_most),
            ))
    ]

    abbrev next : Schedule × List String
    next = note (select ws r.0) r.1

    next-eq : next ≡ ((select ws r.0).0, chosen_selection.chosen ∷ r.1)
    next-eq = noted (select ws r.0) r.1 chosen_selection.chosen chosen_selection.selects

    given-up :
        (id : String)
        → value id (select ws r.0).0
            + (if str_eq chosen_selection.chosen id then total_weight ws else 0)
          ≡ after id
    given-up id = ground (
      arith,
      chosen_selection.values id,
      str_eq_iff chosen_selection.chosen id,
      chosen-above,
      total-lt,
    )

    next-IsFair : IsFair ws (suc k) ((select ws r.0).0, chosen_selection.chosen ∷ r.1)
    next-IsFair = record {
      even = λ id.
          even_step (str_eq chosen_selection.chosen id) _ _ _ _ _ _ _ (given-up id) (fair.even id);
      each = omega (
        arith,
        sum_of-add (λ id. if str_eq chosen_selection.chosen id then 1 else 0) (λ id. count id r.1)
            ws,
        sum_of-one 1 chosen_selection.chosen ws distinct chosen_selection.present,
        fair.each,
      );
      balance = omega (
        arith,
        sum_of-ext _ after ws (λ id _. given-up id),
        sum_of-add (λ id. value id (select ws r.0).0)
            (λ id. if str_eq chosen_selection.chosen id then total_weight ws else 0) ws,
        sum_of-one (total_weight ws) chosen_selection.chosen ws distinct chosen_selection.present,
        sum-after,
      );
      low = λ id.
          ground
            (arith, given-up id, str_eq_iff chosen_selection.chosen id, chosen-above, fair.low id);
    }

  pub turns-IsFair :
      (k : ℕ) (s : Schedule) → ((id : String) → value id s ≡ origin) → IsFair ws k (turns k ws s)
  unfolding turns
  turns-IsFair zero s fresh = record {
    even = λ id. grind (arith, fresh id);
    each = sum_of-zero ws;
    balance = sum_of-ext _ (λ _. origin) ws (λ id _. fresh id);
    low = λ id. omega (arith, fresh id, some_weight);
  }
  turns-IsFair (suc k) s fresh =
      subst (IsFair ws (suc k)) (sym (next-eq k (turns k ws s) (turns-IsFair k s fresh)))
        (next-IsFair k (turns k ws s) (turns-IsFair k s fresh))
