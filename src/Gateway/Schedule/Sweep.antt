-- ===== src/Gateway/Schedule/Sweep.antt =====
-- What one pass over the backends does to the values, and which backend it selects.
use senix.Prelude.{
  ℕ, ◌+◌, ◌-◌, ◌^◌, ◌≤◌, ◌<◌, false, String, str_eq, str_eq_iff, List, [], ◌∷◌, Option, none, some,
  All, ltb, if◌then◌else◌, ◌≡◌, refl, sym, ◌∙◌, subst, arith, Bool-cases, inl, inr,
}
use senix.Gateway.Schedule.{
  Schedule, to_i64, saturating_add, value, put, better, sweep, settle, select, total_weight,
}
use senix.Gateway.Schedule.Sums.{
  same_id, is_absent, AreDistinct, weight_of, value-put, weight_of-absent,
}

-- One backend of the pass, where nothing saturates.
raise :
    (f : String → ℕ) (key : String) (w : ℕ) (ws : List (String × ℕ)) (s : Schedule)
    → AreDistinct ((key, w) ∷ ws)
    → ((id : String) → value id s + weight_of id ((key, w) ∷ ws) ≡ f id)
    → ((id : String) → f id < 2 ^ 64)
    → ((id : String) → weight_of id ((key, w) ∷ ws) < 2 ^ 63)
    → saturating_add (value key s) (to_i64 w) ≡ f key
raise f key w ws s d e bound small = ground (arith, e key, bound key, small key, same_id key)

raised :
    (f : String → ℕ) (key : String) (w : ℕ) (ws : List (String × ℕ)) (s : Schedule)
    → AreDistinct ((key, w) ∷ ws)
    → ((id : String) → value id s + weight_of id ((key, w) ∷ ws) ≡ f id)
    → (id : String) → value id (put key (f key) s) + weight_of id ws ≡ f id
raised f key w ws s d e id =
    ground (arith, value-put key id (f key) s, e id, str_eq_iff key id, weight_of-absent id ws, d.0)

-- The ids of the pass alone: the first with the greatest of the values `f`.
greatest : (String → ℕ) → List (String × ℕ) → String → String
greatest f [] best = best
greatest f ((id, w) ∷ ws) best = greatest f ws (if ltb (f best) (f id) then id else best)

best : (String → ℕ) → List (String × ℕ) → Option (String × ℕ) → Option (String × ℕ)
best f [] selected = selected
best f ((id, w) ∷ ws) selected = best f ws (better selected id (f id))

best-greatest :
    (f : String → ℕ) (ws : List (String × ℕ)) (id : String)
    → best f ws (some (id, f id)) ≡ some (greatest f ws id, f (greatest f ws id))
unfolding best greatest
best-greatest f [] id = refl
best-greatest f ((key, w) ∷ ws) id = elim (Bool-cases (ltb (f id) (f key))) [
  | inl above ↦ rw above (best-greatest f ws key)
  | inr below ↦ rw below (best-greatest f ws id)
]

-- `chosen` is `id` or one of the backends, and none of these has a greater value.
abbrev IsGreatest : (String → ℕ) → List (String × ℕ) → String → String → Type 0
IsGreatest f ws id chosen =
    (f id ≤ f chosen)
    × All (λ (b : String × ℕ). f b.0 ≤ f chosen) ws
    × (is_absent chosen ((id, 0) ∷ ws) ≡ false)

greatest-IsGreatest :
    (f : String → ℕ) (ws : List (String × ℕ)) (id : String) → IsGreatest f ws id (greatest f ws id)
unfolding greatest
greatest-IsGreatest f [] id = (omega arith, tt, ground (arith, same_id id))
greatest-IsGreatest f ((key, w) ∷ ws) id = elim (Bool-cases (ltb (f id) (f key))) [
  | inl above ↦
      let (top, rest, present) = greatest-IsGreatest f ws key in
      subst (λ b. IsGreatest f ((key, w) ∷ ws) id (greatest f ws (if b then key else id)))
        (sym above) (ground (arith, top, above), (top, rest), ground (arith, present))
  | inr below ↦
      let (top, rest, present) = greatest-IsGreatest f ws id in
      subst (λ b. IsGreatest f ((key, w) ∷ ws) id (greatest f ws (if b then key else id)))
        (sym below) (top, (ground (arith, top, below), rest), ground (arith, present))
]

-- The pass over the remaining backends `ws`, where `f` gives the values after it.
sweep_raises :
    (f : String → ℕ) (ws : List (String × ℕ)) (s : Schedule) (selected : Option (String × ℕ))
    → AreDistinct ws
    → ((id : String) → value id s + weight_of id ws ≡ f id)
    → ((id : String) → f id < 2 ^ 64)
    → ((id : String) → weight_of id ws < 2 ^ 63)
    → ((id : String) → value id (sweep ws s selected).0 ≡ f id)
      × ((sweep ws s selected).1 ≡ best f ws selected)
unfolding sweep best
sweep_raises f [] s selected d e bound small = (λ id. omega (arith, e id), refl)
sweep_raises f ((key, w) ∷ ws) s selected d e bound small =
    subst
      (λ v.
        ((id : String) → value id (sweep ws (put key v s) (better selected key v)).0 ≡ f id)
        × ((sweep ws (put key v s) (better selected key v)).1
            ≡ best f ws (better selected key (f key))))
      (sym (raise f key w ws s d e bound small))
      (sweep_raises f ws (put key (f key) s) (better selected key (f key)) d.1
        (raised f key w ws s d e) bound
        (λ id. ground (arith, small id, weight_of-absent id ws, str_eq_iff key id, d.0)))

-- What a selection leaves: the chosen backend has the greatest of the values after the pass, and it
-- alone gives up the sum of the weights.
pub record Selects (ws : List (String × ℕ)) (s : Schedule) (f : String → ℕ) : Type 0 where
  pub chosen : String
  pub selects : (select ws s).1 ≡ some chosen
  pub present : is_absent chosen ws ≡ false
  pub top : All (λ (b : String × ℕ). f b.0 ≤ f chosen) ws
  pub values :
      (id : String)
      → value id (select ws s).0 ≡ (if str_eq chosen id then f id - total_weight ws else f id)

settled :
    (W : ℕ) (r : Schedule × Option (String × ℕ)) (chosen : String) (v : ℕ) (f : String → ℕ)
    → r.1 ≡ some (chosen, v)
    → W < 2 ^ 63
    → ((id : String) → value id r.0 ≡ f id)
    → ((settle W r).1 ≡ some chosen)
      × ((id : String) → value id (settle W r).0 ≡ (if str_eq chosen id then f id - W else f id))
settled W (s, none) chosen v f e small values = absurd cc
settled W (s, some (key, u)) chosen v f e small values = (
  cc,
  λ id.
      ground
        (arith, value-put key id (value key s - W) s, values id, values key, str_eq_iff key id, e),
)

pub select_lem :
    (ws : List (String × ℕ)) (s : Schedule)
    → AreDistinct ws
    → 0 < total_weight ws
    → total_weight ws < 2 ^ 63
    → ((id : String) → value id s + weight_of id ws < 2 ^ 64)
    → ((id : String) → weight_of id ws < 2 ^ 63)
    → Selects ws s (λ id. value id s + weight_of id ws)
unfolding select best
select_lem [] s d pos small bound each = absurd (omega arith)
select_lem ((key, w) ∷ ws) s d pos small bound each =
    let f : String → ℕ = λ id. value id s + weight_of id ((key, w) ∷ ws) in
    let (values, chooses) = sweep_raises f ((key, w) ∷ ws) s none d (λ id. refl) bound each in
    let (top, rest, present) = greatest-IsGreatest f ws key in
    let done =
      settled (w + total_weight ws) (sweep ((key, w) ∷ ws) s none) (greatest f ws key)
        (f (greatest f ws key)) f (chooses ∙ best-greatest f ws key) small values in
    record {
      chosen = greatest f ws key;
      selects = done.0;
      present = present;
      top = (top, rest);
      values = done.1;
    }
