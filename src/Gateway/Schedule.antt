-- ===== src/Gateway/Schedule.antt =====
-- crates/senix-core/src/runtime.rs, the schedule of a route, by which `acquire` shares the requests
-- among the backends in proportion to their weights. An i64 is given by its distance from the least
-- one, so that 0 is 2^63, and the order is that of the numbers.
pub mod Sums
pub mod Sweep
pub mod Bounds
pub mod Turns
pub mod Fair
use senix.Prelude.{
  ℕ, ◌+◌, ◌-◌, ◌^◌, Bool, String, str_eq, List, [], ◌∷◌, Option, none, some, ltb, min,
  if◌then◌else◌,
}

-- HashMap<String, i64>
abbrev pub Schedule : Type 0
Schedule = List (String × ℕ)

abbrev pub origin : ℕ
origin = 2 ^ 63

-- i64::try_from(…).unwrap_or(i64::MAX), for a number that is not negative
abbrev pub to_i64 : ℕ → ℕ
to_i64 n = min n (2 ^ 63 - 1)

abbrev pub saturating_add : ℕ → ℕ → ℕ
saturating_add current n = min (current + n) (2 ^ 64 - 1)

abbrev pub saturating_sub : ℕ → ℕ → ℕ
saturating_sub current n = current - n

-- `entry(id).or_default()`
unfoldable pub value : String → Schedule → ℕ
value id [] = origin
value id ((key, current) ∷ schedule) =
    let rest = value id schedule in if str_eq key id then current else rest

unfoldable pub put : String → ℕ → Schedule → Schedule
put id current [] = (id, current) ∷ []
put id current ((key, old) ∷ schedule) =
    let rest = put id current schedule in
    if str_eq key id then (key, current) ∷ schedule else (key, old) ∷ rest

-- The best backend so far with its value: the first of those with the greatest.
abbrev pub better : Option (String × ℕ) → String → ℕ → Option (String × ℕ)
better none id current = some (id, current)
better (some (best, greatest)) id current =
    if ltb greatest current then some (id, current) else some (best, greatest)

-- The loop over the backends that can be selected, each with its weight.
unfoldable pub sweep :
    List (String × ℕ) → Schedule → Option (String × ℕ) → Schedule × Option (String × ℕ)
unfolding value put
sweep [] schedule selected = (schedule, selected)
sweep ((id, weight) ∷ weighted) schedule selected =
    let current = saturating_add (value id schedule) (to_i64 weight) in
    sweep weighted (put id current schedule) (better selected id current)

abbrev pub settle : ℕ → Schedule × Option (String × ℕ) → Schedule × Option String
settle total (schedule, none) = (schedule, none)
settle total (schedule, some (id, current)) =
    (put id (saturating_sub (value id schedule) (to_i64 total)) schedule, some id)

abbrev pub total_weight : List (String × ℕ) → ℕ
total_weight [] = 0
total_weight ((id, weight) ∷ weighted) = weight + total_weight weighted

-- The selection of a backend, under the lock of the schedule.
unfoldable pub select : List (String × ℕ) → Schedule → Schedule × Option String
unfolding sweep put value
select weighted schedule = settle (total_weight weighted) (sweep weighted schedule none)
