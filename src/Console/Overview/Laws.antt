-- ===== src/Console/Overview/Laws.antt =====
-- The panels that are open, and the counts of the overview.
use senix.Prelude.{
  ◌+◌, false, not, String, str_eq, List, [], ◌∷◌, length, filter, ◌≡◌, refl, arith, ◌&&◌,
  Bool-cases, inl, inr,
}
use senix.Console.Maintenance.{Instance}
use senix.Console.Overview.{toggle, step, is_in_service, serving, attention}

-- Each instance is in service or counted as needing attention, or both if it is unhealthy.
pub serving-attention-cover :
    (instances : List Instance)
    → length instances
        + length (filter (λ item. is_in_service item && str_eq item.health "UNHEALTHY") instances)
      ≡ serving instances + attention instances
serving-attention-cover [] = refl
serving-attention-cover (item ∷ items) = ground (arith, serving-attention-cover items)

-- After a click on the button of an instance its panel is open if it was closed, and closed if it was open; the panel of any other instance is closed.
pub step-toggle-opens :
    (opened id other : String)
    → str_eq "" other ≡ false
    → str_eq (step opened (toggle id)) other ≡ (str_eq id other && not (str_eq opened id))
unfolding step
step-toggle-opens opened id other h = elim (Bool-cases (str_eq opened id)) [
  | inl same ↦ rw same (ground arith)
  | inr different ↦ rw different (ground arith)
]
