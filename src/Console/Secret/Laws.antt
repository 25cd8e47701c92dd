-- ===== src/Console/Secret/Laws.antt =====
-- What is left of a key when its dialog has been closed.
use senix.Prelude.{Bool, true, false, codes, List, [], ◌∷◌}
use senix.Console.Effects.{Effect}
use senix.Console.Effects
use senix.Console.Secret.{Event, issued, copy}

abbrev pub is_issue : Event → Bool
is_issue (issued secret) = true
is_issue _ = false

-- The word `null` is written to the clipboard for each press of the button.
abbrev pub nulls : List Event → List Effect
nulls [] = []
nulls (copy ∷ events) = Effects.copy (codes "null") ∷ nulls events
nulls (_ ∷ events) = nulls events
