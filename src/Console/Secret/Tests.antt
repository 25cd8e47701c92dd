-- ===== src/Console/Secret/Tests.antt =====
-- A key is copied, and closed.
use senix.Prelude.{true, codes, List, [], ◌∷◌, ◌++◌, ◌≡◌, refl}
use senix.Locale.{text}
use senix.Console.Effects
use senix.Console.Secret.{Event, issued, copy, copied, close, escape, closed, step, run}

abbrev before : List Event
before = issued (codes "sk-1") ∷ copy ∷ copied true ∷ []

abbrev after : List Event
after = copy ∷ escape ∷ []

-- A press of the button after the closing.
copied_once :
    (run closed (before ++ close ∷ after)).1
    ≡ Effects.copy (codes "sk-1") ∷ Effects.copy (codes "null") ∷ []
unfolding run step
copied_once = refl

-- A dialog that the browser has closed by itself shows the next key as copied.
copied_before_copying :
    (run closed (before ++ escape ∷ issued (codes "sk-2") ∷ [])).0.copy_state
    ≡ text (codes "已复制到剪贴板")
unfolding run step
copied_before_copying = refl
