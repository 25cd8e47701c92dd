-- ===== src/Console/Desk/Whole/Messages.antt =====
-- web/src/main.jsx, `ControlDesk` and `App`: whether the dictionary has the messages of the markup,
-- and the texts that the components choose from for labels. The texts of errors and notices, which
-- come from the state, are apart.
use senix.Prelude.{Bool, true, false, Text, [], ◌∷◌}
use senix.Locale.{Entry, nothing, text, notice, english}
use senix.Console.Secret
use senix.Console.Screen.Coverage.{has_own}
use senix.Console.Login.{Login}

abbrev pub is_known : Text → Bool
is_known t = has_own t english

-- No text, or one of the dictionary.
abbrev pub is_known_entry : Entry → Bool
is_known_entry nothing = true
is_known_entry (text []) = true
is_known_entry (text (c ∷ t)) = is_known (c ∷ t)
is_known_entry (notice _ _) = false
