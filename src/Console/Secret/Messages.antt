-- ===== src/Console/Secret/Messages.antt =====
-- Whether the messages of the dialog that shows a key are in the dictionary.
use senix.Prelude.{refl}
use senix.Locale.{scan}
use senix.Locale.Templates.{fields}
use senix.Console.Screen.Coverage.{IsCovered, is_translated, all-IsCovered}
use senix.Console.Secret.{Dialog, secret_screen}

pub secret_screen-IsCovered : (d : Dialog) → IsCovered (secret_screen d)
unfolding is_translated scan fields
secret_screen-IsCovered d = all-IsCovered refl
