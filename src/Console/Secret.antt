-- ===== src/Console/Secret.antt =====
-- web/src/main.jsx, `SecretDialog` and the state `secret` of `ControlDesk`: a key that has just
-- been issued.
pub mod Laws
mod Tests
pub mod Messages
use senix.Prelude.{
  ℕ, Bool, true, false, Text, codes, List, [], ◌∷◌, ◌++◌, Option, none, some, if◌then◌else◌,
}
use senix.Locale.{Entry, text}
use senix.Console.Effects.{Effect}
use senix.Console.Effects
use senix.Console.Screen.{Item, plain, message, entry, button}

pub record Dialog : Type 0 where
  pub secret : Option Text
  pub copy_state : Entry
  pub is_shown : Bool  -- `showModal` has been called, and not `close`

pub data Event : Type 0 where
  issued : Text → Event  -- `setSecret`
  copy : Event
  copied : (ok : Bool) → Event
  close : Event
  escape : Event  -- the browser closes the dialog by itself

abbrev pub closed : Dialog
closed = record { secret = none; copy_state = text []; is_shown = false }

-- `navigator.clipboard.writeText(secret)`, which writes the text of `null` too.
abbrev pub copy_of : Option Text → List Effect
copy_of none = Effects.copy (codes "null") ∷ []
copy_of (some secret) = Effects.copy secret ∷ []

unfoldable pub step : Dialog → Event → Dialog × List Effect
step d (issued secret) = (record d { secret = some secret; is_shown = true }, [])
step d copy = (d, copy_of d.secret)
step d (copied ok) =
    (record d { copy_state = text (codes (if ok then "已复制到剪贴板" else "复制失败，请手动选择并复制")) }, [])
step d close = (closed, [])
step d escape = (record d { is_shown = false }, [])

unfoldable pub run : Dialog → List Event → Dialog × List Effect
unfolding step
run d [] = (d, [])
run d (e ∷ later) =
    let (d', effects) = step d e in let (d'', more) = run d' later in (d'', effects ++ more)

abbrev pub secret_text : Option Text → Text
secret_text none = []
secret_text (some secret) = secret

abbrev pub secret_screen : Dialog → List (Item Event)
secret_screen d =
    plain (codes "Only once")
    ∷ message "现在保存这个 Key" []
    ∷ message "关闭后无法找回。遗失时请生成新 Key，再吊销旧 Key。" []
    ∷ plain (secret_text d.secret)
    ∷ entry d.copy_state
    ∷ button true "复制 Key" [] copy
    ∷ button true "我已保存" [] close
    ∷ []
