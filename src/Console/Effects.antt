-- ===== src/Console/Effects.antt =====
-- web/src/main.jsx, what the handlers of the pages do outside of their own state.
use senix.Prelude.{String, Text, Option}
use senix.Locale.{Entry}
use senix.Console.Api.{Value}

pub data Effect : Type 0 where
  -- api(path, { method, body })
  call : (path : Text) (method : String) (body : Option Value) → Effect
  notify : Entry → Effect
  -- onReload()
  reload : Effect
  -- navigator.clipboard.writeText
  copy : Text → Effect
  -- window.confirm
  confirm : Entry → Effect
  -- onSecret, onLogin and onExpired
  reveal : Text → Effect
  sign_in : Text → Effect
  sign_out : Effect
