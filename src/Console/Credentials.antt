-- ===== src/Console/Credentials.antt =====
-- web/src/main.jsx, `CredentialRow` and `Credentials`: the keys that have been issued, and their
-- revocation.
pub mod Laws
mod Tests
pub mod Messages
use senix.Prelude.{
  ℕ, Bool, true, false, not, String, str_eq, Text, codes, List, [], ◌∷◌, ◌++◌, Option, none, some,
  ◌==◌, ◌&&◌, if◌then◌else◌,
}
use senix.Decimal.{decimal}
use senix.Locale.{Entry, text, notice}
use senix.Console.Api.{Answer, answered, failed, ApiError, plain_error, error_message}
use senix.Console.Effects.{Effect, call, notify, reload, confirm, reveal}
use senix.Console.Screen.{
  I18n, Item, plain, marked, message, button, when, either, each, nested, concat,
}
use senix.Console.Keys.Screen.{Click, cancel}
use senix.Console.Uri.{encode_uri_component}

pub record Credential : Type 0 where
  pub credential_id : Text
  pub label : Text
  pub kind : String
  pub actions : List Text
  pub all_resources : Bool
  pub instance_ids : List Text
  pub expires_at_ms : Option ℕ
  pub revoked_at_ms : Option ℕ

-- The state of the page is whether the key form is open. A revocation is asked for in a dialog
-- that stops the page, so that its answer belongs to the event; there may be several at a time.
pub data Event : Type 0 where
  open_form : Event
  in_form : Click → Event  -- of `KeyForm`
  -- the form was given this key by the server
  issued : (api_key : Text) → Event
  revoke : Credential → (confirmed : Bool) → Event
  respond : Answer (Unit {0}) → Event

abbrev pub is_cancel : Click → Bool
is_cancel cancel = true
is_cancel _ = false

-- `Boolean(revoked_at_ms)`
abbrev pub is_revoked : Credential → Bool
is_revoked c = elim c.revoked_at_ms [ none ↦ false | some t ↦ not (t == 0) ]

abbrev pub is_bootstrap : Credential → Bool
is_bootstrap c = str_eq c.kind "OWNER"

abbrev pub question : Credential → Entry
question c =
    notice (some (codes "立即吊销 “{label}”？使用这个 Key 的脚本和 AI 会马上失去访问权限。"))
      (some ((codes "label", c.label) ∷ []))

-- The error that `encodeURIComponent` throws is the parameter.
module _ (malformed : Text) where
  abbrev pub request_to : Option Text → List Effect
  request_to none = notify (error_message decimal (plain_error malformed)) ∷ []
  request_to (some id) = call (codes "/api/v1/credentials/" ++ id) "DELETE" none ∷ []

  abbrev pub on_revoke : Credential → Bool → List Effect
  on_revoke c false = confirm (question c) ∷ []
  on_revoke c true = confirm (question c) ∷ request_to (encode_uri_component c.credential_id)

  abbrev pub on_respond : Answer (Unit {0}) → List Effect
  on_respond (answered _) = notify (text (codes "Key 已吊销")) ∷ reload ∷ []
  on_respond (failed e) = notify (error_message decimal e) ∷ []

  unfoldable pub step : Bool → Event → Bool × List Effect
  step is_open open_form = (true, [])
  step is_open (in_form click) = (is_open && not (is_cancel click), [])
  step is_open (issued api_key) = (false, reveal api_key ∷ reload ∷ [])
  step is_open (revoke c ok) = (is_open, on_revoke c ok)
  step is_open (respond answer) = (is_open, on_respond answer)

-- `join`
abbrev pub join : Text → List Text → Text
join separator [] = []
join separator (t ∷ []) = t
join separator (t ∷ u ∷ more) = t ++ (separator ++ join separator (u ∷ more))

abbrev pub scope : Text → Credential → List (Item Event)
scope comma c =
    either (is_bootstrap c) (message "本机引导" [] ∷ [])
      (either c.all_resources (message "所有资源" [] ∷ []) (plain (join comma c.instance_ids) ∷ []))

abbrev pub permissions : Credential → List (Item Event)
permissions c =
    either (is_bootstrap c) (message "账号创建后失效" [] ∷ []) (each (λ a. plain a ∷ []) c.actions)

abbrev pub validity : I18n → Credential → List (Item Event)
validity i18n c =
    either (is_revoked c)
      (message "已失效 {time}" ((codes "time", i18n.format_time c.revoked_at_ms) ∷ []) ∷ [])
      (message "有效至 {time}" ((codes "time", i18n.format_time c.expires_at_ms) ∷ []) ∷ [])

-- Its event is the one with the answer of an owner who agrees.
abbrev pub revoke_button : Credential → List (Item Event)
revoke_button c = button true "吊销" [] (revoke c true) ∷ []

abbrev pub row_parts : I18n → Text → Credential → List (List (Item Event))
row_parts i18n comma c =
    (marked (is_revoked c) c.label ∷ plain c.credential_id ∷ [])
    ∷ permissions c
    ∷ scope comma c
    ∷ validity i18n c
    ∷ when (not (is_bootstrap c) && not (is_revoked c)) (revoke_button c)
    ∷ []

-- `CredentialRow`; `comma` is t("、").
abbrev pub row : I18n → Text → Credential → List (Item Event)
row i18n comma c = concat (row_parts i18n comma c)

abbrev pub vault_head : List (Item Event)
vault_head = message "访问 Key" [] ∷ message "给脚本和 AI 发最小权限。完整 Key 只出现一次。" [] ∷ []

abbrev pub open_button : List (Item Event)
open_button = button true "生成 Key" [] open_form ∷ []

abbrev pub no_credentials : List (Item Event)
no_credentials = message "还没有 Credential。" [] ∷ []

abbrev pub rows : I18n → Text → List Credential → List (Item Event)
rows i18n comma [] = no_credentials
rows i18n comma (c ∷ cs) = each (row i18n comma) (c ∷ cs)

-- `Credentials`, with the items of `KeyForm`.
abbrev pub page_parts :
    I18n → Text → List (Item Click) → List Credential → Bool → List (List (Item Event))
page_parts i18n comma form credentials is_open =
    vault_head
    ∷ when (not is_open) open_button
    ∷ when is_open (nested in_form form)
    ∷ rows i18n comma credentials
    ∷ []

unfoldable pub credentials_screen :
    I18n → Text → List (Item Click) → List Credential → Bool → List (Item Event)
credentials_screen i18n comma form credentials is_open =
    concat (page_parts i18n comma form credentials is_open)
