-- ===== src/Console/Login.antt =====
-- web/src/main.jsx, `Login`: the form by which the owner signs in. The fields keep their own text
-- in the page, and hand it over with the submission.
pub mod Messages
use senix.Prelude.{
  ℕ, Bool, true, false, not, Text, codes, List, [], ◌∷◌, ◌++◌, Option, none, some, if◌then◌else◌,
}
use senix.Locale.{Entry, text}
use senix.Console.Api.{Value, string, object, field, end, Answer, answered, failed, code_is}
use senix.Console.Effects.{Effect, call, sign_in}
use senix.Console.Screen.{Item, plain, message, hint, entry, button, input}

pub record Login : Type 0 where
  pub error : Entry
  pub busy : Bool

abbrev pub first_login : Login
first_login = record { error = text []; busy = false }

pub data Event : Type 0 where
  type_in : Text → Event  -- an edit of a field, which the component does not see
  choose_language : Text → Event  -- `LanguageSelect`
  submit : (username password : Text) → Event
  respond : Answer Text → Event  -- with the user name of the session

abbrev pub login_request : Text → Text → Effect
login_request username password =
    call (codes "/api/v1/auth/login") "POST"
      (some (object (field "username" (string username) (field "password" (string password) end))))

abbrev pub on_answer : Answer Text → Login → Login × List Effect
on_answer (answered username) l = (record l { busy = false }, sign_in username ∷ [])
on_answer (failed e) l = (
  record l {
    busy = false;
    error =
        if code_is "OWNER_ACCOUNT_NOT_INITIALIZED" e
        then text (codes "尚未初始化所有者账号，请先在服务器本机运行引导命令。")
        else text (codes "用户名或密码不正确。");
  },
  [],
)

unfoldable pub step : Login → Event → Login × List Effect
step l (type_in s) = (l, [])
step l (choose_language s) = (l, [])
step l (submit username password) =
    if l.busy
    then (l, [])
    else (record l { busy = true; error = text [] }, login_request username password ∷ [])
step l (respond answer) = if l.busy then on_answer answer l else (l, [])

-- `LanguageSelect` of web/src/i18n.jsx, with the locale in its field.
abbrev pub language_select {ℓ} : {E : Type ℓ} → (Text → E) → Text → List (Item E)
language_select choose locale =
    message "语言" [] ∷ input locale choose ∷ plain (codes "简体中文") ∷ plain (codes "English") ∷ []

abbrev pub login_form : Login → List (Item Event)
login_form l =
    plain (codes "Gateway control desk")
    ∷ plain (codes "Senix")
    ∷ message "用所有者账号进入管理面。部署脚本和 MCP 继续使用独立的受限 Key。" []
    ∷ message "用户名" []
    ∷ input [] type_in
    ∷ message "密码" []
    ∷ input [] type_in
    ∷ entry l.error
    ∷ button (not l.busy) (if l.busy then "正在验证…" else "进入控制台") [] (submit [] [])
    ∷ message "尚未初始化账号时，请在网关服务器本机运行 " []
    ∷ plain (codes "senixd owner bootstrap")
    ∷ message "。" []
    ∷ []

abbrev pub login_rail : List (Item Event)
login_rail =
    hint "Senix 管理边界" []
    ∷ message "业务流量" []
    ∷ message "Pingora 数据面持续运行" []
    ∷ message "管理入口" []
    ∷ message "Owner 会话与 Key 使用同一权限边界" []
    ∷ message "控制动作" []
    ∷ message "关键操作留下审计记录" []
    ∷ []

unfoldable pub login_screen : Text → Login → List (Item Event)
login_screen locale l = language_select choose_language locale ++ (login_form l ++ login_rail)
