-- ===== src/Console/Audit.antt =====
-- web/src/main.jsx, `Audit`: the recorded actions.
use senix.Prelude.{ℕ, Text, codes, List, [], ◌∷◌, ◌++◌, Option, refl}
use senix.Locale.{scan}
use senix.Locale.Templates.{fields}
use senix.Console.Screen.{I18n, Item, plain, message, each}
use senix.Console.Screen.Coverage.{
  IsCovered, is_translated, all-IsCovered, append-IsCovered, each-IsCovered,
}

pub record Record : Type 0 where
  pub occurred_at_ms : Option ℕ
  pub action : Text
  pub credential_label : Text
  pub resource_type : Text
  pub resource_id : Text
  pub outcome : Text

-- The page has no controls.
pub data Event : Type 0 where

abbrev pub resource : Text → Text → Text
resource kind [] = kind
resource kind (c ∷ id) = kind ++ (codes " / " ++ c ∷ id)

abbrev pub entry_lines : I18n → Record → List (Item Event)
entry_lines i18n e =
    plain (i18n.format_time e.occurred_at_ms)
    ∷ plain e.action
    ∷ plain e.credential_label
    ∷ plain (resource e.resource_type e.resource_id)
    ∷ plain e.outcome
    ∷ []

abbrev pub audit_head : List (Item Event)
audit_head = message "审计记录" [] ∷ message "这里记录操作者、动作、资源和结果，不保存 Key 或请求密文。" [] ∷ []

abbrev pub no_records : List (Item Event)
no_records = message "还没有审计记录。" [] ∷ []

abbrev pub records : I18n → List Record → List (Item Event)
records i18n [] = no_records
records i18n (e ∷ events) = each (entry_lines i18n) (e ∷ events)

unfoldable pub audit_screen : I18n → List Record → List (Item Event)
audit_screen i18n events = audit_head ++ records i18n events

audit_head-IsCovered : IsCovered audit_head
unfolding is_translated scan fields
audit_head-IsCovered = all-IsCovered refl

no_records-IsCovered : IsCovered no_records
unfolding is_translated scan fields
no_records-IsCovered = all-IsCovered refl

records-IsCovered : (i18n : I18n) (events : List Record) → IsCovered (records i18n events)
records-IsCovered i18n [] = no_records-IsCovered
records-IsCovered i18n (e ∷ events) =
    each-IsCovered (entry_lines i18n) (e ∷ events) (λ e. all-IsCovered refl)

pub audit_screen-IsCovered :
    (i18n : I18n) (events : List Record) → IsCovered (audit_screen i18n events)
unfolding audit_screen
audit_screen-IsCovered i18n events =
    append-IsCovered audit_head _ audit_head-IsCovered (records-IsCovered i18n events)
