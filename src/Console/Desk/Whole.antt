-- ===== src/Console/Desk/Whole.antt =====
-- web/src/main.jsx, `ControlDesk` and `App`: the pages put together, with the events of each.
pub mod Messages
mod Tests
use senix.Prelude.{
  ℕ, Bool, true, false, String, Text, codes, List, [], ◌∷◌, ◌++◌, Option, none, some, if◌then◌else◌,
}
use senix.Locale.{Entry, translate, text}
use senix.Console.Api.{Value}
use senix.Console.Number.{Doubles}
use senix.Console.Screen.{I18n, Item, plain, message, entry, nested, concat}
use senix.Console.Maintenance.{Instance}
use senix.Console.Maintenance.Screen.{panel_view}
use senix.Console.Changes.{Change, Queue}
use senix.Console.Changes.Screen.{queue_screen}
use senix.Console.Certificates.{Certificate}
use senix.Console.Certificates.Screen.{certificates_screen}
use senix.Console.Credentials.{Credential, credentials_screen}
use senix.Console.Keys.{Form}
use senix.Console.Keys.Screen.{form_screen}
use senix.Console.Diagnostics.{Diagnosis, diagnosis_screen}
use senix.Console.Overview.{overview_screen}
use senix.Console.Audit.{Record, audit_screen}
use senix.Console.Secret.{Dialog, secret_screen}
use senix.Console.Login.{Login, language_select, login_screen}
use senix.Console.Desk.{Owner, unknown, signed_out, signed_in}
use senix.Console.Desk.Shell.{
  Page, overview, changes, diagnostics, credentials, certificates, audit, choose_language, sidebar,
  top_title, freshness, refresh_button,
}
use senix.Console.Maintenance
use senix.Console.Certificates
use senix.Console.Certificates.Screen
use senix.Console.Changes
use senix.Console.Credentials
use senix.Console.Diagnostics
use senix.Console.Overview
use senix.Console.Audit
use senix.Console.Secret
use senix.Console.Login
use senix.Console.Desk.Shell

-- The states of `ControlDesk` and of the components in it. `open_panels` has the state of the
-- panel of each instance.
pub record Pages : Type 0 where
  pub page : Page
  pub updated : Option Text
  pub notice : Entry
  pub instances : List Instance
  pub opened : String
  pub open_panels : Instance → Maintenance.View
  pub change_list : List Change
  pub queue : Queue
  pub diagnosis : Diagnosis
  pub credential_list : List Credential
  pub is_key_form_open : Bool
  pub form : Form
  pub certificate_list : List Certificate
  pub store_enabled : Bool
  pub certificate_panel : Certificates.Panel
  pub audit_events : List Record
  pub dialog : Dialog

pub data Event : Type 0 where
  in_shell : Shell.Event → Event
  in_overview : Overview.Event → Event
  in_changes : Changes.Event → Event
  in_diagnostics : Diagnostics.Event → Event
  in_credentials : Credentials.Event → Event
  in_certificates : Certificates.Screen.Event → Event
  in_audit : Audit.Event → Event
  in_dialog : Secret.Event → Event
  in_login : Login.Event → Event

-- What the pages use of the platform: numbers, `toUpperCase`, JSON, the ids in a selection.
pub record Browser : Type 0 where
  pub doubles : Doubles
  pub upper : String → String
  pub pretty : Value → Text
  pub id_of : Text → String

abbrev pub ids_of : List Instance → List String
ids_of [] = []
ids_of (item ∷ items) = item.id ∷ ids_of items

module _ (b : Browser) (i18n : I18n) (now : ℕ) where
  abbrev pub page_screen : Page → Pages → List (Item Event)
  page_screen overview v = nested in_overview (
      overview_screen (λ item. panel_view b.doubles i18n (v.open_panels item)) v.opened v.instances)
  page_screen changes v = nested in_changes (queue_screen i18n b.pretty now v.change_list v.queue)
  page_screen diagnostics v = nested in_diagnostics (diagnosis_screen b.upper v.diagnosis)
  page_screen credentials v = nested in_credentials (
      credentials_screen i18n (translate i18n.locale (text (codes "、")) [])
        (form_screen b.id_of (ids_of v.instances) v.form) v.credential_list v.is_key_form_open)
  page_screen certificates v =
      nested in_certificates
        (certificates_screen i18n now v.store_enabled v.certificate_list v.certificate_panel)
  page_screen audit v = nested in_audit (audit_screen i18n v.audit_events)

  abbrev pub desk_parts : Text → Pages → List (List (Item Event))
  desk_parts owner v =
      nested in_shell (sidebar owner v.page)
      ∷ nested in_shell (top_title v.page)
      ∷ nested in_shell (language_select choose_language (codes i18n.locale))
      ∷ nested in_shell (freshness v.updated)
      ∷ nested in_shell refresh_button
      ∷ page_screen v.page v
      ∷ nested in_dialog (secret_screen v.dialog)
      ∷ (entry v.notice ∷ [])
      ∷ []

  -- `ControlDesk`
  unfoldable pub desk_screen : Text → Pages → List (Item Event)
  desk_screen owner v = concat (desk_parts owner v)

  abbrev pub login_page : Login → List (Item Event)
  login_page l = nested in_login (login_screen (codes i18n.locale) l)

  -- `App`; an owner with no name is nobody.
  unfoldable pub app_screen : Owner → Login → Pages → List (Item Event)
  unfolding desk_screen
  app_screen unknown l v = message "正在连接 Senix…" [] ∷ []
  app_screen signed_out l v = login_page l
  app_screen (signed_in []) l v = login_page l
  app_screen (signed_in (c ∷ name)) l v = desk_screen (c ∷ name) v
