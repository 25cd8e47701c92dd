-- ===== src/Console/Keys.antt =====
-- web/src/main.jsx, `KeyForm`: the form by which an owner issues an access key. The fields for the
-- name and the expiry and the checkboxes of the instances keep their own state in the page; here they
-- are part of the form, the boxes as the list of the checked ones, in order.
pub mod Screen
pub mod Messages
pub mod Scope
pub mod Template
mod Tests
use senix.Prelude.{
  ℕ, ◌*◌, ◌==◌, Bool, true, false, not, String, str_eq, Text, codes, List, [], ◌∷◌, ◌++◌, Option,
  none, some, map, any, ◌&&◌, ◌||◌, if◌then◌else◌,
}
use senix.Decimal.{read_number}
use senix.Locale.{Entry, text}
use senix.Console.Api.{Answer, answered, failed, error_message, one_of}

-- The values of `ACTIONS`, without the labels.
abbrev pub known_actions : List String
known_actions =
    "instance.read" ∷ "instance.drain" ∷ "instance.rejoin" ∷ "instance.set_weight"
    ∷ "instance.disable" ∷ "diagnostics.read" ∷ "metrics.read" ∷ "change.plan" ∷ "change.read"
    ∷ "change.apply" ∷ "certificate.read" ∷ "certificate.issue" ∷ "audit.read" ∷ []

pub record Preset : Type 0 where
  pub id : String
  pub actions : List String

-- `KEY_PRESETS`, without the labels and descriptions.
abbrev pub key_presets : List Preset
key_presets =
    record { id = "read"; actions = "instance.read" ∷ "diagnostics.read" ∷ "change.read" ∷ [] }
    ∷ record {
      id = "plan";
      actions = "instance.read" ∷ "diagnostics.read" ∷ "change.read" ∷ "change.plan" ∷ [];
    }
    ∷ record {
      id = "apply";
      actions =
          "instance.read" ∷ "diagnostics.read" ∷ "change.read" ∷ "change.plan" ∷ "change.apply"
          ∷ [];
    }
    ∷ []

abbrev pub global_actions : List String
global_actions =
    "diagnostics.read" ∷ "metrics.read" ∷ "change.plan" ∷ "change.read" ∷ "change.apply"
    ∷ "certificate.read" ∷ "certificate.issue" ∷ "audit.read" ∷ []

abbrev pub find_preset : String → List Preset → Option Preset
find_preset id [] = none
find_preset id (preset ∷ presets) =
    let rest = find_preset id presets in if str_eq preset.id id then some preset else rest

abbrev pub keep : (String → Bool) → List String → List String
keep test [] = []
keep test (s ∷ more) = let rest = keep test more in if test s then s ∷ rest else rest

pub record Form : Type 0 where
  pub preset_id : String
  pub selected_actions : List String
  pub all_resources : Bool
  pub checked_instances : List String
  pub label : Text
  pub expires : Text  -- the value of the selection, in hours
  pub error : Entry
  pub busy : Bool

abbrev pub blank : Form
blank = record {
  preset_id = "custom";
  selected_actions = [];
  all_resources = false;
  checked_instances = [];
  label = [];
  expires = codes "168";
  error = text [];
  busy = false;
}

-- The body of the request, but for its label and expiry.
-- `expires_at_ms` is given by its distance from the time of the submission; `none` is null.
pub record Grant : Type 0 where
  pub label : Text
  pub lifetime_ms : Option ℕ
  pub actions : List String
  pub instance_ids : List String
  pub all_resources : Bool

pub data Effect : Type 0 where
  nothing : Effect
  issue : Grant → Effect
  issued : (api_key : Text) → Effect

pub data Event : Type 0 where
  select_preset : String → Event
  toggle_action : String → Bool → Event
  toggle_all : Bool → Event
  check_instances : List String → Event
  type_label : Text → Event
  choose_expiry : Text → Event
  submit : Event
  respond : Answer Text → Event

abbrev pub preset_form : Option Preset → Form → Form
preset_form none f = record f { selected_actions = []; all_resources = false; error = text [] }
preset_form (some preset) f = record f {
  selected_actions = preset.actions;
  all_resources = true;
  error = text [];
}

-- The checked boxes of the actions, in the order of the page.
abbrev pub form_actions : Form → List String
form_actions f = keep (one_of f.selected_actions) known_actions

abbrev pub form_instances : Form → List String
form_instances f = if f.all_resources then [] else f.checked_instances

abbrev pub is_empty : List String → Bool
is_empty [] = true
is_empty (_ ∷ _) = false

abbrev pub needs_global_scope : List String → Bool
needs_global_scope actions = any (one_of global_actions) actions

-- `expiryHours ? … : null`. The number of hours is read from the digits of one of the options.
abbrev pub lifetime_of : ℕ → Option ℕ
lifetime_of hours = if hours == 0 then none else some (hours * 60 * 60 * 1000)

abbrev pub grant_of : Form → Grant
grant_of f = record {
  label = f.label;
  lifetime_ms = lifetime_of (read_number 0 f.expires).0;
  actions = form_actions f;
  instance_ids = form_instances f;
  all_resources = f.all_resources;
}

-- `submit`, up to the answer of the server. The button is disabled while the form is busy.
unfoldable pub submit_form : Form → Form × Effect
submit_form f =
    let actions = form_actions f in
    let instances = form_instances f in
    if f.busy
    then (f, nothing)
    else if is_empty actions || (not f.all_resources && is_empty instances)
    then (record f { error = text (codes "至少选择一个动作和一个实例范围。") }, nothing)
    else if needs_global_scope actions && not f.all_resources
    then (record f { error = text (codes "诊断、配置变更、证书和审计动作必须选择“所有当前和未来实例”。") }, nothing)
    else (record f { busy = true; error = text [] }, issue (grant_of f))

module _ (show : ℕ → Text) where
  unfoldable pub on_answer : Answer Text → Form → Form × Effect
  on_answer (answered api_key) f = (record f { busy = false }, issued api_key)
  on_answer (failed e) f = (record f { busy = false; error = error_message show e }, nothing)

  unfoldable pub step : Form → Event → Form × Effect
  unfolding submit_form on_answer
  step f (select_preset id) =
      (record (preset_form (find_preset id key_presets) f) { preset_id = id }, nothing)
  step f (toggle_action action true) = (
    record f {
      preset_id = "custom";
      selected_actions = f.selected_actions ++ action ∷ [];
      error = text [];
    },
    nothing,
  )
  step f (toggle_action action false) = (
    record f {
      preset_id = "custom";
      selected_actions = keep (λ item. not (str_eq item action)) f.selected_actions;
      error = text [];
    },
    nothing,
  )
  step f (toggle_all checked) =
      (record f { all_resources = checked; preset_id = "custom"; error = text [] }, nothing)
  step f (check_instances ids) = (record f { checked_instances = ids }, nothing)
  step f (type_label label) = (record f { label = label }, nothing)
  step f (choose_expiry expires) = (record f { expires = expires }, nothing)
  step f submit = submit_form f
  step f (respond answer) = if f.busy then on_answer answer f else (f, nothing)

  unfoldable pub run : Form → List Event → Form
  unfolding step
  run f [] = f
  run f (e ∷ later) = run (step f e).0 later
