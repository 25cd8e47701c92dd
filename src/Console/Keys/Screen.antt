-- ===== src/Console/Keys/Screen.antt =====
-- web/src/main.jsx, what `KeyForm` shows.
use senix.Prelude.{
  Bool, true, false, not, String, str_eq, Text, codes, List, [], ◌∷◌, ◌++◌, if◌then◌else◌,
}
use senix.Console.Api.{one_of}
use senix.Console.Screen.{Item, plain, message, entry, button, input, checkbox, each, concat}
use senix.Console.Keys.{
  Form, Event, select_preset, toggle_action, toggle_all, check_instances, type_label, choose_expiry,
  submit, keep,
}

-- The events of the form, and the button that cancels it.
pub data Click : Type 0 where
  act : Event → Click
  cancel : Click

-- `ACTIONS`: each action with its label.
abbrev pub action_labels : List (String × String)
action_labels =
    ("instance.read", "查看实例")
    ∷ ("instance.drain", "摘除流量")
    ∷ ("instance.rejoin", "回接实例")
    ∷ ("instance.set_weight", "调整权重")
    ∷ ("instance.disable", "禁用实例")
    ∷ ("diagnostics.read", "运行诊断")
    ∷ ("metrics.read", "读取监控指标")
    ∷ ("change.plan", "规划变更")
    ∷ ("change.read", "查看变更")
    ∷ ("change.apply", "应用已批准变更")
    ∷ ("certificate.read", "查看证书")
    ∷ ("certificate.issue", "签发证书")
    ∷ ("audit.read", "查看审计")
    ∷ []

-- The description of the template that is shown, or the text for choices of one's own.
abbrev pub description_of : String → String
description_of id =
    if str_eq id "read"
    then "查看实例、运行诊断和读取当前配置，不能修改网关。"
    else if str_eq id "plan"
    then "读取当前配置并生成变更或回滚计划，不能批准或应用。"
    else if str_eq id "apply"
    then "生成计划，并应用 Owner 已批准的精确内容。不能批准计划或操作实例流量。"
    else "手动选择允许动作和实例范围。调整模板中的权限后会切换为自定义。"

-- A selection of an id is an event with this id; the options are those of the page.
module _ (id_of : Text → String) where
  abbrev pub preset_part : Form → List (Item Click)
  preset_part f =
      message "用途模板" []
      ∷ message "选择用途" []
      ∷ input (codes f.preset_id) (λ id. act (select_preset (id_of id)))
      ∷ message "自定义权限" []
      ∷ message "只读诊断" []
      ∷ message "配置提案" []
      ∷ message "配置协作" []
      ∷ message (description_of f.preset_id) []
      ∷ message "诊断和配置动作需要全局范围。模板覆盖所有当前和未来实例，请核对下方权限后签发；Key 不会自动生成。" []
      ∷ []

abbrev pub name_part : Form → List (Item Click)
name_part f =
    message "名称" []
    ∷ input f.label (λ s. act (type_label s))
    ∷ message "有效期" []
    ∷ input f.expires (λ s. act (choose_expiry s))
    ∷ message "24 小时" []
    ∷ message "7 天" []
    ∷ message "30 天" []
    ∷ message "不过期" []
    ∷ message "允许动作" []
    ∷ []

abbrev pub option_of : Form → String → String → List (Item Click)
option_of f action label =
    checkbox true (one_of f.selected_actions action) (λ b. act (toggle_action action b))
    ∷ message label []
    ∷ plain (codes action)
    ∷ []

abbrev pub options_of : Form → List (String × String) → List (Item Click)
options_of f [] = []
options_of f ((action, label) ∷ more) = option_of f action label ++ options_of f more

abbrev pub scope_part : Form → List (Item Click)
scope_part f =
    message "实例范围" []
    ∷ checkbox true f.all_resources (λ b. act (toggle_all b))
    ∷ message "所有当前和未来实例" []
    ∷ []

-- The boxes that are checked after a click on one of them.
abbrev pub checked_after : List String → String → Bool → List String
checked_after ids id true = ids ++ id ∷ []
checked_after ids id false = keep (λ other. not (str_eq other id)) ids

abbrev pub instance_option : Form → String → List (Item Click)
instance_option f id =
    checkbox (not f.all_resources) (one_of f.checked_instances id)
      (λ b. act (check_instances (checked_after f.checked_instances id b)))
    ∷ plain (codes id)
    ∷ []

abbrev pub no_instances : List (Item Click)
no_instances = message "暂无实例" [] ∷ []

abbrev pub picker : Form → List String → List (Item Click)
picker f [] = no_instances
picker f (id ∷ ids) = each (instance_option f) (id ∷ ids)

abbrev pub form_buttons : Form → List (Item Click)
form_buttons f =
    entry f.error
    ∷ button true "取消" [] cancel
    ∷ button (not f.busy) (if f.busy then "正在生成…" else "生成 Key") [] (act submit)
    ∷ []

abbrev pub form_parts : (Text → String) → List String → Form → List (List (Item Click))
form_parts id_of ids f =
    preset_part id_of f
    ∷ name_part f
    ∷ options_of f action_labels
    ∷ scope_part f
    ∷ picker f ids
    ∷ form_buttons f
    ∷ []

-- `KeyForm`, with the ids of the instances.
unfoldable pub form_screen : (Text → String) → List String → Form → List (Item Click)
form_screen id_of ids f = concat (form_parts id_of ids f)
