-- ===== src/Console/Maintenance/Screen.antt =====
-- web/src/main.jsx, `MaintenancePanel`: what the panel shows, and where its buttons lead.
pub mod Messages
use senix.Prelude.{
  ℕ, ◌+◌, Bool, true, false, not, String, str_eq, Text, codes, List, [], ◌∷◌, ◌++◌, Option, none,
  some, ◌&&◌, if◌then◌else◌,
}
use senix.Decimal.{decimal}
use senix.Console.Api.{state_tone}
use senix.Console.Number.{Doubles, is_equal}
use senix.Console.Screen.{
  I18n, Item, plain, toned, message, hint, entry, button, input, checkbox, when, either, concat,
}
use senix.Console.Maintenance.{Operation, Action, drain, weight, rejoin, disable, View}
use senix.Console.Maintenance.Forms.{is_idle, is_enabled, is_serving, can_rejoin, can_disable}
use senix.Console.Maintenance.Events.{
  Event, edit_weight, edit_timeout, edit_generation, edit_rejoin_weight, check_force_drain,
  check_force_rejoin, ask_disable, cancel_disable, press,
}

-- The panel's own events, and the button that closes it.
pub data Click : Type 0 where
  act : Event → Click
  close_panel : Click

abbrev pub is_busy : Option Action → Action → Bool
is_busy (some drain) drain = true
is_busy (some rejoin) rejoin = true
is_busy _ _ = false

abbrev pub is_draining : View → Bool
is_draining v = str_eq v.instance_.traffic "DRAINING"

abbrev pub has_operation : Option Operation → Bool
has_operation none = false
has_operation (some _) = true

abbrev pub progress : I18n → Option Operation → List (Item Click)
progress i18n none = []
progress i18n (some operation) =
    message "摘流进度" []
    ∷ toned (state_tone operation.status) (codes operation.status)
    ∷ message "普通在途" []
    ∷ plain (decimal operation.ordinary_in_flight)
    ∷ message "长连接" []
    ∷ plain (decimal operation.long_lived_in_flight)
    ∷ message "截止时间" []
    ∷ plain (i18n.format_time operation.deadline_at_ms)
    ∷ []

abbrev pub panel_head : View → List (Item Click)
panel_head v =
    plain (codes "Manual control")
    ∷ message "实例维护 / " []
    ∷ plain (codes v.instance_.id)
    ∷ hint "关闭实例维护" []
    ∷ button true "关闭" [] close_panel
    ∷ []

-- The instance drains, but not by this page.
abbrev pub foreign_drain : List (Item Click)
foreign_drain = message "实例正在摘流。当前页面没有发起这次操作，因此不持有 operation_id；脚本仍可用原 operation_id 查询进度。" [] ∷ []

module _ (d : Doubles) where
  abbrev pub weight_form : View → List (Item Click)
  weight_form v =
      plain (codes "01")
      ∷ message "调整权重" []
      ∷ message "只影响后续新请求，不改变现有连接。" []
      ∷ message "新权重" []
      ∷ input v.panel.weight (λ s. act (edit_weight s))
      ∷ button (is_enabled d weight v) "保存权重" [] (act (press weight))
      ∷ []

  abbrev pub drain_form : View → List (Item Click)
  drain_form v =
      plain (codes "02")
      ∷ message "开始摘流" []
      ∷ message "立即停止新请求，等待当前请求自然结束。" []
      ∷ message "最长等待（秒）" []
      ∷ input v.panel.timeout_seconds (λ s. act (edit_timeout s))
      ∷ checkbox true v.panel.force_drain (λ b. act (check_force_drain b))
      ∷ plain (codes "force")
      ∷ message " 允许最后一个后端进入维护" []
      ∷ button (is_enabled d drain v) (if is_busy v.panel.busy drain then "正在摘流…" else "开始摘流") []
          (act (press drain))
      ∷ []

  abbrev pub rejoin_form : View → List (Item Click)
  rejoin_form v =
      plain (codes "01")
      ∷ message "以新代次回接" []
      ∷ message "不会因健康恢复自动接流，必须在这里或通过脚本显式回接。" []
      ∷ message "新代次" []
      ∷ input v.panel.generation (λ s. act (edit_generation s))
      ∷ message "权重" []
      ∷ input v.panel.rejoin_weight (λ s. act (edit_rejoin_weight s))
      ∷ checkbox true v.panel.force_rejoin (λ b. act (check_force_rejoin b))
      ∷ message "人工确认健康，强制回接" []
      ∷ button (is_enabled d rejoin v) (if is_busy v.panel.busy rejoin then "正在回接…" else "以新代次回接")
          [] (act (press rejoin))
      ∷ []

  abbrev pub disable_head : View → List (Item Click)
  disable_head v =
      plain (codes (if is_serving v then "03" else "02"))
      ∷ message "禁用实例" []
      ∷ message "持续阻止新请求，健康恢复也不会自动启用。" []
      ∷ []

  abbrev pub disable_confirm : View → List (Item Click)
  disable_confirm v =
      message "确定禁用 {id}？" ((codes "id", codes v.instance_.id) ∷ [])
      ∷ button true "取消" [] (act cancel_disable)
      ∷ button (is_enabled d disable v) "确认禁用" [] (act (press disable))
      ∷ []

  abbrev pub disable_ask : View → List (Item Click)
  disable_ask v = button (is_idle v.panel.busy) "禁用实例" [] (act ask_disable) ∷ []

  abbrev pub disable_form : View → List (Item Click)
  disable_form v =
      disable_head v ++ either v.panel.confirm_disable (disable_confirm v) (disable_ask v)

  abbrev pub panel_parts : I18n → View → List (List (Item Click))
  panel_parts i18n v =
      panel_head v
      ∷ progress i18n v.panel.operation
      ∷ when (is_draining v && not (has_operation v.panel.operation)) foreign_drain
      ∷ when (is_serving v) (weight_form v)
      ∷ when (is_serving v) (drain_form v)
      ∷ when (can_rejoin v) (rejoin_form v)
      ∷ when (can_disable v) (disable_form v)
      ∷ (entry v.panel.error ∷ [])
      ∷ []

  unfoldable pub panel_view : I18n → View → List (Item Click)
  panel_view i18n v = concat (panel_parts i18n v)
