-- ===== src/Console/Maintenance/Events.antt =====
-- What happens to the panel: the operator's edits, the buttons, the server's answers, the lists
-- loaded again, the timer of the poll, and a new rendering with a changed instance.
use senix.Prelude.{
  ℕ, ◌+◌, Bool, true, false, str_eq, Text, codes, List, [], ◌∷◌, ◌++◌, Option, none, some, ◌&&◌,
  if◌then◌else◌, ◌==◌,
}
use senix.Locale.{Entry, text, notice}
use senix.Console.Api.{
  Answer, answered, failed, ApiError, Value, error_message, code_is, member, Items, is_truthy,
  to_text,
}
use senix.Console.Number.{Doubles}
use senix.Console.Maintenance.{
  Instance, Operation, Action, drain, weight, rejoin, disable, Effect, poll, reload, notify, Phase,
  idle, calling, reloading, View, weight_or_100,
}
use senix.Console.Maintenance.Forms.{is_idle, can_disable, submit}

pub data Event : Type 0 where
  edit_weight edit_timeout edit_generation edit_rejoin_weight : Text → Event
  check_force_drain check_force_rejoin : Bool → Event
  ask_disable cancel_disable : Event
  press : Action → Event
  respond : Answer (Option Operation) → Event
  reloaded : Event
  tick : Event
  polled : (epoch : ℕ) → Answer Operation → Event
  props : Instance → Event

-- The dependencies of the polling effect.
abbrev pub same_watch : Option Operation → Option Operation → Bool
same_watch none none = true
same_watch (some a) (some b) = str_eq a.operation_id b.operation_id && str_eq a.status b.status
same_watch _ _ = false

-- `setOperation`, with the effect's new start where its dependencies change.
unfoldable pub set_operation : View → Option Operation → View
set_operation v operation = record v {
  panel = record v.panel { operation = operation };
  epoch = if same_watch v.panel.operation operation then v.epoch else v.epoch + 1;
}

abbrev pub same_instance : Instance → Instance → Bool
same_instance a b =
    str_eq a.id b.id
    && a.generation == b.generation
    && a.weight == b.weight
    && str_eq a.traffic b.traffic

module _ (d : Doubles) (show : ℕ → Text) (join : Items → Text) (includes : Text → Text → Bool) where
  -- `requestError.evidence?.route_id || ""`
  abbrev pub route_of : Option Value → Text
  route_of none = []
  route_of (some evidence) = elim (member "route_id" evidence) [
    | none ↦ []
    | some route ↦ if is_truthy route then to_text join route else []
  ]

  unfoldable pub explain : ApiError → Entry
  explain e =
      if code_is "LAST_AVAILABLE_BACKEND" e
      then notice (some (codes "这是路由 {route} 最后一个可用后端。确认业务可中断后，勾选 force 再摘流。"))
          (some ((codes "route", route_of e.evidence) ∷ []))
      else if code_is "INVALID_STATE" e && includes e.message (codes "not healthy")
      then text (codes "健康检查尚未通过。人工确认实例可用后，可以勾选强制回接。")
      else error_message show e

  -- The effect that follows a rendering with a changed instance.
  unfoldable pub sync : View → View
  unfolding set_operation
  sync v =
      let i = v.instance_ in
      let filled = record v {
        panel = record v.panel {
          weight = d.to_text i.weight;
          generation = d.to_text (i.generation + 1);
          rejoin_weight = d.to_text (weight_or_100 i.weight);
        };
      } in
      if str_eq i.traffic "DRAINING" then filled else set_operation filled none

  unfoldable pub set_instance : View → Instance → View
  unfolding sync
  set_instance v i =
      if same_instance v.instance_ i
      then record v { instance_ = i }
      else sync (record v { instance_ = i })

  -- `run`, when the server has answered: the lists are loaded again, or the error is shown.
  unfoldable pub receive : Action → Answer (Option Operation) → View → View × List Effect
  receive action (answered result) v = (record v { phase = reloading action result }, reload ∷ [])
  receive action (failed e) v =
      (record v { panel = record v.panel { error = explain e; busy = none }; phase = idle }, [])

  abbrev pub drain_notice : Operation → Entry
  drain_notice operation =
      if str_eq operation.status "DRAINED"
      then text (codes "实例已摘流")
      else text (codes "已停止分配新请求，正在等待在途请求结束")

  -- The rest of a handler, behind `await run(…)`.
  unfoldable pub finish : Action → Option Operation → View → View × List Effect
  unfolding set_operation
  finish action none v = (v, [])
  finish drain (some operation) v =
      (set_operation v (some operation), notify (drain_notice operation) ∷ [])
  finish weight (some _) v = (v, notify (text (codes "权重已更新")) ∷ [])
  finish rejoin (some _) v = (v, notify (text (codes "实例已按新代次回接")) ∷ [])
  finish disable (some _) v = (
    record v { panel = record v.panel { confirm_disable = false } },
    notify (text (codes "实例已禁用，只有显式回接才会恢复流量")) ∷ [],
  )

  unfoldable pub on_respond : Phase → Answer (Option Operation) → View → View × List Effect
  unfolding receive
  on_respond (calling action) answer v = receive action answer v
  on_respond _ answer v = (v, [])

  unfoldable pub on_reloaded : Phase → View → View × List Effect
  unfolding finish
  on_reloaded (reloading action result) v =
      finish action result (record v { panel = record v.panel { busy = none }; phase = idle })
  on_reloaded _ v = (v, [])

  abbrev pub poll_notice : Operation → Entry
  poll_notice operation =
      if str_eq operation.status "DRAINED"
      then text (codes "实例已完成摘流")
      else text (codes "摘流等待超时，实例仍不会接收新请求")

  -- The timer runs while the operation is draining.
  unfoldable pub on_tick : Option Operation → View → View × List Effect
  on_tick none v = (v, [])
  on_tick (some operation) v =
      if str_eq operation.status "DRAINING"
      then (v, poll operation.operation_id v.epoch ∷ [])
      else (v, [])

  -- The answer to a poll that was sent in an earlier epoch is cancelled.
  unfoldable pub on_polled : Answer Operation → View → View × List Effect
  unfolding set_operation
  on_polled (answered next) v =
      if str_eq next.status "DRAINING"
      then (set_operation v (some next), [])
      else (set_operation v (some next), notify (poll_notice next) ∷ reload ∷ [])
  on_polled (failed e) v =
      (record v { panel = record v.panel { error = error_message show e } }, [])

  unfoldable pub step : View → Event → View × List Effect
  unfolding on_respond on_reloaded on_tick on_polled set_instance
  step v (edit_weight s) = (record v { panel = record v.panel { weight = s } }, [])
  step v (edit_timeout s) = (record v { panel = record v.panel { timeout_seconds = s } }, [])
  step v (edit_generation s) = (record v { panel = record v.panel { generation = s } }, [])
  step v (edit_rejoin_weight s) = (record v { panel = record v.panel { rejoin_weight = s } }, [])
  step v (check_force_drain b) = (record v { panel = record v.panel { force_drain = b } }, [])
  step v (check_force_rejoin b) = (record v { panel = record v.panel { force_rejoin = b } }, [])
  step v ask_disable =
      if can_disable v && is_idle v.panel.busy
      then (record v { panel = record v.panel { confirm_disable = true } }, [])
      else (v, [])
  step v cancel_disable = (record v { panel = record v.panel { confirm_disable = false } }, [])
  step v (press action) = submit d show action v
  step v (respond answer) = on_respond v.phase answer v
  step v reloaded = on_reloaded v.phase v
  step v tick = on_tick v.panel.operation v
  step v (polled epoch answer) = if epoch == v.epoch then on_polled answer v else (v, [])
  step v (props i) = (set_instance v i, [])

  -- A run of the component: the last state, and the effects in order.
  unfoldable pub run : View → List Event → View × List Effect
  unfolding step
  run v [] = (v, [])
  run v (e ∷ events) =
      let (v', effects) = step v e in let (v'', more) = run v' events in (v'', effects ++ more)
