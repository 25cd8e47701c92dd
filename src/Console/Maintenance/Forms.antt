-- ===== src/Console/Maintenance/Forms.antt =====
-- What the forms check before they ask the server, and which form the operator is shown.
use senix.Prelude.{
  ℕ, Bool, true, false, not, str_eq, codes, List, [], ◌∷◌, Option, none, some, ◌&&◌, ◌||◌,
  if◌then◌else◌, Text,
}
use senix.Locale.{Entry, text, notice}
use senix.Console.Number.{
  Number, Doubles, is_finite, is_integer, is_safe_integer, is_below, is_above, is_equal, round,
}
use senix.Console.Maintenance.{
  Action, drain, weight, rejoin, disable, Change, drain_within, set_weight, rejoin_as, disable_now,
  Effect, send, calling, View,
}

abbrev pub is_idle : Option Action → Bool
is_idle none = true
is_idle (some _) = false

abbrev pub refuse : View → Entry → View × List Effect
refuse v e = (record v { panel = record v.panel { error = e } }, [])

-- The start of `run`, up to the answer of the server.
unfoldable pub start : View → Action → Change → View × List Effect
start v action change = (
  record v {
    panel = record v.panel { busy = some action; error = text [] };
    phase = calling action;
  },
  send v.instance_.id change ∷ [],
)

-- An integer from 0 to 10000.
abbrev pub is_weight : Number → Bool
is_weight w = is_integer w && not (is_below w 0) && not (is_above w 10000)

abbrev pub is_serving : View → Bool
is_serving v = str_eq v.instance_.traffic "SERVING"

abbrev pub can_rejoin : View → Bool
can_rejoin v = str_eq v.instance_.traffic "DRAINED" || str_eq v.instance_.traffic "DISABLED"

abbrev pub can_disable : View → Bool
can_disable v = not (str_eq v.instance_.traffic "DISABLED")

-- The button of an action can be pressed (its attribute `disabled`).
abbrev pub is_enabled : Doubles → Action → View → Bool
is_enabled d weight v =
    is_idle v.panel.busy && not (is_equal (d.of_text v.panel.weight) v.instance_.weight)
is_enabled d _ v = is_idle v.panel.busy

module _ (d : Doubles) (show : ℕ → Text) where
  unfoldable pub begin_drain : View → View × List Effect
  begin_drain v =
      let seconds = d.of_text v.panel.timeout_seconds in
      if not (is_finite seconds) || is_below seconds 1 || is_above seconds 86400
      then refuse v (text (codes "摘流等待时间必须在 1 秒到 24 小时之间。"))
      else start v drain (drain_within (round (d.times_1000 seconds)) v.panel.force_drain)

  unfoldable pub change_weight : View → View × List Effect
  change_weight v =
      let next = d.of_text v.panel.weight in
      if is_weight next
      then start v weight (set_weight next)
      else refuse v (text (codes "权重必须是 0 到 10000 之间的整数。"))

  unfoldable pub begin_rejoin : View → View × List Effect
  begin_rejoin v =
      let generation = d.of_text v.panel.generation in
      let next = d.of_text v.panel.rejoin_weight in
      if not (is_safe_integer generation) || not (is_above generation v.instance_.generation)
      then refuse v (
          notice (some (codes "新代次必须大于 {generation}。"))
            (some ((codes "generation", show v.instance_.generation) ∷ [])))
      else if is_weight next
      then start v rejoin (rejoin_as generation next v.panel.force_rejoin)
      else refuse v (text (codes "回接权重必须是 0 到 10000 之间的整数。"))

  unfoldable pub begin_disable : View → View × List Effect
  begin_disable v = start v disable disable_now

  -- What the operator sets off. The markup decides it: a form or a button has to be shown, by the
  -- conditions above, and the browser neither clicks a disabled button nor submits its form.
  unfoldable pub submit : Action → View → View × List Effect
  submit drain v = if is_serving v && is_enabled d drain v then begin_drain v else (v, [])
  submit weight v = if is_serving v && is_enabled d weight v then change_weight v else (v, [])
  submit rejoin v = if can_rejoin v && is_enabled d rejoin v then begin_rejoin v else (v, [])
  submit disable v =
      if can_disable v && v.panel.confirm_disable && is_enabled d disable v
      then begin_disable v
      else (v, [])
