-- ===== src/Console/Maintenance/Busy.antt =====
-- The changes that the panel has asked the server for, and what `busy` says of them.
use senix.Prelude.{
  ℕ, suc, ◌+◌, ◌≤◌, Bool, Text, List, [], ◌∷◌, ◌++◌, Option, none, some, ◌≡◌, refl, arith,
}
use senix.Console.Api.{Items}
use senix.Console.Number.{Doubles}
use senix.Console.Maintenance.{
  Instance, Action, drain, weight, rejoin, disable, Effect, send, poll, reload, notify, Phase, idle,
  calling, reloading, View, mount,
}
use senix.Console.Maintenance.Forms.{
  start, begin_drain, change_weight, begin_rejoin, begin_disable, submit,
}
use senix.Console.Maintenance.Events.{
  Event, ask_disable, press, respond, reloaded, tick, polled, props, set_operation, sync, receive,
  finish, step, run,
}

abbrev pub busy_of : Phase → Option Action
busy_of idle = none
busy_of (calling action) = some action
busy_of (reloading action result) = some action

-- `busy` names the handler that is at work.
abbrev pub IsInStep : View → Type 0
IsInStep v = v.panel.busy ≡ busy_of v.phase

-- How many changes the server has been asked for and has not answered.
abbrev pub outstanding : Phase → ℕ
outstanding (calling _) = 1
outstanding _ = 0

abbrev pub sends : List Effect → ℕ
sends [] = 0
sends (send _ _ ∷ effects) = suc (sends effects)
sends (_ ∷ effects) = sends effects

abbrev pub responses : List Event → ℕ
responses [] = 0
responses (respond _ ∷ events) = suc (responses events)
responses (_ ∷ events) = responses events

-- One step keeps `busy` in step, and each request is answered before the next is sent.
abbrev Keeps : View → Event → View × List Effect → Type 0
Keeps v e r =
    IsInStep r.0 × (sends r.1 + outstanding v.phase ≤ outstanding r.0.phase + responses (e ∷ []))

outstanding-le-one : (phase : Phase) → outstanding phase ≤ 1
outstanding-le-one idle = omega arith
outstanding-le-one (calling action) = omega arith
outstanding-le-one (reloading action result) = omega arith

module _ (d : Doubles) (show : ℕ → Text) where
  submit-Keeps :
      (action : Action) (v : View) → IsInStep v → Keeps v (press action) (submit d show action v)
  unfolding submit begin_drain change_weight begin_rejoin begin_disable start
  submit-Keeps drain v h = ground arith
  submit-Keeps weight v h = ground arith
  submit-Keeps rejoin v h = ground arith
  submit-Keeps disable v h = ground arith

module _ (d : Doubles) (show : ℕ → Text) (join : Items → Text) (includes : Text → Text → Bool) where
  pub step-Keeps : (v : View) (e : Event) → IsInStep v → Keeps v e (step d show join includes v e)
  unfolding step finish receive set_operation sync
  step-Keeps v (press action) h = submit-Keeps d show action v h
  step-Keeps v (respond answer) h = ground arith
  step-Keeps v reloaded h = ground arith
  step-Keeps v (polled epoch answer) h = ground arith
  step-Keeps v (props i) h = ground arith
  step-Keeps v tick h = ground arith
  step-Keeps v ask_disable h = ground arith
  step-Keeps v _ h = ground arith

  sends-append : (xs ys : List Effect) → sends (xs ++ ys) ≡ sends xs + sends ys
  sends-append [] ys = omega arith
  sends-append (send i c ∷ xs) ys = omega (arith, sends-append xs ys)
  sends-append (poll i e ∷ xs) ys = sends-append xs ys
  sends-append (reload ∷ xs) ys = sends-append xs ys
  sends-append (notify e ∷ xs) ys = sends-append xs ys

  pub responses-cons :
      (e : Event) (events : List Event)
      → responses (e ∷ events) ≡ responses (e ∷ []) + responses events
  responses-cons (respond answer) events = omega arith
  responses-cons _ events = omega arith

  run-Keeps :
      (v : View) (events : List Event)
      → IsInStep v
      → IsInStep (run d show join includes v events).0
        × (sends (run d show join includes v events).1 + outstanding v.phase
            ≤ outstanding (run d show join includes v events).0.phase + responses events)
  unfolding run
  run-Keeps v [] h = (h, omega arith)
  run-Keeps v (e ∷ events) h =
      let (kept, one) = step-Keeps v e h in
      let v' = (step d show join includes v e).0 in
      let (later, more) = run-Keeps v' events kept in
      (
        later,
        omega (
          arith,
          sends-append (step d show join includes v e).1 (run d show join includes v' events).1,
          responses-cons e events,
        ),
      )

  -- From the mounting of the panel on, whatever the operator, the server and the timer do: `busy`
  -- names the handler that is at work and is empty if none is, and at most one change that was sent
  -- to the server is not yet answered.
  pub run-mount-one_at_a_time :
      (i : Instance) (events : List Event)
      → let (v, effects) = run d show join includes (mount d i) events in
        (v.panel.busy ≡ busy_of v.phase) × (sends effects ≤ responses events + 1)
  unfolding mount
  run-mount-one_at_a_time i events =
      let (kept, bound) = run-Keeps (mount d i) events refl in
      (
        kept,
        omega (
          arith,
          bound,
          outstanding-le-one (run d show join includes (mount d i) events).0.phase,
        ),
      )
