-- ===== src/Console/Maintenance/Settling.antt =====
-- web/src/main.jsx, `MaintenancePanel`: when the handler of a change ends.
use senix.Prelude.{
  ℕ, suc, ◌+◌, Bool, Text, List, [], ◌∷◌, ◌++◌, Option, none, some, ◌≡◌, refl, ap, ◌∙◌, arith,
}
use senix.Console.Api.{Answer, answered, failed, ApiError, Items}
use senix.Console.Number.{Doubles}
use senix.Console.Maintenance.{
  Instance, Operation, Action, drain, weight, rejoin, disable, idle, calling, reloading, View,
  mount,
}
use senix.Console.Maintenance.Forms.{submit}
use senix.Console.Maintenance.Events.{
  Event, press, respond, reloaded, set_operation, explain, sync, receive, finish, step, run,
}
use senix.Console.Maintenance.Busy.{
  busy_of, IsInStep, responses, responses-cons, step-Keeps, run-mount-one_at_a_time,
}

abbrev pub reloads : List Event → ℕ
reloads [] = 0
reloads (reloaded ∷ events) = suc (reloads events)
reloads (_ ∷ events) = reloads events

reloads-cons :
    (e : Event) (events : List Event) → reloads (e ∷ events) ≡ reloads (e ∷ []) + reloads events
reloads-cons reloaded events = omega arith
reloads-cons _ events = omega arith

-- What has happened when a handler has ended: a failed request ends it at once, after a good answer
-- it waits for the lists as well.
abbrev pub ending : List Event → Answer (Option Operation) → List Event → List Event
ending xs (failed e) ys = xs ++ respond (failed e) ∷ []
ending xs (answered result) ys = ((xs ++ respond (answered result) ∷ []) ++ ys) ++ reloaded ∷ []

module _ (d : Doubles) (show : ℕ → Text) where
  submit-waiting :
      (action other : Action) (v : View)
      → v.panel.busy ≡ some action
      → (submit d show other v).0.phase ≡ v.phase
  unfolding submit
  submit-waiting action drain v h = ground arith
  submit-waiting action weight v h = ground arith
  submit-waiting action rejoin v h = ground arith
  submit-waiting action disable v h = ground arith

module _ (d : Doubles) (show : ℕ → Text) (join : Items → Text) (includes : Text → Text → Bool) where
  -- While the server has not answered, nothing else ends the handler.
  step-calling :
      (v : View) (e : Event) (action : Action)
      → IsInStep v
      → v.phase ≡ calling action
      → responses (e ∷ []) ≡ 0
      → (step d show join includes v e).0.phase ≡ calling action
  unfolding step sync set_operation
  step-calling v (press other) action h k n =
      submit-waiting d show action other v (h ∙ ap busy_of k) ∙ k
  step-calling v (respond answer) action h k n = ground arith
  step-calling v _ action h k n = ground arith

  -- While the lists are not loaded, nothing else ends the handler.
  step-reloading :
      (v : View) (e : Event) (action : Action) (result : Option Operation)
      → IsInStep v
      → v.phase ≡ reloading action result
      → reloads (e ∷ []) ≡ 0
      → (step d show join includes v e).0.phase ≡ reloading action result
  unfolding step sync set_operation
  step-reloading v (press other) action result h k n =
      submit-waiting d show action other v (h ∙ ap busy_of k) ∙ k
  step-reloading v reloaded action result h k n = ground arith
  step-reloading v _ action result h k n = ground arith

  run-calling :
      (v : View) (events : List Event) (action : Action)
      → IsInStep v
      → v.phase ≡ calling action
      → responses events ≡ 0
      → (run d show join includes v events).0.phase ≡ calling action
  unfolding run
  run-calling v [] action h k n = k
  run-calling v (e ∷ events) action h k n =
      run-calling (step d show join includes v e).0 events action
        (step-Keeps d show join includes v e h).0
        (step-calling v e action h k (omega (arith, responses-cons d show join includes e events)))
        (omega (arith, responses-cons d show join includes e events))

  run-reloading :
      (v : View) (events : List Event) (action : Action) (result : Option Operation)
      → IsInStep v
      → v.phase ≡ reloading action result
      → reloads events ≡ 0
      → (run d show join includes v events).0.phase ≡ reloading action result
  unfolding run
  run-reloading v [] action result h k n = k
  run-reloading v (e ∷ events) action result h k n =
      run-reloading (step d show join includes v e).0 events action result
        (step-Keeps d show join includes v e h).0
        (step-reloading v e action result h k (omega (arith, reloads-cons e events)))
        (omega (arith, reloads-cons e events))

  run-append :
      (v : View) (xs ys : List Event)
      → (run d show join includes v (xs ++ ys)).0
        ≡ (run d show join includes (run d show join includes v xs).0 ys).0
  unfolding run
  run-append v [] ys = refl
  run-append v (x ∷ xs) ys = run-append (step d show join includes v x).0 xs ys

  respond-answered :
      (v : View) (action : Action) (result : Option Operation)
      → v.phase ≡ calling action
      → (step d show join includes v (respond (answered result))).0.phase ≡ reloading action result
  unfolding step receive
  respond-answered v action result h = ground arith

  respond-failed :
      (v : View) (action : Action) (e : ApiError)
      → v.phase ≡ calling action
      → let w = (step d show join includes v (respond (failed e))).0 in
        (w.phase ≡ idle) × (w.panel.error ≡ explain d show join includes e)
  unfolding step receive
  respond-failed v action e h = ground arith

  reloaded-idle :
      (v : View) (action : Action) (result : Option Operation)
      → v.phase ≡ reloading action result
      → (step d show join includes v reloaded).0.phase ≡ idle
  unfolding step finish set_operation
  reloaded-idle v action none h = ground arith
  reloaded-idle v drain (some operation) h = ground arith
  reloaded-idle v _ (some operation) h = ground arith

  -- The panel after `events`, from its mounting on.
  abbrev pub after : Instance → List Event → View
  after i events = (run d show join includes (mount d i) events).0

  after-IsInStep : (i : Instance) (events : List Event) → IsInStep (after i events)
  after-IsInStep i events = (run-mount-one_at_a_time d show join includes i events).0

  after-append :
      (i : Instance) (xs ys : List Event)
      → after i (xs ++ ys) ≡ (run d show join includes (after i xs) ys).0
  after-append i xs ys = run-append (mount d i) xs ys

  after-step :
      (i : Instance) (xs : List Event) (e : Event)
      → after i (xs ++ e ∷ []) ≡ (step d show join includes (after i xs) e).0
  unfolding run
  after-step i xs e = after-append i xs (e ∷ [])

  abbrev pub ShowsFailure : Answer (Option Operation) → View → Type 0
  ShowsFailure (failed e) v = v.panel.error ≡ explain d show join includes e
  ShowsFailure (answered result) v = Unit

  waiting :
      (i : Instance) (before xs : List Event) (action : Action)
      → (after i before).phase ≡ calling action
      → responses xs ≡ 0
      → (after i (before ++ xs)).phase ≡ calling action
  waiting i before xs action h n =
      ap (λ (v : View). v.phase) (after-append i before xs)
      ∙ run-calling (after i before) xs action (after-IsInStep i before) h n

  ends :
      (i : Instance) (xs ys : List Event) (action : Action) (answer : Answer (Option Operation))
      → (after i xs).phase ≡ calling action
      → reloads ys ≡ 0
      → ((after i (ending xs answer ys)).phase ≡ idle)
        × ShowsFailure answer (after i (ending xs answer ys))
  ends i xs ys action (failed e) h n =
      let (over, shown) = respond-failed (after i xs) action e h in
      let last = after-step i xs (respond (failed e)) in
      (ap (λ (v : View). v.phase) last ∙ over, ap (λ (v : View). v.panel.error) last ∙ shown)
  ends i xs ys action (answered result) h n =
      let xs' = xs ++ respond (answered result) ∷ [] in
      let loads =
        ap (λ (v : View). v.phase) (after-step i xs (respond (answered result)))
        ∙ respond-answered (after i xs) action result h in
      let still =
        ap (λ (v : View). v.phase) (after-append i xs' ys)
        ∙ run-reloading (after i xs') ys action result (after-IsInStep i xs') loads n in
      (
        ap (λ (v : View). v.phase) (after-step i (xs' ++ ys) reloaded)
            ∙ reloaded-idle (after i (xs' ++ ys)) action result still,
        tt,
      )

  -- From the mounting of the panel on, once a handler has sent its request: until the server answers,
  -- `busy` names this handler, whatever else happens; a failed request ends it at once and its error
  -- is shown; after a good answer, whatever happens until the lists are loaded, that ends it. When it
  -- has ended, `busy` is empty again.
  pub run_settles :
      (i : Instance) (before xs ys : List Event) (action : Action)
      (answer : Answer (Option Operation))
      → (after i before).phase ≡ calling action
      → responses xs ≡ 0
      → reloads ys ≡ 0
      → let w = after i (ending (before ++ xs) answer ys) in
        ((after i (before ++ xs)).panel.busy ≡ some action)
        × (w.phase ≡ idle)
        × (w.panel.busy ≡ none)
        × ShowsFailure answer w
  run_settles i before xs ys action answer h n m =
      let asked = waiting i before xs action h n in
      let (over, shown) = ends i (before ++ xs) ys action answer asked m in
      (
        after-IsInStep i (before ++ xs) ∙ ap busy_of asked,
        over,
        after-IsInStep i (ending (before ++ xs) answer ys) ∙ ap busy_of over,
        shown,
      )
