-- ===== src/Console/Changes/Requests.antt =====
-- The requests of the change queue that are on their way.
use senix.Prelude.{
  ℕ, suc, ◌+◌, ◌≤◌, Bool, true, false, Text, codes, List, [], ◌∷◌, ◌++◌, Option, none, some, ◌≡◌,
  refl, arith, Bool-cases, inl, inr,
}
use senix.Console.Api.{Value}
use senix.Console.Effects.{Effect, call, notify, reload, copy, confirm, reveal, sign_in, sign_out}
use senix.Console.Changes.{
  Action, Phase, idle, planning, acting, reloading, Queue, Event, edit, plan, act, planned, done,
  reloaded, current, is_blank, name_of, send_plan, step, run, blank_queue,
}

abbrev pub is_resting : Phase → Bool
is_resting idle = true
is_resting _ = false

-- How many requests have no answer yet.
abbrev pub open_calls : Phase → ℕ
open_calls planning = 1
open_calls (acting change action) = 1
open_calls _ = 0

abbrev pub calls : List Effect → ℕ
calls [] = 0
calls (call path method body ∷ effects) = suc (calls effects)
calls (_ ∷ effects) = calls effects

abbrev pub answers : List Event → ℕ
answers [] = 0
answers (planned answer ∷ events) = suc (answers events)
answers (done answer ∷ events) = suc (answers events)
answers (_ ∷ events) = answers events

-- The buttons are disabled just while a handler is at work.
abbrev IsInStep : Queue → Type 0
IsInStep q = is_blank q.busy ≡ is_resting q.phase

abbrev Keeps : Queue → Event → Queue × List Effect → Type 0
Keeps q e r =
    IsInStep r.0 × (calls r.1 + open_calls q.phase ≤ open_calls r.0.phase + answers (e ∷ []))

busy_name : (id : Text) (action : Action) → is_blank (id ++ (codes "-" ++ name_of action)) ≡ false
busy_name [] action = refl
busy_name (c ∷ id) action = refl

module _ (parse : Text → Option Value) (pretty : Value → Text) where
  plan-Keeps :
      (q : Queue) (o : Option Value)
      → is_blank q.busy ≡ true
      → IsInStep q
      → Keeps q plan (send_plan parse pretty o q)
  plan-Keeps q none ready h = ground arith
  plan-Keeps q (some v) ready h = ground arith

  step-Keeps : (q : Queue) (e : Event) → IsInStep q → Keeps q e (step parse pretty q e)
  unfolding step
  step-Keeps q (edit s) h = ground arith
  step-Keeps q plan h = elim (Bool-cases (is_blank q.busy)) [
    | inl ready ↦ rw ready (plan-Keeps q (parse q.candidate) ready h)
    | inr busy ↦ rw busy (h, omega arith)
  ]
  step-Keeps q (act change action) h = ground (arith, busy_name (codes change.change_id) action)
  step-Keeps q (planned answer) h = ground arith
  step-Keeps q (done answer) h = ground arith
  step-Keeps q reloaded h = ground arith
  step-Keeps q (current version config) h = ground arith

  calls-append : (xs ys : List Effect) → calls (xs ++ ys) ≡ calls xs + calls ys
  calls-append [] ys = omega arith
  calls-append (call path method body ∷ xs) ys = omega (arith, calls-append xs ys)
  calls-append (notify e ∷ xs) ys = calls-append xs ys
  calls-append (reload ∷ xs) ys = calls-append xs ys
  calls-append (copy t ∷ xs) ys = calls-append xs ys
  calls-append (confirm e ∷ xs) ys = calls-append xs ys
  calls-append (reveal t ∷ xs) ys = calls-append xs ys
  calls-append (sign_in t ∷ xs) ys = calls-append xs ys
  calls-append (sign_out ∷ xs) ys = calls-append xs ys

  answers-cons :
      (e : Event) (events : List Event) → answers (e ∷ events) ≡ answers (e ∷ []) + answers events
  answers-cons (planned answer) events = omega arith
  answers-cons (done answer) events = omega arith
  answers-cons _ events = omega arith

  run-Keeps :
      (q : Queue) (events : List Event)
      → IsInStep q
      → IsInStep (run parse pretty q events).0
        × (calls (run parse pretty q events).1 + open_calls q.phase
            ≤ open_calls (run parse pretty q events).0.phase + answers events)
  unfolding run
  run-Keeps q [] h = (h, omega arith)
  run-Keeps q (e ∷ events) h =
      let (kept, one) = step-Keeps q e h in
      let q' = (step parse pretty q e).0 in
      let (later, more) = run-Keeps q' events kept in
      (
        later,
        omega (
          arith,
          calls-append (step parse pretty q e).1 (run parse pretty q' events).1,
          answers-cons e events,
        ),
      )

  open_calls-le-one : (phase : Phase) → open_calls phase ≤ 1
  open_calls-le-one idle = omega arith
  open_calls-le-one planning = omega arith
  open_calls-le-one reloading = omega arith
  open_calls-le-one (acting change action) = omega arith

  -- From the first rendering of the queue on, whatever is clicked, typed and answered: the buttons
  -- are disabled just while a handler is at work, and at most one request that was sent is not yet
  -- answered.
  pub run-blank_queue-one_at_a_time :
      (events : List Event)
      → let (q, effects) = run parse pretty blank_queue events in
        (is_blank q.busy ≡ is_resting q.phase) × (calls effects ≤ answers events + 1)
  run-blank_queue-one_at_a_time events =
      let (kept, bound) = run-Keeps blank_queue events refl in
      (kept, omega (arith, bound, open_calls-le-one (run parse pretty blank_queue events).0.phase))
