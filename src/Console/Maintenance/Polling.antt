-- ===== src/Console/Maintenance/Polling.antt =====
-- What the polling effect reports of a drain.
use senix.Prelude.{
  ℕ, ◌+◌, ◌≤◌, ◌<◌, Bool, true, String, str_eq, str_eq_iff, Text, List, [], ◌∷◌, Option, none, some,
  ◌≡◌, refl, ap, ◌∙◌, Bool-cases, inl, inr, arith, ◌≢◌, sym, ◌==◌, ==_iff,
}
use senix.Console.Api.{Answer, answered, failed, Items}
use senix.Console.Number.{Doubles}
use senix.Console.Maintenance.{
  Instance, Operation, Action, drain, weight, rejoin, disable, Phase, idle, calling, reloading,
  View, weight_or_100,
}
use senix.Console.Maintenance.Forms.{
  start, begin_drain, change_weight, begin_rejoin, begin_disable, submit,
}
use senix.Console.Maintenance.Events.{
  Event, press, respond, reloaded, tick, polled, props, same_watch, set_operation, sync,
  set_instance, receive, finish, on_respond, on_reloaded, on_tick, on_polled, step, run,
  same_instance,
}

-- The same id and the same status, or no operation both times.
abbrev pub watch : Option Operation → Option (String × String)
watch none = none
watch (some operation) = some (operation.operation_id, operation.status)

-- The epoch never falls, and while it stays the polled operation does.
record Holds (v w : View) : Type 0 where
  rises : v.epoch ≤ w.epoch
  stays : v.epoch ≡ w.epoch → watch v.panel.operation ≡ watch w.panel.operation

watch_eq_of_same : (a b : Option Operation) → same_watch a b ≡ true → watch a ≡ watch b
watch_eq_of_same none none h = refl
watch_eq_of_same none (some b) h = cc
watch_eq_of_same (some a) none h = cc
watch_eq_of_same (some a) (some b) h =
    ground (arith, str_eq_iff a.operation_id b.operation_id, str_eq_iff a.status b.status)

same_watch_of_eq : (a b : Option Operation) → watch a ≡ watch b → same_watch a b ≡ true
same_watch_of_eq none none h = refl
same_watch_of_eq none (some b) h = cc
same_watch_of_eq (some a) none h = cc
same_watch_of_eq (some a) (some b) h =
    ground (arith, str_eq_iff a.operation_id b.operation_id, str_eq_iff a.status b.status)

status_of_watch :
    (next : Operation) {id : String}
    → watch (some next) ≡ some (id, "DRAINING")
    → next.status ≡ "DRAINING"
status_of_watch next h = ground arith

-- What a view that differs in other fields only keeps.
Holds-unchanged :
    (v w : View) → v.epoch ≡ w.epoch → v.panel.operation ≡ w.panel.operation → Holds v w
Holds-unchanged v w e o = record { rises = omega arith; stays = λ _. ap watch o }

Holds-trans : (u v w : View) → Holds u v → Holds v w → Holds u w
Holds-trans u v w h k = record {
  rises = omega (arith, h.rises, k.rises);
  stays = λ e.
      h.stays (omega (arith, e, h.rises, k.rises)) ∙ k.stays (omega (arith, e, h.rises, k.rises));
}

set_operation-Holds : (v : View) (o : Option Operation) → Holds v (set_operation v o)
unfolding set_operation
set_operation-Holds v o = elim (Bool-cases (same_watch v.panel.operation o)) [
  | inl same ↦
      let watched = watch_eq_of_same v.panel.operation o same in
      rw same (record { rises = omega arith; stays = λ _. watched })
  | inr other ↦ rw other (record { rises = omega arith; stays = λ e. absurd (omega arith) })
]

module _ (d : Doubles) (show : ℕ → Text) where
  submit-Holds : (action : Action) (v : View) → Holds v (submit d show action v).0
  unfolding submit begin_drain change_weight begin_rejoin begin_disable start
  submit-Holds drain v = Holds-unchanged v _ (ground arith) (ground arith)
  submit-Holds weight v = Holds-unchanged v _ (ground arith) (ground arith)
  submit-Holds rejoin v = Holds-unchanged v _ (ground arith) (ground arith)
  submit-Holds disable v = Holds-unchanged v _ (ground arith) (ground arith)

module _ (d : Doubles) (show : ℕ → Text) (join : Items → Text) (includes : Text → Text → Bool) where
  respond-Holds :
      (phase : Phase) (answer : Answer (Option Operation)) (v : View)
      → Holds v (on_respond d show join includes phase answer v).0
  unfolding on_respond receive
  respond-Holds (calling action) (answered result) v = Holds-unchanged v _ refl refl
  respond-Holds (calling action) (failed e) v = Holds-unchanged v _ refl refl
  respond-Holds idle answer v = Holds-unchanged v _ refl refl
  respond-Holds (reloading action result) answer v = Holds-unchanged v _ refl refl

  -- A handler that ends sets no operation, but for the drain's.
  reloaded-Holds : (phase : Phase) (v : View) → Holds v (on_reloaded d show join includes phase v).0
  unfolding on_reloaded finish
  reloaded-Holds idle v = Holds-unchanged v _ refl refl
  reloaded-Holds (calling action) v = Holds-unchanged v _ refl refl
  reloaded-Holds (reloading action none) v = Holds-unchanged v _ refl refl
  reloaded-Holds (reloading weight (some o)) v = Holds-unchanged v _ refl refl
  reloaded-Holds (reloading rejoin (some o)) v = Holds-unchanged v _ refl refl
  reloaded-Holds (reloading disable (some o)) v = Holds-unchanged v _ refl refl
  reloaded-Holds (reloading drain (some o)) v =
      let over = record v { panel = record v.panel { busy = none }; phase = idle } in
      Holds-trans v over (set_operation over (some o)) (Holds-unchanged v over refl refl)
        (set_operation-Holds over (some o))

  polled-Holds :
      (answer : Answer Operation) (v : View) → Holds v (on_polled d show join includes answer v).0
  unfolding on_polled
  polled-Holds (failed e) v = Holds-unchanged v _ refl refl
  polled-Holds (answered next) v = elim (Bool-cases (str_eq next.status "DRAINING")) [
    | inl draining ↦ rw draining (set_operation-Holds v (some next))
    | inr over ↦ rw over (set_operation-Holds v (some next))
  ]

  props-Holds : (v : View) (i : Instance) → Holds v (set_instance d show join includes v i)
  unfolding set_instance
  props-Holds v i =
      let placed = record v { instance_ = i } in
      let filled = record placed {
        panel = record v.panel {
          weight = d.to_text i.weight;
          generation = d.to_text (i.generation + 1);
          rejoin_weight = d.to_text (weight_or_100 i.weight);
        };
      } in
      elim (Bool-cases (same_instance v.instance_ i)) [
        | inl same ↦ rw same (Holds-unchanged v _ refl refl)
        | inr other ↦ elim (Bool-cases (str_eq i.traffic "DRAINING")) [
          | inl draining ↦ rw (other, sync, draining) (Holds-unchanged v _ refl refl)
          | inr over ↦
              rw (other, sync, over)
                (Holds-trans v filled (set_operation filled none)
                  (Holds-unchanged v filled refl refl) (set_operation-Holds filled none))
        ]
      ]

  tick-Holds : (o : Option Operation) (v : View) → Holds v (on_tick d show join includes o v).0
  unfolding on_tick
  tick-Holds none v = Holds-unchanged v _ refl refl
  tick-Holds (some o) v = Holds-unchanged v _ (ground arith) (ground arith)

  step-Holds : (v : View) (e : Event) → Holds v (step d show join includes v e).0
  unfolding step
  step-Holds v (press action) = submit-Holds d show action v
  step-Holds v (respond answer) = respond-Holds v.phase answer v
  step-Holds v reloaded = reloaded-Holds v.phase v
  step-Holds v (polled epoch answer) = elim (Bool-cases (epoch == v.epoch)) [
    | inl current ↦ rw current (polled-Holds answer v)
    | inr stale ↦ rw stale (Holds-unchanged v v refl refl)
  ]
  step-Holds v (props i) = props-Holds v i
  step-Holds v tick = tick-Holds v.panel.operation v
  step-Holds v _ = Holds-unchanged v _ (ground arith) (ground arith)

  run-Holds : (v : View) (events : List Event) → Holds v (run d show join includes v events).0
  unfolding run
  run-Holds v [] = Holds-unchanged v v refl refl
  run-Holds v (e ∷ events) =
      let v' = (step d show join includes v e).0 in
      Holds-trans v v' _ (step-Holds v e) (run-Holds v' events)

  -- An answer that ends the drain starts a new epoch.
  polled_end-epoch :
      (v : View) (next : Operation)
      → watch v.panel.operation ≢ watch (some next)
      → v.epoch < (set_operation v (some next)).epoch
  unfolding set_operation
  polled_end-epoch v next h = elim (Bool-cases (same_watch v.panel.operation (some next))) [
    | inl same ↦ absurd (h (watch_eq_of_same _ (some next) same))
    | inr other ↦ rw other (omega arith)
  ]

  on_polled-epoch :
      (v : View) (next : Operation)
      → watch v.panel.operation ≢ watch (some next)
      → v.epoch < (on_polled d show join includes (answered next) v).0.epoch
  unfolding on_polled
  on_polled-epoch v next h = elim (Bool-cases (str_eq next.status "DRAINING")) [
    | inl draining ↦ rw draining (polled_end-epoch v next h)
    | inr over ↦ rw over (polled_end-epoch v next h)
  ]

  polled-current :
      (v : View) (epoch : ℕ) (answer : Answer Operation)
      → v.epoch ≡ epoch
      → step d show join includes v (polled epoch answer) ≡ on_polled d show join includes answer v
  unfolding step
  polled-current v epoch answer h = rw ((==_iff epoch v.epoch).1 (sym h)) refl

  polled-stale :
      (v : View) (epoch : ℕ) (answer : Answer Operation)
      → epoch < v.epoch
      → step d show join includes v (polled epoch answer) ≡ (v, [])
  unfolding step
  polled-stale v epoch answer h = elim (Bool-cases (epoch == v.epoch)) [
    | inl same ↦ absurd (omega (arith, (==_iff epoch v.epoch).0 same))
    | inr other ↦ rw other refl
  ]

  -- Say that an operation is draining, which is when polls are sent, that anything happens after
  -- it, and that an answer to a poll of that time then reports the end of the drain. From then on,
  -- whatever happens, a further answer to a poll of that time changes nothing and has no effect:
  -- the end of the drain is reported once.
  pub polled_once :
      (v : View) (before after : List Event) (id : String) (next : Operation)
      (late : Answer Operation)
      → watch v.panel.operation ≡ some (id, "DRAINING")
      → next.status ≢ "DRAINING"
      → (run d show join includes v before).0.epoch ≡ v.epoch
      → let u = (run d show join includes v before).0 in
        let ended = (step d show join includes u (polled v.epoch (answered next))).0 in
        let w = (run d show join includes ended after).0 in
        step d show join includes w (polled v.epoch late) ≡ (w, [])
  polled_once v before after id next late watched over current =
      let u = (run d show join includes v before).0 in
      let ended = (step d show join includes u (polled v.epoch (answered next))).0 in
      let still : watch u.panel.operation ≡ some (id, "DRAINING") =
        sym ((run-Holds v before).stays (sym current)) ∙ watched in
      let changed : watch u.panel.operation ≢ watch (some next) =
        λ e. over (status_of_watch next (sym e ∙ still)) in
      let later : u.epoch < ended.epoch =
        rw (polled-current u v.epoch (answered next) current) (on_polled-epoch u next changed) in
      let w = (run d show join includes ended after).0 in
      polled-stale w v.epoch late (omega (arith, current, later, (run-Holds ended after).rises))
