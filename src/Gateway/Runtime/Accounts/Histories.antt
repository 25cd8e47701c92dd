-- ===== src/Gateway/Runtime/Accounts/Histories.antt =====
-- The accounts over whole histories of the runtime.
use senix.Prelude.{ℕ, Bool, true, false, List, [], ◌∷◌, All, ◌≡◌, ◌<◌, refl, subst, some, get_elem?}
use senix.Gateway.State.{is_draining}
use senix.Gateway.Instance.{InstanceGate}
use senix.Gateway.Runtime.{GatewayRuntime, empty_runtime}
use senix.Gateway.Runtime.History.{
  Event, published, requested, long_lived, ended, reported, probed, drain_asked, gate_closed,
  rejoin_asked, weighed, disabled, restored, step, run,
}
use senix.Gateway.Runtime.Accounts.{IsAccounted, held, held_long, AreOf}
use senix.Gateway.Runtime.Accounts.Operations.{
  report_health-IsAccounted, report_health_if_current-IsAccounted, drain-IsAccounted,
  closed-IsAccounted, rejoin-IsAccounted, set_weight-IsAccounted, disable-IsAccounted,
  restore_control_state-IsAccounted, mark_long_lived-IsAccounted, drop_lease-IsAccounted,
}
use senix.Gateway.Runtime.Accounts.Requests.{acquire-IsAccounted}
use senix.Gateway.Runtime.Accounts.Publications.{publish-IsAccounted}

-- The state before a change is put back only where the change could not be stored.
abbrev pub is_restored : Event → Bool
is_restored (restored before) = true
is_restored (published config rows) = false
is_restored (requested host path) = false
is_restored (long_lived n) = false
is_restored (ended n) = false
is_restored (reported id observed) = false
is_restored (probed target observed) = false
is_restored (drain_asked id force) = false
is_restored (gate_closed k) = false
is_restored (rejoin_asked id generation weight force) = false
is_restored (weighed id weight) = false
is_restored (disabled id) = false

step-IsAccounted :
    (strict : Bool) (e : Event) (rt : GatewayRuntime)
    → (is_restored e ≡ true → strict ≡ false)
    → IsAccounted strict rt
    → IsAccounted strict (step e rt)
unfolding step
step-IsAccounted strict (published config rows) rt lax a =
    publish-IsAccounted strict rt config rows a
step-IsAccounted strict (requested host path) rt lax a = acquire-IsAccounted strict rt a host path
step-IsAccounted strict (long_lived n) rt lax a = mark_long_lived-IsAccounted strict rt a n
step-IsAccounted strict (ended n) rt lax a = drop_lease-IsAccounted strict rt a n
step-IsAccounted strict (reported id observed) rt lax a =
    report_health-IsAccounted strict rt a id observed
step-IsAccounted strict (probed target observed) rt lax a =
    report_health_if_current-IsAccounted strict rt a target observed
step-IsAccounted strict (drain_asked id force) rt lax a = drain-IsAccounted strict rt a id force
step-IsAccounted strict (gate_closed k) rt lax a = closed-IsAccounted strict rt a k
step-IsAccounted strict (rejoin_asked id generation weight force) rt lax a =
    rejoin-IsAccounted strict rt a id generation weight force
step-IsAccounted strict (weighed id weight) rt lax a = set_weight-IsAccounted strict rt a id weight
step-IsAccounted strict (disabled id) rt lax a = disable-IsAccounted strict rt a id
step-IsAccounted strict (restored before) rt lax a =
    restore_control_state-IsAccounted strict rt a before (lax refl)

empty-IsAccounted : (strict : Bool) → IsAccounted strict empty_runtime
empty-IsAccounted strict = record { gates_true = λ k g h. absurd cc; placed = tt }

run-IsAccounted :
    (strict : Bool) (events : List Event) (rt : GatewayRuntime)
    → All (λ (e : Event). is_restored e ≡ true → strict ≡ false) events
    → IsAccounted strict rt
    → IsAccounted strict (run events rt)
unfolding run
run-IsAccounted strict [] rt lax a = a
run-IsAccounted strict (e ∷ events) rt lax a =
    run-IsAccounted strict events (step e rt) lax.1 (step-IsAccounted strict e rt lax.0 a)

always_lax :
    (events : List Event) → All (λ (e : Event). is_restored e ≡ true → false ≡ false) events
always_lax [] = tt
always_lax (e ∷ events) = (λ h. refl, always_lax events)

-- Whatever is asked, requested, reported and published, and whatever is put back after a change
-- that could not be stored: each gate counts the requests that hold a lease of it, and apart those
-- of them that are long-lived.
pub run-counts :
    (events : List Event) (k : ℕ) (g : InstanceGate)
    → get_elem? (run events empty_runtime).gates k ≡ some g
    → (g.in_flight ≡ held k (run events empty_runtime).leases)
      × (g.long_lived_in_flight ≡ held_long k (run events empty_runtime).leases)
run-counts events k g at =
    let t =
      (run-IsAccounted false events empty_runtime (always_lax events)
          (empty-IsAccounted false)).gates_true
        k g at in
    (t.counted, t.long)

never_lax :
    (events : List Event)
    → All (λ (e : Event). is_restored e ≡ false) events
    → All (λ (e : Event). is_restored e ≡ true → true ≡ false) events
never_lax [] h = tt
never_lax (e ∷ events) h = (λ is. cc (h.0), never_lax events h.1)

-- Whatever is asked, requested, reported and published, where no change has to be put back: a
-- gate is draining only while requests hold leases of it, and all leases of it that are held are of
-- its present generation.
pub run-busy :
    (events : List Event)
    → All (λ (e : Event). is_restored e ≡ false) events
    → (k : ℕ) (g : InstanceGate) → get_elem? (run events empty_runtime).gates k ≡ some g
    → (is_draining g.traffic ≡ true → 0 < held k (run events empty_runtime).leases)
      × AreOf k g.generation (run events empty_runtime).leases
run-busy events kept k g at =
    let t =
      (run-IsAccounted true events empty_runtime (never_lax events kept)
          (empty-IsAccounted true)).gates_true
        k g at in
    (λ d. subst (λ n. 0 < n) t.counted (t.busy refl d), t.of_generation refl)
