-- ===== src/Gateway/Runtime.antt =====
-- crates/senix-core/src/runtime.rs, the runtime: the gates, the routes and instances of the current
-- snapshot, and the leases that requests hold. An operation that looks up an instance and then holds
-- the lock of its gate is one step; `acquire` and `drain`, which hold no lock from their checks to
-- the change, have what others do in between as a parameter.
pub mod Acquire
pub mod Publish
pub mod History
pub mod Accounts
pub mod Draining
pub mod Owners
use senix.Prelude.{
  ℕ, zero, suc, ◌+◌, Bool, true, false, not, String, str_eq, List, [], ◌∷◌, Option, none, some,
  Text, any, get_elem?, remove, replace, ltb, if◌then◌else◌, ◌&&◌,
}
use senix.Gateway.State.{
  HealthState, TrafficState, disabled, InstanceState, UpstreamTlsConfig, HealthCheckConfig, tls_eq,
  health_check_eq,
}
use senix.Gateway.Instance.{
  InstanceGate, InstanceControl, LiveInstance, RequestLease, Error, instance_not_found,
  last_available_backend, Outcome, done, refused, state, selectable_weight, close, rejoin_gate,
  restore_gate, count_long_lived, release,
}
use senix.Gateway.Schedule.{Schedule}

pub record RuntimeRoute : Type 0 where
  pub id : String
  pub host : Text
  pub path_prefix : Text
  pub backends : List LiveInstance
  pub schedule : Schedule

pub record GatewayRuntime : Type 0 where
  pub gates : List InstanceGate
  pub routes : List RuntimeRoute
  pub instances : List (String × LiveInstance)
  pub leases : List RequestLease

pub data Result {ℓ} (A : Type ℓ) : Type ℓ where
  ok : A → Result A
  err : Error → Result A

abbrev pub empty_runtime : GatewayRuntime
empty_runtime = record { gates = []; routes = []; instances = []; leases = [] }

-- What the lock of a gate guards.
abbrev pub modify : ℕ → (InstanceGate → InstanceGate) → List InstanceGate → List InstanceGate
modify k f [] = []
modify zero f (g ∷ gates) = f g ∷ gates
modify (suc k) f (g ∷ gates) = g ∷ modify k f gates

abbrev pub gate_of : LiveInstance → ℕ
gate_of live = live.control.gate

abbrev pub weight_at : Option InstanceGate → ℕ
weight_at none = 0
weight_at (some g) = selectable_weight g

abbrev pub live_weight : List InstanceGate → LiveInstance → ℕ
live_weight gates live = weight_at (get_elem? gates (gate_of live))

abbrev pub find_instance : String → List (String × LiveInstance) → Option LiveInstance
find_instance id [] = none
find_instance id ((key, live) ∷ instances) =
    let rest = find_instance id instances in if str_eq key id then some live else rest

abbrev pub conclude :
    GatewayRuntime → LiveInstance → Outcome → GatewayRuntime × Result InstanceState
conclude rt live (refused e) = (rt, err e)
conclude rt live (done g) =
    (record rt { gates = modify (gate_of live) (λ _. g) rt.gates }, ok (state live.control.id g))

abbrev pub on_gate :
    GatewayRuntime
    → LiveInstance
    → (InstanceGate → Outcome)
    → Option InstanceGate
    → GatewayRuntime × Result InstanceState
on_gate rt live f none = (rt, err (instance_not_found live.control.id))
on_gate rt live f (some g) = conclude rt live (f g)

abbrev pub on_instance :
    GatewayRuntime
    → String
    → (InstanceGate → Outcome)
    → Option LiveInstance
    → GatewayRuntime × Result InstanceState
on_instance rt id f none = (rt, err (instance_not_found id))
on_instance rt id f (some live) = on_gate rt live f (get_elem? rt.gates (gate_of live))

-- An operation on the gate of an instance, with the state that it answers.
abbrev pub with_gate :
    GatewayRuntime → String → (InstanceGate → Outcome) → GatewayRuntime × Result InstanceState
with_gate rt id f = on_instance rt id f (find_instance id rt.instances)

-- HealthTarget
pub record HealthTarget : Type 0 where
  pub id : String
  pub address : String
  pub tls : Option UpstreamTlsConfig
  pub check : HealthCheckConfig

unfoldable pub report_health :
    String → HealthState → GatewayRuntime → GatewayRuntime × Result InstanceState
report_health id observed rt = with_gate rt id λ g. done (record g { health = observed })

abbrev pub is_current : HealthTarget → LiveInstance → Bool
is_current target live =
    str_eq live.address target.address
    && tls_eq live.tls target.tls
    && health_check_eq live.health_check (some target.check)

abbrev pub report_current :
    HealthTarget → HealthState → GatewayRuntime → Option LiveInstance → GatewayRuntime × Result Bool
report_current target observed rt none = (rt, err (instance_not_found target.id))
report_current target observed rt (some live) =
    if is_current target live
    then (
      record rt { gates = modify (gate_of live) (λ g. record g { health = observed }) rt.gates },
      ok true,
    )
    else (rt, ok false)

unfoldable pub report_health_if_current :
    HealthTarget → HealthState → GatewayRuntime → GatewayRuntime × Result Bool
report_health_if_current target observed rt =
    report_current target observed rt (find_instance target.id rt.instances)

abbrev pub has_backend : String → RuntimeRoute → Bool
has_backend id route = any (λ (b : LiveInstance). str_eq b.control.id id) route.backends

-- The gates as they are when the weight of a backend of a route is read.
abbrev pub Reading : Type 0
Reading = RuntimeRoute → LiveInstance → List InstanceGate

abbrev pub has_alternative : Reading → String → RuntimeRoute → Bool
has_alternative reading id route =
    any
      (λ (b : LiveInstance).
        not (str_eq b.control.id id) && ltb 0 (live_weight (reading route b) b))
      route.backends

-- The first route that would be left with no backend to select.
unfoldable pub find_last_backend : Reading → String → List RuntimeRoute → Option Error
find_last_backend reading id [] = none
find_last_backend reading id (route ∷ routes) =
    let rest = find_last_backend reading id routes in
    if has_backend id route && not (has_alternative reading id route)
    then some (last_available_backend id route.id)
    else rest

abbrev pub check_last : Bool → Reading → String → List RuntimeRoute → Option Error
check_last true reading id routes = none
check_last false reading id routes = find_last_backend reading id routes

-- What others do while `drain` is at work: after it has found the instance, between its readings of
-- the backends' weights, and before it closes the gate.
pub record Meanwhile : Type 0 where
  pub before_check : GatewayRuntime → GatewayRuntime
  pub at_reading : GatewayRuntime → Reading
  pub before_closing : GatewayRuntime → GatewayRuntime

-- Nobody else acts.
abbrev pub alone : Meanwhile
alone = record {
  before_check = λ rt. rt;
  at_reading = λ rt route live. rt.gates;
  before_closing = λ rt. rt;
}

abbrev pub close_found : LiveInstance → GatewayRuntime → GatewayRuntime × Result InstanceState
close_found live rt = on_gate rt live (λ g. done (close g)) (get_elem? rt.gates (gate_of live))

abbrev pub close_unless :
    Meanwhile → LiveInstance → GatewayRuntime → Option Error → GatewayRuntime × Result InstanceState
close_unless others live rt (some e) = (rt, err e)
close_unless others live rt none = close_found live (others.before_closing rt)

abbrev pub check_and_close :
    String
    → Bool
    → Meanwhile
    → LiveInstance
    → GatewayRuntime
    → GatewayRuntime × Result InstanceState
check_and_close id force others live rt =
    close_unless others live rt (check_last force (others.at_reading rt) id rt.routes)

abbrev pub drain_found :
    String
    → Bool
    → Meanwhile
    → GatewayRuntime
    → Option LiveInstance
    → GatewayRuntime × Result InstanceState
drain_found id force others rt none = (rt, err (instance_not_found id))
drain_found id force others rt (some live) =
    check_and_close id force others live (others.before_check rt)

unfoldable pub drain :
    String → Bool → Meanwhile → GatewayRuntime → GatewayRuntime × Result InstanceState
unfolding find_last_backend selectable_weight close state
drain id force others rt = drain_found id force others rt (find_instance id rt.instances)

unfoldable pub rejoin :
    String → ℕ → ℕ → Bool → GatewayRuntime → GatewayRuntime × Result InstanceState
unfolding rejoin_gate state
rejoin id generation weight force rt = with_gate rt id (rejoin_gate generation weight force)

unfoldable pub set_weight : String → ℕ → GatewayRuntime → GatewayRuntime × Result InstanceState
unfolding state
set_weight id weight rt = with_gate rt id λ g. done (record g { weight = weight })

unfoldable pub disable : String → GatewayRuntime → GatewayRuntime × Result InstanceState
unfolding state
disable id rt = with_gate rt id λ g. done (record g { traffic = disabled })

abbrev pub no_value : Result InstanceState → Result (Unit {0})
no_value (ok s) = ok tt
no_value (err e) = err e

unfoldable pub restore_control_state :
    InstanceState → GatewayRuntime → GatewayRuntime × Result (Unit {0})
unfolding restore_gate state
restore_control_state before rt =
    let r = with_gate rt before.id (λ g. done (restore_gate before g)) in (r.0, no_value r.1)

abbrev pub mark : ℕ → GatewayRuntime → Option RequestLease → GatewayRuntime
mark n rt none = rt
mark n rt (some lease) = if lease.long_lived then rt else record rt {
  gates = modify (gate_of lease.instance_) count_long_lived rt.gates;
  leases = replace n (record lease { long_lived = true }) rt.leases;
}

-- The lease at a place in the list of those that are held.
unfoldable pub mark_long_lived : ℕ → GatewayRuntime → GatewayRuntime
unfolding count_long_lived
mark_long_lived n rt = mark n rt (get_elem? rt.leases n)

abbrev pub finish : ℕ → GatewayRuntime → Option RequestLease → GatewayRuntime
finish n rt none = rt
finish n rt (some lease) = record rt {
  gates = modify (gate_of lease.instance_) (release lease.long_lived) rt.gates;
  leases = remove n rt.leases;
}

unfoldable pub drop_lease : ℕ → GatewayRuntime → GatewayRuntime
unfolding release
drop_lease n rt = finish n rt (get_elem? rt.leases n)
