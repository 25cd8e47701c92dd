-- ===== src/Gateway/Runtime/History.antt =====
-- The operations of the runtime one after the other, as its callers may order them.
use senix.Prelude.{ℕ, Bool, String, List, [], ◌∷◌, Text}
use senix.Gateway.State.{HealthState, InstanceState, PersistedInstanceState, GatewayConfig}
use senix.Gateway.Instance.{close}
use senix.Gateway.Runtime.{
  GatewayRuntime, HealthTarget, report_health, report_health_if_current, alone, modify, drain,
  rejoin, set_weight, disable, restore_control_state, mark_long_lived, drop_lease,
}
use senix.Gateway.Runtime.Acquire.{acquire}
use senix.Gateway.Runtime.Publish.{publish, load_instance_states}

-- A drain that others act in between changes nothing until it closes the gate: `gate_closed` is that,
-- at any time. The rows of the stored states come with a publication. A lease is named by its place.
pub data Event : Type 0 where
  published : GatewayConfig → List PersistedInstanceState → Event
  requested : Text → Text → Event
  long_lived : ℕ → Event
  ended : ℕ → Event
  reported : String → HealthState → Event
  probed : HealthTarget → HealthState → Event
  drain_asked : String → Bool → Event
  gate_closed : ℕ → Event
  rejoin_asked : String → ℕ → ℕ → Bool → Event
  weighed : String → ℕ → Event
  disabled : String → Event
  restored : InstanceState → Event

unfoldable pub step : Event → GatewayRuntime → GatewayRuntime
unfolding publish load_instance_states acquire mark_long_lived drop_lease report_health
    report_health_if_current drain close rejoin set_weight disable restore_control_state
step (published config rows) rt = publish config (load_instance_states rows) rt
step (requested host path) rt = (acquire host path [] rt).0
step (long_lived n) rt = mark_long_lived n rt
step (ended n) rt = drop_lease n rt
step (reported id observed) rt = (report_health id observed rt).0
step (probed target observed) rt = (report_health_if_current target observed rt).0
step (drain_asked id force) rt = (drain id force alone rt).0
step (gate_closed k) rt = record rt { gates = modify k close rt.gates }
step (rejoin_asked id generation weight force) rt = (rejoin id generation weight force rt).0
step (weighed id weight) rt = (set_weight id weight rt).0
step (disabled id) rt = (disable id rt).0
step (restored before) rt = (restore_control_state before rt).0

unfoldable pub run : List Event → GatewayRuntime → GatewayRuntime
unfolding step
run [] rt = rt
run (e ∷ events) rt = run events (step e rt)
