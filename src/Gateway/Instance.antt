-- ===== src/Gateway/Instance.antt =====
-- crates/senix-core/src/runtime.rs, one instance: its gate, which admits and counts requests, and
-- the lease that a request holds. Each function is what the code does under the lock of the gate.
-- The counts are those of leases that exist at the same time, and do not reach 2^64.
use senix.Prelude.{
  ℕ, ◌+◌, ◌-◌, Bool, true, false, not, String, Option, none, some, ltb, leb, ◌==◌, if◌then◌else◌,
  ◌&&◌, ◌||◌,
}
use senix.Gateway.State.{
  UpstreamTlsConfig, HealthCheckConfig, TrafficState, serving, draining, drained, disabled,
  HealthState, InstanceState, is_serving, is_draining, is_healthy,
}

pub record InstanceGate : Type 0 where
  pub generation : ℕ
  pub weight : ℕ
  pub traffic : TrafficState
  pub health : HealthState
  pub health_override : Bool
  pub in_flight : ℕ
  pub long_lived_in_flight : ℕ

-- The id, and the place of the gate among all gates: snapshots and leases share it.
pub record InstanceControl : Type 0 where
  pub id : String
  pub gate : ℕ

pub record LiveInstance : Type 0 where
  pub address : String
  pub tls : Option UpstreamTlsConfig
  pub health_check : Option HealthCheckConfig
  pub control : InstanceControl

pub record RequestLease : Type 0 where
  pub instance_ : LiveInstance
  pub generation : ℕ
  pub long_lived : Bool

pub data Error : Type 0 where
  instance_not_found : String → Error
  route_not_found : Error
  no_available_backend : String → Error
  last_available_backend : String → String → Error
  not_drained : Error
  not_healthy : Error
  generation_not_greater : ℕ → Error

unfoldable pub state : String → InstanceGate → InstanceState
state id g = record {
  id = id;
  generation = g.generation;
  weight = g.weight;
  traffic = g.traffic;
  health = g.health;
  health_override = g.health_override;
  in_flight = g.in_flight;
  long_lived_in_flight = g.long_lived_in_flight;
}

unfoldable pub selectable_weight : InstanceGate → ℕ
selectable_weight g =
    if is_serving g.traffic && (is_healthy g.health || g.health_override) then g.weight else 0

-- The gate and the generation of the lease, where the request is admitted.
unfoldable pub try_acquire : InstanceGate → Option (InstanceGate × ℕ)
try_acquire g =
    if not (is_serving g.traffic)
      || (not (is_healthy g.health) && not g.health_override)
      || g.weight == 0
    then none
    else some (record g { in_flight = g.in_flight + 1 }, g.generation)

unfoldable pub close : InstanceGate → InstanceGate
close g = record g { traffic = if g.in_flight == 0 then drained else draining }

abbrev can_rejoin : TrafficState → Bool
can_rejoin drained = true
can_rejoin disabled = true
can_rejoin _ = false

pub data Outcome : Type 0 where
  done : InstanceGate → Outcome
  refused : Error → Outcome

unfoldable pub rejoin_gate : ℕ → ℕ → Bool → InstanceGate → Outcome
rejoin_gate generation weight force g =
    if ltb 0 g.in_flight || not (can_rejoin g.traffic)
    then refused not_drained
    else if not force && not (is_healthy g.health)
    then refused not_healthy
    else if leb generation g.generation
    then refused (generation_not_greater g.generation)
    else done (record g {
      generation = generation;
      weight = weight;
      traffic = serving;
      health_override = force;
    })

unfoldable pub restore_gate : InstanceState → InstanceGate → InstanceGate
restore_gate s g = record g {
  generation = s.generation;
  weight = s.weight;
  traffic = s.traffic;
  health_override = s.health_override;
}

-- mark_long_lived of a lease that is not marked yet.
unfoldable pub count_long_lived : InstanceGate → InstanceGate
count_long_lived g = record g { long_lived_in_flight = g.long_lived_in_flight + 1 }

abbrev settle_traffic : InstanceGate → InstanceGate
settle_traffic g =
    if g.in_flight == 0 && is_draining g.traffic then record g { traffic = drained } else g

-- The end of a lease.
unfoldable pub release : Bool → InstanceGate → InstanceGate
release long_lived g = settle_traffic (record g {
  in_flight = g.in_flight - 1;
  long_lived_in_flight = if long_lived then g.long_lived_in_flight - 1 else g.long_lived_in_flight;
})
