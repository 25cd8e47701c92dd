-- ===== src/Gateway/Runtime/Publish.antt =====
-- crates/senix-core/src/runtime.rs, `publish`, and the states of instances that
-- crates/senix-core/src/store.rs reads for it.
use senix.Prelude.{
  Bool, false, String, str_eq, List, [], ◌∷◌, ◌++◌, map, Option, none, some, length, if◌then◌else◌,
  ◌&&◌,
}
use senix.Gateway.State.{
  BackendConfig, RouteConfig, GatewayConfig, HealthCheckConfig, HealthState, unknown, healthy,
  serving, drained, PersistedInstanceState, tls_eq, health_check_eq, is_draining,
}
use senix.Gateway.Instance.{InstanceGate, InstanceControl, LiveInstance}
use senix.Gateway.Runtime.{RuntimeRoute, GatewayRuntime, modify, gate_of, find_instance}

-- A saved instance that was draining when the gateway stopped has no request any more.
abbrev pub settle_saved : PersistedInstanceState → PersistedInstanceState
settle_saved s = if is_draining s.traffic then record s { traffic = drained } else s

unfoldable pub load_instance_states : List PersistedInstanceState → List PersistedInstanceState
load_instance_states rows = map settle_saved rows

abbrev pub initial_health : Option HealthCheckConfig → HealthState
initial_health (some check) = unknown
initial_health none = healthy

abbrev pub prefer :
    Option PersistedInstanceState → Option PersistedInstanceState → Option PersistedInstanceState
prefer (some last) first = some last
prefer none first = first

-- `collect` into a map by id: the last with an id counts.
abbrev pub find_saved : String → List PersistedInstanceState → Option PersistedInstanceState
find_saved id [] = none
find_saved id (s ∷ rows) = prefer (find_saved id rows) (if str_eq s.id id then some s else none)

abbrev pub insert_instance :
    String → LiveInstance → List (String × LiveInstance) → List (String × LiveInstance)
insert_instance id live [] = (id, live) ∷ []
insert_instance id live ((key, old) ∷ instances) =
    let rest = insert_instance id live instances in
    if str_eq key id then (key, live) ∷ instances else (key, old) ∷ rest

abbrev pub new_gate : BackendConfig → Option PersistedInstanceState → InstanceGate
new_gate backend none = record {
  generation = backend.generation;
  weight = backend.weight;
  traffic = serving;
  health = initial_health backend.health_check;
  health_override = false;
  in_flight = 0;
  long_lived_in_flight = 0;
}
new_gate backend (some saved) = record {
  generation = saved.generation;
  weight = saved.weight;
  traffic = saved.traffic;
  health = initial_health backend.health_check;
  health_override = saved.health_override;
  in_flight = 0;
  long_lived_in_flight = 0;
}

abbrev pub is_same_target : LiveInstance → BackendConfig → Bool
is_same_target existing backend =
    str_eq existing.address backend.address
    && tls_eq existing.tls backend.tls
    && health_check_eq existing.health_check backend.health_check

-- The gate of an instance that stays: its health is unknown again where its target changed.
abbrev pub retarget : LiveInstance → BackendConfig → InstanceGate → InstanceGate
retarget existing backend g =
    if is_same_target existing backend
    then g
    else record g { health = initial_health backend.health_check }

abbrev pub live_of : BackendConfig → InstanceControl → LiveInstance
live_of backend control = record {
  address = backend.address;
  tls = backend.tls;
  health_check = backend.health_check;
  control = control;
}

-- A backend of an instance that is in the current snapshot, or of a new one.
abbrev pub place_first :
    List PersistedInstanceState
    → List InstanceGate
    → BackendConfig
    → Option LiveInstance
    → List InstanceGate × LiveInstance
place_first saved gates backend (some existing) =
    (modify (gate_of existing) (retarget existing backend) gates, live_of backend existing.control)
place_first saved gates backend none = (
  gates ++ (new_gate backend (find_saved backend.id saved) ∷ []),
  live_of backend (record { id = backend.id; gate = length gates }),
)

-- A backend of an instance that the new snapshot has already, or not.
abbrev pub place_backend :
    List (String × LiveInstance)
    → List PersistedInstanceState
    → List InstanceGate
    → BackendConfig
    → Option LiveInstance
    → List InstanceGate × LiveInstance
place_backend current saved gates backend (some existing) = (gates, existing)
place_backend current saved gates backend none =
    place_first saved gates backend (find_instance backend.id current)

module _ (current : List (String × LiveInstance)) (saved : List PersistedInstanceState) where
  unfoldable pub place_backends :
      List BackendConfig
      → List InstanceGate
      → List (String × LiveInstance)
      → List InstanceGate × List (String × LiveInstance) × List LiveInstance
  place_backends [] gates instances = (gates, instances, [])
  place_backends (backend ∷ backends) gates instances =
      let (gates', live) =
        place_backend current saved gates backend (find_instance backend.id instances) in
      let (gates'', instances'', lives) =
        place_backends backends gates' (insert_instance backend.id live instances) in
      (gates'', instances'', live ∷ lives)

  unfoldable pub place_routes :
      List RouteConfig
      → List InstanceGate
      → List (String × LiveInstance)
      → List InstanceGate × List (String × LiveInstance) × List RuntimeRoute
  unfolding place_backends
  place_routes [] gates instances = (gates, instances, [])
  place_routes (route ∷ routes) gates instances =
      let (gates', instances', lives) = place_backends route.backends gates instances in
      let (gates'', instances'', rest) = place_routes routes gates' instances' in
      (
        gates'',
        instances'',
        record {
          id = route.id;
          host = route.host;
          path_prefix = route.path_prefix;
          backends = lives;
          schedule = [];
        }
            ∷ rest,
      )

-- The leases keep the gates of instances that are not in the new snapshot.
unfoldable pub publish :
    GatewayConfig → List PersistedInstanceState → GatewayRuntime → GatewayRuntime
unfolding place_routes
publish config saved rt =
    let (gates, instances, routes) = place_routes rt.instances saved config.routes rt.gates [] in
    record rt { gates = gates; routes = routes; instances = instances }
