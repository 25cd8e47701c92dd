-- ===== src/Gateway/Runtime/Acquire.antt =====
-- crates/senix-core/src/runtime.rs, `acquire`.
pub mod Admission
pub mod Shares
pub mod Leases
pub mod Matching
use senix.Prelude.{
  ℕ, zero, suc, ◌+◌, Bool, true, false, not, String, str_eq, List, [], ◌∷◌, Option, none, some,
  Text, length, get_elem?, replace, ltb, ◌==◌, if◌then◌else◌,
}
use senix.Gateway.Instance.{
  selectable_weight, InstanceGate, LiveInstance, RequestLease, Error, route_not_found,
  no_available_backend, try_acquire,
}
use senix.Gateway.Schedule.{Schedule, select, total_weight}
use senix.Gateway.Routes.{Score, route_match_score, not_less}
use senix.Gateway.Runtime.{
  RuntimeRoute, GatewayRuntime, Result, ok, err, modify, gate_of, live_weight,
}

-- What the others share with the request: the gates, and the schedule of the route.
abbrev pub Shared : Type 0
Shared = List InstanceGate × Schedule

-- `max_by_key`: the last of the routes with the greatest score, with its place.
abbrev pub better_route :
    Option (ℕ × RuntimeRoute × Score)
    → ℕ
    → RuntimeRoute
    → Option Score
    → Option (ℕ × RuntimeRoute × Score)
better_route best place route none = best
better_route none place route (some score) = some (place, route, score)
better_route (some (at, best, greatest)) place route (some score) =
    if not_less score greatest then some (place, route, score) else some (at, best, greatest)

unfoldable pub match_route :
    Text
    → Text
    → ℕ
    → List RuntimeRoute
    → Option (ℕ × RuntimeRoute × Score)
    → Option (ℕ × RuntimeRoute × Score)
unfolding route_match_score
match_route host path place [] best = best
match_route host path place (route ∷ routes) best =
    match_route host path (suc place) routes
      (better_route best place route (route_match_score route.host route.path_prefix host path))

unfoldable pub weighted : List InstanceGate → List LiveInstance → List (String × ℕ)
unfolding selectable_weight
weighted gates [] = []
weighted gates (b ∷ backends) =
    let rest = weighted gates backends in
    let weight = live_weight gates b in if ltb 0 weight then (b.control.id, weight) ∷ rest else rest

-- The backend that was selected: all those of a route with one id are the same instance.
unfoldable pub find_backend : String → List LiveInstance → Option LiveInstance
find_backend id [] = none
find_backend id (b ∷ backends) =
    let rest = find_backend id backends in if str_eq b.control.id id then some b else rest

abbrev pub granted :
    LiveInstance
    → List InstanceGate
    → Option (InstanceGate × ℕ)
    → Option (List InstanceGate × RequestLease)
granted live gates none = none
granted live gates (some (g, generation)) = some (
  modify (gate_of live) (λ _. g) gates,
  record { instance_ = live; generation = generation; long_lived = false },
)

abbrev pub admit_at :
    LiveInstance
    → List InstanceGate
    → Option InstanceGate
    → Option (List InstanceGate × RequestLease)
admit_at live gates none = none
admit_at live gates (some g) = granted live gates (try_acquire g)

unfoldable pub admit : LiveInstance → List InstanceGate → Option (List InstanceGate × RequestLease)
unfolding try_acquire
admit live gates = admit_at live gates (get_elem? gates (gate_of live))

-- What the others do in each attempt, between the selection and the admission.
abbrev pub act : List (Shared → Shared) → Shared → Shared
act [] s = s
act (f ∷ others) s = f s

abbrev pub later : List (Shared → Shared) → List (Shared → Shared)
later [] = []
later (f ∷ others) = others

abbrev pub admitted :
    Shared
    → Option (List InstanceGate × RequestLease)
    → (Shared → Shared × Result RequestLease)
    → Shared × Result RequestLease
admitted s none again = again s
admitted s (some (gates, lease)) again = ((gates, s.1), ok lease)

abbrev pub try_selected :
    RuntimeRoute
    → Option LiveInstance
    → Shared
    → (Shared → Shared × Result RequestLease)
    → Shared × Result RequestLease
try_selected route none s again = (s, err (no_available_backend route.id))
try_selected route (some live) s again = admitted s (admit live s.0) again

abbrev pub attempt :
    RuntimeRoute
    → List InstanceGate
    → (Shared → Shared)
    → Schedule × Option String
    → (Shared → Shared × Result RequestLease)
    → Shared × Result RequestLease
attempt route gates others (schedule, none) again =
    ((gates, schedule), err (no_available_backend route.id))
attempt route gates others (schedule, some id) again =
    try_selected route (find_backend id route.backends) (others (gates, schedule)) again

abbrev pub attempt_weighted :
    RuntimeRoute
    → List InstanceGate
    → (Shared → Shared)
    → Schedule
    → List (String × ℕ)
    → Bool
    → (Shared → Shared × Result RequestLease)
    → Shared × Result RequestLease
attempt_weighted route gates others schedule ws true again =
    ((gates, schedule), err (no_available_backend route.id))
attempt_weighted route gates others schedule ws false again =
    attempt route gates others (select ws schedule) again

-- So many attempts at most.
unfoldable pub attempts :
    ℕ → RuntimeRoute → List (Shared → Shared) → Shared → Shared × Result RequestLease
unfolding select weighted find_backend admit
attempts zero route others s = (s, err (no_available_backend route.id))
attempts (suc n) route others (gates, schedule) =
    let ws = weighted gates route.backends in
    attempt_weighted route gates (act others) schedule ws (total_weight ws == 0)
      (attempts n route (later others))

abbrev pub keep :
    GatewayRuntime
    → ℕ
    → RuntimeRoute
    → Shared × Result RequestLease
    → GatewayRuntime × Result RequestLease
keep rt place route ((gates, schedule), err e) = (
  record rt {
    gates = gates;
    routes = replace place (record route { schedule = schedule }) rt.routes;
  },
  err e,
)
keep rt place route ((gates, schedule), ok lease) = (
  record rt {
    gates = gates;
    routes = replace place (record route { schedule = schedule }) rt.routes;
    leases = lease ∷ rt.leases;
  },
  ok lease,
)

abbrev pub match_request :
    List (Shared → Shared)
    → GatewayRuntime
    → Option (ℕ × RuntimeRoute × Score)
    → GatewayRuntime × Result RequestLease
match_request others rt none = (rt, err route_not_found)
match_request others rt (some (place, route, score)) =
    keep rt place route
      (attempts (length route.backends + 1) route others (rt.gates, route.schedule))

unfoldable pub acquire :
    Text → Text → List (Shared → Shared) → GatewayRuntime → GatewayRuntime × Result RequestLease
unfolding match_route attempts
acquire host path others rt = match_request others rt (match_route host path 0 rt.routes none)
