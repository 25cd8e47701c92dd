-- ===== src/Gateway/Tests.antt =====
-- Runs of the gateway, and its theorems at them.
use senix.Prelude.{
  map, ◌++◌, ◌⊎◌, ◌^◌, ◌-◌, ℕ, ◌+◌, ◌*◌, ◌<◌, ◌≤◌, true, false, String, List, [], ◌∷◌, none, some,
  codes, length, get_elem?, ◌≡◌, refl, arith,
}
use senix.Gateway.State.{
  GatewayConfig, BackendConfig, healthy, is_draining, InstanceState, TrafficState, drained,
  draining, serving,
}
use senix.Gateway.Instance.{last_available_backend, InstanceGate, LiveInstance, RequestLease}
use senix.Gateway.Schedule.Sums.{weight_of}
use senix.Gateway.Schedule.{value, total_weight}
use senix.Gateway.Runtime.{
  ok, err, alone, drain, GatewayRuntime, RuntimeRoute, empty_runtime, modify,
}
use senix.Gateway.Runtime.Acquire.{weighted, Shared, match_route, acquire}
use senix.Gateway.Routes.{Score}
use senix.Gateway.Runtime.Acquire.Matching.{NoneMatches, IsScoreOf, IsLastGreatest, match_route_lem}
use senix.Gateway.Runtime.Acquire.Leases.{IsServed, acquire-IsServed}
use senix.Gateway.Schedule.Turns.{count}
use senix.Gateway.Runtime.Acquire.Shares.{requests, requests-shares, requests-near_share}
use senix.Gateway.Runtime.History.{
  Event, published, requested, long_lived, ended, drain_asked, rejoin_asked, restored, run,
}
use senix.Gateway.Runtime.Accounts.{held, held_long, AreOf}
use senix.Gateway.Runtime.Accounts.Histories.{run-counts, run-busy}

abbrev backend : String → ℕ → BackendConfig
backend id weight = record {
  id = id;
  address = id;
  generation = 1;
  weight = weight;
  tls = none;
  health_check = none;
}

abbrev config : GatewayConfig
config = record {
  routes =
      record {
        id = "shop";
        host = codes "shop.example";
        path_prefix = codes "/";
        backends = backend "blue" 2 ∷ backend "green" 1 ∷ [];
      }
      ∷ [];
}

abbrev started : GatewayRuntime
started = run (published config [] ∷ []) empty_runtime

abbrev request : Event
request = requested (codes "Shop.example") (codes "/cart")

-- The instances that hold the leases, the last one first.
abbrev lessees : GatewayRuntime → List String
lessees rt = map (λ (l : RequestLease). l.instance_.control.id) rt.leases

abbrev flights : GatewayRuntime → List (ℕ × TrafficState)
flights rt = map (λ (g : InstanceGate). (g.in_flight, g.traffic)) rt.gates

abbrev three_requests : List Event
three_requests = published config [] ∷ request ∷ request ∷ request ∷ []

shared_out : lessees (run three_requests empty_runtime) ≡ "blue" ∷ "green" ∷ "blue" ∷ []
unfolding run
shared_out = refl

-- The first of the leases of "blue" is the last in the list.
abbrev drained_blue : List Event
drained_blue =
    three_requests ++ (drain_asked "blue" false ∷ request ∷ long_lived 3 ∷ ended 1 ∷ ended 0 ∷ [])

drained_blue-flights : flights (run drained_blue empty_runtime) ≡ (1, draining) ∷ (1, serving) ∷ []
unfolding run
drained_blue-flights = refl

rejoined_blue :
    flights
      (run (drained_blue ++ (ended 0 ∷ ended 0 ∷ rejoin_asked "blue" 2 1 false ∷ [])) empty_runtime)
    ≡ (0, serving) ∷ (0, serving) ∷ []
unfolding run
rejoined_blue = refl

-- A state that is put back after the last request has ended: nothing ends the draining any more, and
-- the instance cannot rejoin.
abbrev before_drain : InstanceState
before_drain = record {
  id = "blue";
  generation = 1;
  weight = 2;
  traffic = draining;
  health = healthy;
  health_override = false;
  in_flight = 1;
  long_lived_in_flight = 0;
}

stuck_draining :
    flights (
      run
        (published config []
          ∷ request
          ∷ drain_asked "blue" false
          ∷ ended 0
          ∷ drain_asked "blue" false
          ∷ restored before_drain
          ∷ rejoin_asked "blue" 2 1 false
          ∷ [])
        empty_runtime)
    ≡ (0, draining) ∷ (0, serving) ∷ []
unfolding run
stuck_draining = refl

abbrev blue : InstanceGate
blue = record {
  generation = 1;
  weight = 2;
  traffic = draining;
  health = healthy;
  health_override = false;
  in_flight = 1;
  long_lived_in_flight = 1;
}

run-counts_example :
    (1 ≡ held 0 (run drained_blue empty_runtime).leases)
    × (1 ≡ held_long 0 (run drained_blue empty_runtime).leases)
unfolding run
run-counts_example = run-counts drained_blue 0 blue refl

run-busy_example :
    (is_draining draining ≡ true → 0 < held 0 (run drained_blue empty_runtime).leases)
    × AreOf 0 1 (run drained_blue empty_runtime).leases
unfolding run
run-busy_example =
    run-busy drained_blue (refl, (refl, (refl, (refl, (refl, (refl, (refl, (refl, (refl, tt)))))))))
      0 blue refl

abbrev live : String → ℕ → LiveInstance
live id gate = record {
  address = id;
  tls = none;
  health_check = none;
  control = record { id = id; gate = gate };
}

abbrev shop : RuntimeRoute
shop = record {
  id = "shop";
  host = codes "shop.example";
  path_prefix = codes "/";
  backends = live "blue" 0 ∷ live "green" 1 ∷ [];
  schedule = [];
}

abbrev gate : ℕ → InstanceGate
gate weight = record {
  generation = 1;
  weight = weight;
  traffic = serving;
  health = healthy;
  health_override = false;
  in_flight = 0;
  long_lived_in_flight = 0;
}

abbrev gates : List InstanceGate
gates = gate 2 ∷ gate 1 ∷ []

requests-shares_example :
    count "blue" (requests (4 * total_weight (weighted gates shop.backends)) shop (gates, [])).1
    ≡ 4 * weight_of "blue" (weighted gates shop.backends)
unfolding weighted value
requests-shares_example =
    requests-shares shop gates 4 [] (refl, (refl, tt)) (omega arith) (omega arith) (λ id. refl)
      "blue"

requests-near_share_example :
    (total_weight (weighted gates shop.backends) * count "blue" (requests 2 shop (gates, [])).1
      < 2 * weight_of "blue" (weighted gates shop.backends)
        + total_weight (weighted gates shop.backends))
    × (2 * weight_of "blue" (weighted gates shop.backends)
          + total_weight (weighted gates shop.backends)
        ≤ total_weight (weighted gates shop.backends) * count "blue" (requests 2 shop (gates, [])).1
          + length (weighted gates shop.backends) * total_weight (weighted gates shop.backends))
unfolding weighted value
requests-near_share_example =
    requests-near_share shop gates 2 [] (refl, (refl, tt)) (omega arith) (omega arith) (λ id. refl)
      "blue"

abbrev any_shop : RuntimeRoute
any_shop = record {
  id = "any";
  host = codes "*.example";
  path_prefix = codes "/cart";
  backends = live "green" 1 ∷ [];
  schedule = [];
}

match_route_lem_example :
    ((match_route (codes "shop.example") (codes "/cart") 0 (shop ∷ any_shop ∷ []) none ≡ none)
      × NoneMatches (codes "shop.example") (codes "/cart") (shop ∷ any_shop ∷ []))
    ⊎ ((place : ℕ) × (route : RuntimeRoute) × (score : Score) × (match_route
            (codes "shop.example")
            (codes "/cart")
            0
            (shop ∷ any_shop ∷ [])
            none
          ≡ some (place, route, score))
        × (get_elem? (shop ∷ any_shop ∷ []) place ≡ some route)
        × IsScoreOf (codes "shop.example") (codes "/cart") route score
        × IsLastGreatest (codes "shop.example") (codes "/cart") place score (shop ∷ any_shop ∷ []))
match_route_lem_example =
    match_route_lem (codes "shop.example") (codes "/cart") (shop ∷ any_shop ∷ [])

-- A longer prefix of the path comes before an exact host.
longest_path :
    match_route (codes "shop.example") (codes "/cart/2") 0 (shop ∷ any_shop ∷ []) none
    ≡ some (1, any_shop, record { prefix_length = 5; host_kind = 1; host_length = 7 })
unfolding match_route
longest_path = refl

abbrev runtime : GatewayRuntime
runtime = record {
  gates = gates;
  routes = shop ∷ [];
  instances = ("blue", live "blue" 0) ∷ ("green", live "green" 1) ∷ [];
  leases = [];
}

-- Meanwhile "blue" is drained, so that the second attempt gets "green".
abbrev drained_meanwhile : Shared → Shared
drained_meanwhile (now, schedule) = (modify 0 (λ g. record g { traffic = drained }) now, schedule)

abbrev green_lease : RequestLease
green_lease = record { instance_ = live "green" 1; generation = 1; long_lived = false }

abbrev after_race : GatewayRuntime
after_race = record runtime {
  gates = record (gate 2) { traffic = drained } ∷ record (gate 1) { in_flight = 1 } ∷ [];
  routes = record shop { schedule = ("blue", 2 ^ 63 - 1) ∷ ("green", 2 ^ 63 + 1) ∷ [] } ∷ [];
  leases = green_lease ∷ [];
}

acquire-IsServed_example :
    IsServed
      (codes "shop.example")
      (codes "/")
      (drained_meanwhile ∷ [])
      runtime
      after_race
      green_lease
unfolding acquire
acquire-IsServed_example =
    acquire-IsServed (codes "shop.example") (codes "/") (drained_meanwhile ∷ []) runtime after_race
      green_lease refl

abbrev blue_state : InstanceState
blue_state = record {
  id = "blue";
  generation = 1;
  weight = 2;
  traffic = drained;
  health = healthy;
  health_override = false;
  in_flight = 0;
  long_lived_in_flight = 0;
}

-- While "blue" is drained, "green" gets a greater weight.
abbrev reweighed : GatewayRuntime → GatewayRuntime
reweighed rt = record rt { gates = modify 1 (λ g. record g { weight = 5 }) rt.gates }

abbrev drained_runtime : GatewayRuntime
unfolding run drain
drained_runtime = (drain "blue" false (record alone { before_closing = reweighed }) started).0

-- "green" is disabled after the drain of "blue" has read its weight: no backend is left.
abbrev disabled_meanwhile : GatewayRuntime → GatewayRuntime
disabled_meanwhile rt = record rt {
  gates = modify 1 (λ g. record g { traffic = TrafficState.disabled }) rt.gates;
}

none_left :
    let others = record alone { before_closing = disabled_meanwhile } in
    let (after, answer) = drain "blue" false others started in
    (answer ≡ ok blue_state)
    × (map (weighted after.gates) (map (λ r. r.backends) after.routes) ≡ [] ∷ [])
unfolding run drain weighted
none_left = (refl, refl)

-- The other one is the last of the route.
refused_drain :
    (drain "green" false alone drained_runtime).1 ≡ err (last_available_backend "green" "shop")
unfolding run drain
refused_drain = refl

abbrev no_routes : GatewayConfig
no_routes = record { routes = [] }

-- An instance that is taken out of the configuration and put back has a new gate, which does not
-- count the request that it still serves.
abbrev put_back : GatewayRuntime
put_back =
    run
      (published config []
        ∷ request
        ∷ published no_routes []
        ∷ published config []
        ∷ drain_asked "blue" false
        ∷ rejoin_asked "blue" 2 1 true
        ∷ [])
      empty_runtime

served_before :
    (map {B = String × ℕ}
        (λ (l : RequestLease). (l.instance_.control.id, l.generation))
        put_back.leases
      ≡ ("blue", 1) ∷ [])
    × (flights put_back ≡ (1, serving) ∷ (0, serving) ∷ (0, serving) ∷ (0, serving) ∷ [])
unfolding run
served_before = (refl, refl)
