-- ===== src/Gateway/Runtime/Owners/Steps.antt =====
-- The owners of the gates over each operation.
use senix.Prelude.{
  All-at, All-replace, ℕ, Bool, String, List, [], ◌∷◌, Text, All, Option, none, some,
  some_injective, length, get_elem?, replace, by_test, ◌≡◌, refl, sym, subst, ap, ◌∙◌, inl, inr,
}
use senix.Gateway.State.{HealthState, TrafficState}
use senix.Gateway.Instance.{
  InstanceGate, LiveInstance, RequestLease, Error, close, Outcome, done, refused, rejoin_gate,
  restore_gate,
}
use senix.Gateway.Routes.{Score}
use senix.Gateway.Runtime.{
  GatewayRuntime, RuntimeRoute, Result, ok, err, HealthTarget, gate_of, modify, find_instance,
  alone, close_unless, drain_found, conclude, on_gate, on_instance, report_current, is_current,
  mark, finish,
}
use senix.Gateway.Runtime.Acquire.{Shared, keep, match_request, match_route, acquire}
use senix.Gateway.Runtime.Acquire.Matching.{match_route_lem}
use senix.Gateway.Runtime.Accounts.Requests.{Alone, attempts-Alone}
use senix.Gateway.Schedule.{Schedule}
use senix.Gateway.Runtime.Accounts.Gates.{length-modify}
use senix.Gateway.Runtime.History.{
  Event, published, requested, long_lived, ended, reported, probed, drain_asked, gate_closed,
  rejoin_asked, weighed, disabled, restored, step, run,
}
use senix.Gateway.Runtime.Publish.{load_instance_states}
use senix.Gateway.Runtime.Owners.{Owns, OwnsInstances, OwnsRoutes, IsOwned}
use senix.Gateway.Runtime.Owners.Publications.{publish-IsOwned}

-- Operations that keep the number of gates, the instances and the routes.
same_length-IsOwned :
    (rt : GatewayRuntime) (gates : List InstanceGate) (leases : List RequestLease)
    → length gates ≡ length rt.gates
    → IsOwned rt
    → IsOwned (record rt { gates = gates; leases = leases })
same_length-IsOwned rt gates leases same o = record {
  owner = o.owner;
  instances = subst (λ n. OwnsInstances o.owner n rt.instances) (sym same) o.instances;
  routes = subst (λ n. OwnsRoutes o.owner n rt.routes) (sym same) o.routes;
}

module _ (rt : GatewayRuntime) (o : IsOwned rt) where
  conclude-IsOwned : (live : LiveInstance) (r : Outcome) → IsOwned (conclude rt live r).0
  conclude-IsOwned live (refused e) = o
  conclude-IsOwned live (done g) =
      same_length-IsOwned rt (modify (gate_of live) (λ _. g) rt.gates) rt.leases
        (length-modify (gate_of live) (λ _. g) rt.gates) o

  on_gate-IsOwned :
      (live : LiveInstance) (f : InstanceGate → Outcome) (g : Option InstanceGate)
      → IsOwned (on_gate rt live f g).0
  on_gate-IsOwned live f none = o
  on_gate-IsOwned live f (some g) = conclude-IsOwned live (f g)

  on_instance-IsOwned :
      (id : String) (f : InstanceGate → Outcome) (found : Option LiveInstance)
      → IsOwned (on_instance rt id f found).0
  on_instance-IsOwned id f none = o
  on_instance-IsOwned id f (some live) = on_gate-IsOwned live f (get_elem? rt.gates (gate_of live))

  close_unless-IsOwned :
      (live : LiveInstance) (last : Option Error) → IsOwned (close_unless alone live rt last).0
  close_unless-IsOwned live (some e) = o
  close_unless-IsOwned live none =
      on_gate-IsOwned live (λ g. done (close g)) (get_elem? rt.gates (gate_of live))

  drain_found-IsOwned :
      (id : String) (force : Bool) (found : Option LiveInstance)
      → IsOwned (drain_found id force alone rt found).0
  drain_found-IsOwned id force none = o
  drain_found-IsOwned id force (some live) = close_unless-IsOwned live _

  report_current-IsOwned :
      (target : HealthTarget) (observed : HealthState) (found : Option LiveInstance)
      → IsOwned (report_current target observed rt found).0
  report_current-IsOwned target observed none = o
  report_current-IsOwned target observed (some live) =
      by_test (λ (x : GatewayRuntime × Result Bool). IsOwned x.0) (is_current target live) _ _
        (λ same. same_length-IsOwned rt _ rt.leases (length-modify (gate_of live) _ rt.gates) o)
        (λ changed. o)

  mark-IsOwned : (n : ℕ) (found : Option RequestLease) → IsOwned (mark n rt found)
  mark-IsOwned n none = o
  mark-IsOwned n (some l) =
      by_test IsOwned l.long_lived _ _ (λ long. o)
        (λ short. same_length-IsOwned rt _ _ (length-modify (gate_of l.instance_) _ rt.gates) o)

  finish-IsOwned : (n : ℕ) (found : Option RequestLease) → IsOwned (finish n rt found)
  finish-IsOwned n none = o
  finish-IsOwned n (some l) =
      same_length-IsOwned rt _ _ (length-modify (gate_of l.instance_) _ rt.gates) o

-- The route that was matched stands at its place.
matched_at :
    (host path : Text) (routes : List RuntimeRoute) (place : ℕ) (route : RuntimeRoute)
    (score : Score)
    → match_route host path 0 routes none ≡ some (place, route, score)
    → get_elem? routes place ≡ some route
matched_at host path routes place route score e = elim (match_route_lem host path routes) [
  | inl (none_, rest) ↦ absurd (cc (none_, e))
  | inr (p, r, s, is, at, scored, last) ↦
      let same : ◌≡◌ {A = ℕ × RuntimeRoute × Score} (p, r, s) (place, route, score) =
        some_injective (sym is ∙ e) in
      subst (λ (t : ℕ × RuntimeRoute × Score). get_elem? routes t.0 ≡ some t.1) same at
]

module _ (host path : Text) (rt : GatewayRuntime) (o : IsOwned rt) where
  OwnsRoutes-replace :
      (n place : ℕ) (route : RuntimeRoute) (schedule : Schedule)
      → get_elem? rt.routes place ≡ some route
      → OwnsRoutes o.owner n rt.routes
      → OwnsRoutes o.owner n (replace place (record route { schedule = schedule }) rt.routes)
  OwnsRoutes-replace n place route schedule at h =
      All-replace (λ (r : RuntimeRoute). All (Owns o.owner n) r.backends) place
        (record route { schedule = schedule }) rt.routes
        (All-at (λ (r : RuntimeRoute). All (Owns o.owner n) r.backends) place rt.routes h at) h

  kept-IsOwned :
      (gates : List InstanceGate) (schedule : Schedule) (leases : List RequestLease) (place : ℕ)
      (route : RuntimeRoute)
      → length gates ≡ length rt.gates
      → get_elem? rt.routes place ≡ some route
      → IsOwned (record rt {
        gates = gates;
        routes = replace place (record route { schedule = schedule }) rt.routes;
        leases = leases;
      })
  kept-IsOwned gates schedule leases place route same at = record {
    owner = o.owner;
    instances = subst (λ n. OwnsInstances o.owner n rt.instances) (sym same) o.instances;
    routes =
        subst
          (λ n.
            OwnsRoutes o.owner n (replace place (record route { schedule = schedule }) rt.routes))
          (sym same) (OwnsRoutes-replace (length rt.gates) place route schedule at o.routes);
  }

  keep-IsOwned :
      (place : ℕ) (route : RuntimeRoute) (r : Shared × Result RequestLease)
      → Alone rt.gates r
      → get_elem? rt.routes place ≡ some route
      → IsOwned (keep rt place route r).0
  keep-IsOwned place route ((gates, schedule), err e) same at =
      kept-IsOwned gates schedule rt.leases place route (ap length same) at
  keep-IsOwned place route ((gates, schedule), ok lease) (live, adm) at =
      kept-IsOwned gates schedule (lease ∷ rt.leases) place route
        (ap length adm.changed ∙ length-modify (gate_of live) (λ _. adm.gate) rt.gates) at

  match_request-IsOwned :
      (found : Option (ℕ × RuntimeRoute × Score))
      → match_route host path 0 rt.routes none ≡ found
      → IsOwned (match_request [] rt found).0
  match_request-IsOwned none e = o
  match_request-IsOwned (some (place, route, score)) e =
      keep-IsOwned place route _ (attempts-Alone _ route (rt.gates, route.schedule))
        (matched_at host path rt.routes place route score e)

  acquire-IsOwned : IsOwned (acquire host path [] rt).0
  unfolding acquire
  acquire-IsOwned = match_request-IsOwned (match_route host path 0 rt.routes none) refl

step-IsOwned : (e : Event) (rt : GatewayRuntime) → IsOwned rt → IsOwned (step e rt)
unfolding step
step-IsOwned (published config rows) rt o = publish-IsOwned rt config (load_instance_states rows) o
step-IsOwned (requested host path) rt o = acquire-IsOwned host path rt o
step-IsOwned (long_lived n) rt o = mark-IsOwned rt o n (get_elem? rt.leases n)
step-IsOwned (ended n) rt o = finish-IsOwned rt o n (get_elem? rt.leases n)
step-IsOwned (reported id observed) rt o =
    on_instance-IsOwned rt o id (λ g. done (record g { health = observed }))
      (find_instance id rt.instances)
step-IsOwned (probed target observed) rt o =
    report_current-IsOwned rt o target observed (find_instance target.id rt.instances)
step-IsOwned (drain_asked id force) rt o =
    drain_found-IsOwned rt o id force (find_instance id rt.instances)
step-IsOwned (gate_closed k) rt o =
    same_length-IsOwned rt _ rt.leases (length-modify k close rt.gates) o
step-IsOwned (rejoin_asked id generation weight force) rt o =
    on_instance-IsOwned rt o id (rejoin_gate generation weight force)
      (find_instance id rt.instances)
step-IsOwned (weighed id weight) rt o =
    on_instance-IsOwned rt o id (λ g. done (record g { weight = weight }))
      (find_instance id rt.instances)
step-IsOwned (disabled id) rt o =
    on_instance-IsOwned rt o id (λ g. done (record g { traffic = TrafficState.disabled }))
      (find_instance id rt.instances)
step-IsOwned (restored before) rt o =
    on_instance-IsOwned rt o before.id (λ g. done (restore_gate before g))
      (find_instance before.id rt.instances)

pub run-IsOwned : (events : List Event) (rt : GatewayRuntime) → IsOwned rt → IsOwned (run events rt)
unfolding run
run-IsOwned [] rt o = o
run-IsOwned (e ∷ events) rt o = run-IsOwned events (step e rt) (step-IsOwned e rt o)
