-- ===== src/Gateway/Runtime/Accounts/Requests.antt =====
-- The accounts of the gates over a request.
use senix.Prelude.{
  ℕ, zero, suc, ◌<◌, Bool, true, false, String, List, [], ◌∷◌, Text, All, length, Option, none,
  some, some_injective, get_elem?, ◌==◌, ◌≡◌, refl, sym, subst, ap, ◌∙◌, arith,
}
use senix.Gateway.Instance.{InstanceGate, LiveInstance, RequestLease}
use senix.Gateway.Schedule.{Schedule, select, total_weight}
use senix.Gateway.Routes.{Score}
use senix.Gateway.Runtime.{GatewayRuntime, RuntimeRoute, Result, ok, err, gate_of}
use senix.Gateway.Runtime.Acquire.{
  Shared, admitted, admit, try_selected, attempt, attempt_weighted, attempts, weighted, keep,
  acquire, match_route, match_request,
}
use senix.Gateway.Runtime.Acquire.Leases.{Admits, admit-Admits}
use senix.Gateway.Runtime.Accounts.{IsTrue, AreTrue, ArePlaced, IsAccounted}
use senix.Gateway.Runtime.Accounts.Gates.{length-modify, modify-AreTrue}
use senix.Gateway.Runtime.Accounts.Leases.{try_acquire-IsTrue, IsTrue-begun}

-- With no one else acting, a request changes the gates by an admission or not at all.
abbrev pub Alone : List InstanceGate → Shared × Result RequestLease → Type 0
Alone gates ((after, schedule), err e) = after ≡ gates
Alone gates ((after, schedule), ok lease) = (live : LiveInstance) × Admits live gates after lease

admitted-Alone :
    (live : LiveInstance) (s : Shared) (o : Option (List InstanceGate × RequestLease))
    (again : Shared → Shared × Result RequestLease)
    → admit live s.0 ≡ o
    → Alone s.0 (again s)
    → Alone s.0 (admitted s o again)
admitted-Alone live s none again e rest = rest
admitted-Alone live s (some (after, lease)) again e rest =
    (live, admit-Admits live s.0 after lease e)

try_selected-Alone :
    (route : RuntimeRoute) (found : Option LiveInstance) (s : Shared)
    (again : Shared → Shared × Result RequestLease)
    → Alone s.0 (again s)
    → Alone s.0 (try_selected route found s again)
try_selected-Alone route none s again rest = refl
try_selected-Alone route (some live) s again rest = admitted-Alone live s _ again refl rest

attempt-Alone :
    (route : RuntimeRoute) (gates : List InstanceGate) (chosen : Schedule × Option String)
    (again : Shared → Shared × Result RequestLease)
    → ((s : Shared) → Alone s.0 (again s))
    → Alone gates (attempt route gates (λ s. s) chosen again)
attempt-Alone route gates (schedule, none) again rest = refl
attempt-Alone route gates (schedule, some id) again rest =
    try_selected-Alone route _ (gates, schedule) again (rest (gates, schedule))

attempt_weighted-Alone :
    (route : RuntimeRoute) (gates : List InstanceGate) (schedule : Schedule)
    (ws : List (String × ℕ)) (b : Bool) (again : Shared → Shared × Result RequestLease)
    → ((s : Shared) → Alone s.0 (again s))
    → Alone gates (attempt_weighted route gates (λ s. s) schedule ws b again)
attempt_weighted-Alone route gates schedule ws true again rest = refl
attempt_weighted-Alone route gates schedule ws false again rest =
    attempt-Alone route gates (select ws schedule) again rest

get_elem?-lt :
    (k : ℕ) (gates : List InstanceGate) (g : InstanceGate)
    → get_elem? gates k ≡ some g
    → k < length gates
get_elem?-lt k [] g h = absurd cc
get_elem?-lt zero (a ∷ gates) g h = omega arith
get_elem?-lt (suc k) (a ∷ gates) g h = omega (arith, get_elem?-lt k gates g h)

pub attempts-Alone : (n : ℕ) (route : RuntimeRoute) (s : Shared) → Alone s.0 (attempts n route [] s)
unfolding attempts
attempts-Alone zero route s = refl
attempts-Alone (suc n) route (gates, schedule) =
    attempt_weighted-Alone route gates schedule (weighted gates route.backends)
      (total_weight (weighted gates route.backends) == 0) (attempts n route [])
      (attempts-Alone n route)

module _ (strict : Bool) (rt : GatewayRuntime) (a : IsAccounted strict rt) where
  keep-IsAccounted :
      (place : ℕ) (route : RuntimeRoute) (r : Shared × Result RequestLease)
      → Alone rt.gates r
      → IsAccounted strict (keep rt place route r).0
  keep-IsAccounted place route ((after, schedule), err e) same = record {
    gates_true = subst (λ gates. AreTrue strict gates rt.leases) (sym same) a.gates_true;
    placed = subst (λ gates. ArePlaced gates rt.leases) (sym same) a.placed;
  }
  keep-IsAccounted place route ((after, schedule), ok lease) (live, adm) = record {
    gates_true =
        subst (λ gates. AreTrue strict gates (lease ∷ rt.leases)) (sym adm.changed)
          (modify-AreTrue strict (gate_of live) (λ _. adm.gate) rt.gates rt.leases
            (lease ∷ rt.leases) a.gates_true
            (λ g was t.
              try_acquire-IsTrue strict (gate_of live) rt.leases adm.before adm.gate lease
                (subst (IsTrue strict (gate_of live) rt.leases)
                  (some_injective (sym was ∙ adm.found)) t)
                adm.admits (ap gate_of adm.holds) adm.ordinary)
            (λ j g other t.
              IsTrue-begun strict j rt.leases g lease
                (subst (λ l. (gate_of l == j) ≡ false) (sym adm.holds) other) t));
    placed =
        subst (λ gates. ArePlaced gates (lease ∷ rt.leases)) (sym adm.changed)
          (subst (λ n. All (λ (l : RequestLease). gate_of l.instance_ < n) (lease ∷ rt.leases))
            (sym (length-modify (gate_of live) (λ _. adm.gate) rt.gates))
            (
              subst (λ i. gate_of i < length rt.gates) (sym adm.holds)
                  (get_elem?-lt _ rt.gates adm.before adm.found),
              a.placed,
            ));
  }

  match_request-IsAccounted :
      (o : Option (ℕ × RuntimeRoute × Score)) → IsAccounted strict (match_request [] rt o).0
  match_request-IsAccounted none = a
  match_request-IsAccounted (some (place, route, score)) =
      keep-IsAccounted place route _ (attempts-Alone _ route (rt.gates, route.schedule))

  pub acquire-IsAccounted : (host path : Text) → IsAccounted strict (acquire host path [] rt).0
  unfolding acquire
  acquire-IsAccounted host path = match_request-IsAccounted (match_route host path 0 rt.routes none)
