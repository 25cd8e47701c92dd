-- ===== src/Gateway/Runtime/Accounts/Publications.antt =====
-- The accounts of the gates over a publication.
use senix.Prelude.{
  by_test, ℕ, zero, suc, ◌<◌, ◌≤◌, Bool, false, String, str_eq, List, [], ◌∷◌, ◌++◌, All, length,
  length-append, Option, none, some, get_elem?, ◌≡◌, refl, sym, subst, ◌∙◌, ◌⊎◌, inl, inr,
  if◌then◌else◌, arith,
}
use senix.Gateway.State.{
  BackendConfig, RouteConfig, GatewayConfig, PersistedInstanceState, is_draining,
}
use senix.Gateway.Instance.{InstanceGate, LiveInstance, RequestLease}
use senix.Gateway.Runtime.{GatewayRuntime, gate_of, modify, find_instance}
use senix.Gateway.Runtime.Publish.{
  load_instance_states, settle_saved, initial_health, is_same_target, find_saved, prefer, new_gate,
  retarget, insert_instance, place_first, place_backend, place_backends, place_routes, publish,
}
use senix.Gateway.Runtime.Accounts.{held, held_long, AreOf, IsTrue, AreTrue, ArePlaced, IsAccounted}
use senix.Gateway.Runtime.Accounts.Gates.{length-modify, modify-AreTrue, health-IsTrue}

-- No saved state is draining.
abbrev AreSettled : List PersistedInstanceState → Type 0
AreSettled rows = All (λ (s : PersistedInstanceState). is_draining s.traffic ≡ false) rows

settle_saved-is_draining :
    (s : PersistedInstanceState) → is_draining (settle_saved s).traffic ≡ false
settle_saved-is_draining s = ground arith

load_instance_states-AreSettled :
    (rows : List PersistedInstanceState) → AreSettled (load_instance_states rows)
unfolding load_instance_states
load_instance_states-AreSettled [] = tt
load_instance_states-AreSettled (s ∷ rows) =
    (settle_saved-is_draining s, load_instance_states-AreSettled rows)

prefer-is_draining :
    (last first : Option PersistedInstanceState) (s : PersistedInstanceState)
    → (last ≡ some s → is_draining s.traffic ≡ false)
    → (first ≡ some s → is_draining s.traffic ≡ false)
    → prefer last first ≡ some s
    → is_draining s.traffic ≡ false
prefer-is_draining none first s h k e = k e
prefer-is_draining (some last) first s h k e = h e

find_saved-is_draining :
    (id : String) (rows : List PersistedInstanceState) (s : PersistedInstanceState)
    → AreSettled rows
    → find_saved id rows ≡ some s
    → is_draining s.traffic ≡ false
find_saved-is_draining id [] s h e = absurd cc
find_saved-is_draining id (r ∷ rows) s h e =
    prefer-is_draining (find_saved id rows) (if str_eq r.id id then some r else none) s
      (find_saved-is_draining id rows s h.1) (λ is. ground (arith, h.0)) e

new_gate-is_draining :
    (backend : BackendConfig) (rows : List PersistedInstanceState)
    (o : Option PersistedInstanceState)
    → AreSettled rows
    → find_saved backend.id rows ≡ o
    → is_draining (new_gate backend o).traffic ≡ false
new_gate-is_draining backend rows none h e = refl
new_gate-is_draining backend rows (some s) h e = find_saved-is_draining backend.id rows s h e

new_gate-idle :
    (backend : BackendConfig) (o : Option PersistedInstanceState)
    → ((new_gate backend o).in_flight ≡ 0) × ((new_gate backend o).long_lived_in_flight ≡ 0)
new_gate-idle backend none = (refl, refl)
new_gate-idle backend (some s) = (refl, refl)

-- A gate beyond those that leases hold.
held-none :
    (k : ℕ) (n : ℕ) (leases : List RequestLease)
    → n ≤ k
    → All (λ (l : RequestLease). gate_of l.instance_ < n) leases
    → (held k leases ≡ 0)
      × (held_long k leases ≡ 0)
      × ((generation : ℕ) → AreOf k generation leases)
held-none k n [] le h = (refl, refl, λ generation. tt)
held-none k n (l ∷ leases) le h =
    let (none_held, none_long, none_of) = held-none k n leases le h.1 in
    (
      ground (arith, h.0, none_held),
      ground (arith, h.0, none_long),
      λ generation. (λ e. absurd (ground (arith, h.0)), none_of generation),
    )

get_elem?-append :
    (gates : List InstanceGate) (g : InstanceGate) (k : ℕ) (found : InstanceGate)
    → get_elem? (gates ++ (g ∷ [])) k ≡ some found
    → (get_elem? gates k ≡ some found) ⊎ ((length gates ≤ k) × (found ≡ g))
get_elem?-append [] g zero found h = inr (omega arith, cc)
get_elem?-append [] g (suc k) found h = absurd cc
get_elem?-append (a ∷ gates) g zero found h = inl h
get_elem?-append (a ∷ gates) g (suc k) found h = elim (get_elem?-append gates g k found h) [
  | inl old ↦ inl old
  | inr (le, new) ↦ inr (omega (arith, le), new)
]

module _ (strict : Bool) (leases : List RequestLease) where
  -- The accounts of gates by themselves.
  abbrev Keeps : List InstanceGate → Type 0
  Keeps gates = AreTrue strict gates leases × ArePlaced gates leases

  Placed-weaken :
      (m n : ℕ) (ls : List RequestLease)
      → m ≤ n
      → All (λ (l : RequestLease). gate_of l.instance_ < m) ls
      → All (λ (l : RequestLease). gate_of l.instance_ < n) ls
  Placed-weaken m n [] le h = tt
  Placed-weaken m n (l ∷ ls) le h = (omega (arith, h.0), Placed-weaken m n ls le h.1)

  add-Keeps :
      (gates : List InstanceGate) (g : InstanceGate)
      → g.in_flight ≡ 0
      → g.long_lived_in_flight ≡ 0
      → is_draining g.traffic ≡ false
      → Keeps gates
      → Keeps (gates ++ (g ∷ []))
  add-Keeps gates g idle short undrained k = (
    λ j found at. elim (get_elem?-append gates g j found at) [
      | inl old ↦ k.0 j found old
      | inr (le, new) ↦
          subst (IsTrue strict j leases) (sym new)
            (new_gate_true j (held-none j (length gates) leases le k.1))
    ],
    Placed-weaken (length gates) (length (gates ++ (g ∷ []))) leases
        (omega (arith, length-append gates (g ∷ []))) k.1,
  )
    where
      new_gate_true :
          (j : ℕ)
          → (held j leases ≡ 0)
            × (held_long j leases ≡ 0)
            × ((generation : ℕ) → AreOf j generation leases)
          → IsTrue strict j leases g
      new_gate_true j (none_held, none_long, none_of) = record {
        counted = idle ∙ sym none_held;
        long = short ∙ sym none_long;
        busy = λ s d. absurd (cc);
        of_generation = λ s. none_of g.generation;
      }

  retarget-IsTrue :
      (existing : LiveInstance) (backend : BackendConfig) (k : ℕ) (g : InstanceGate)
      → IsTrue strict k leases g
      → IsTrue strict k leases (retarget existing backend g)
  retarget-IsTrue existing backend k g t =
      by_test (IsTrue strict k leases) (is_same_target existing backend) _ _ (λ same. t)
        (λ changed. health-IsTrue strict k leases g t (initial_health backend.health_check))

  retarget-Keeps :
      (existing : LiveInstance) (backend : BackendConfig) (gates : List InstanceGate)
      → Keeps gates
      → Keeps (modify (gate_of existing) (retarget existing backend) gates)
  retarget-Keeps existing backend gates k = (
    modify-AreTrue strict (gate_of existing) (retarget existing backend) gates leases leases k.0
        (λ g at t. retarget-IsTrue existing backend _ g t) (λ j g other t. t),
    subst (λ n. All (λ (l : RequestLease). gate_of l.instance_ < n) leases)
        (sym (length-modify (gate_of existing) (retarget existing backend) gates)) k.1,
  )

  module _ (current : List (String × LiveInstance)) (saved : List PersistedInstanceState)
      (settled : AreSettled saved) where
    place_first-Keeps :
        (gates : List InstanceGate) (backend : BackendConfig) (found : Option LiveInstance)
        → Keeps gates
        → Keeps (place_first saved gates backend found).0
    place_first-Keeps gates backend none k =
        add-Keeps gates (new_gate backend (find_saved backend.id saved))
          (new_gate-idle backend (find_saved backend.id saved)).0
          (new_gate-idle backend (find_saved backend.id saved)).1
          (new_gate-is_draining backend saved (find_saved backend.id saved) settled refl) k
    place_first-Keeps gates backend (some existing) k = retarget-Keeps existing backend gates k

    place_backend-Keeps :
        (gates : List InstanceGate) (backend : BackendConfig) (found : Option LiveInstance)
        → Keeps gates
        → Keeps (place_backend current saved gates backend found).0
    place_backend-Keeps gates backend none k =
        place_first-Keeps gates backend (find_instance backend.id current) k
    place_backend-Keeps gates backend (some existing) k = k

    place_backends-Keeps :
        (backends : List BackendConfig) (gates : List InstanceGate)
        (instances : List (String × LiveInstance))
        → Keeps gates
        → Keeps (place_backends current saved backends gates instances).0
    unfolding place_backends
    place_backends-Keeps [] gates instances k = k
    place_backends-Keeps (backend ∷ backends) gates instances k =
        let placed =
          place_backend current saved gates backend (find_instance backend.id instances) in
        place_backends-Keeps backends placed.0 (insert_instance backend.id placed.1 instances)
          (place_backend-Keeps gates backend (find_instance backend.id instances) k)

    place_routes-Keeps :
        (routes : List RouteConfig) (gates : List InstanceGate)
        (instances : List (String × LiveInstance))
        → Keeps gates
        → Keeps (place_routes current saved routes gates instances).0
    unfolding place_routes
    place_routes-Keeps [] gates instances k = k
    place_routes-Keeps (route ∷ routes) gates instances k =
        let placed = place_backends current saved route.backends gates instances in
        place_routes-Keeps routes placed.0 placed.1
          (place_backends-Keeps route.backends gates instances k)

pub publish-IsAccounted :
    (strict : Bool) (rt : GatewayRuntime) (config : GatewayConfig)
    (rows : List PersistedInstanceState)
    → IsAccounted strict rt
    → IsAccounted strict (publish config (load_instance_states rows) rt)
unfolding publish
publish-IsAccounted strict rt config rows a =
    let k =
      place_routes-Keeps strict rt.leases rt.instances (load_instance_states rows)
        (load_instance_states-AreSettled rows) config.routes rt.gates [] (a.gates_true, a.placed) in
    record { gates_true = k.0; placed = k.1 }
