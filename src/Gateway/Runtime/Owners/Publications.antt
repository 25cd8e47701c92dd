-- ===== src/Gateway/Runtime/Owners/Publications.antt =====
-- The owners of the gates over a publication.
use senix.Prelude.{
  ℕ, suc, String, str_eq, str_eq_iff, List, [], ◌∷◌, ◌++◌, All, Option, none, some, length,
  length-append, if◌then◌else◌, ◌==◌, by_test, ◌≡◌, refl, sym, ◌∙◌, arith,
}
use senix.Gateway.State.{BackendConfig, RouteConfig, GatewayConfig, PersistedInstanceState}
use senix.Gateway.Instance.{InstanceGate, LiveInstance}
use senix.Gateway.Runtime.{GatewayRuntime, gate_of, find_instance}
use senix.Gateway.Runtime.Publish.{
  find_saved, new_gate, retarget, insert_instance, place_first, place_backend, place_backends,
  place_routes, publish,
}
use senix.Gateway.Runtime.Accounts.Gates.{length-modify}
use senix.Gateway.Runtime.Owners.{
  Owns, OwnsInstances, OwnsRoutes, IsOwned, Extends, Extends-refl, Extends-trans, Owns-extend,
  OwnsInstances-extend, All-Owns-extend, find_instance-Owns,
}

-- The gates after one backend, and its instance.
record Places (owner : ℕ → String) (n : ℕ) (id : String) (placed : List InstanceGate × LiveInstance)
    : Type 0 where
  owner' : ℕ → String
  extends_ : Extends owner n owner' (length placed.0)
  named : placed.1.control.id ≡ id
  owns : Owns owner' (length placed.0) placed.1

module _ (saved : List PersistedInstanceState) (owner : ℕ → String) (gates : List InstanceGate)
    (backend : BackendConfig) where
  add_owner : ℕ → String
  add_owner k = if k == length gates then backend.id else owner k

  place_first-Places :
      (current : List (String × LiveInstance)) (found : Option LiveInstance)
      → OwnsInstances owner (length gates) current
      → find_instance backend.id current ≡ found
      → Places owner (length gates) backend.id (place_first saved gates backend found)
  unfolding add_owner
  place_first-Places current none h is =
      let longer : length (gates ++ (new_gate backend (find_saved backend.id saved) ∷ []))
          ≡ suc (length gates) =
        omega (arith, length-append gates (new_gate backend (find_saved backend.id saved) ∷ [])) in
      record {
        owner' = add_owner;
        extends_ = record { more = omega (arith, longer); same = λ k below. ground (arith, below) };
        named = refl;
        owns = (ground arith, omega (arith, longer));
      }
  place_first-Places current (some existing) h is =
      let (named, owns) =
        find_instance-Owns owner (length gates) backend.id current existing h is in
      let long = length-modify (gate_of existing) (retarget existing backend) gates in
      record {
        owner' = owner;
        extends_ = record { more = omega (arith, long); same = λ k below. refl };
        named = named;
        owns = (owns.0, omega (arith, long, owns.1));
      }

  place_backend-Places :
      (current instances : List (String × LiveInstance)) (found : Option LiveInstance)
      → OwnsInstances owner (length gates) current
      → OwnsInstances owner (length gates) instances
      → find_instance backend.id instances ≡ found
      → Places owner (length gates) backend.id (place_backend current saved gates backend found)
  place_backend-Places current instances none h k is =
      place_first-Places current (find_instance backend.id current) h refl
  place_backend-Places current instances (some existing) h k is =
      let (named, owns) =
        find_instance-Owns owner (length gates) backend.id instances existing k is in
      record {
        owner' = owner;
        extends_ = Extends-refl owner (length gates);
        named = named;
        owns = owns;
      }

insert_instance-OwnsInstances :
    (owner : ℕ → String) (n : ℕ) (id : String) (live : LiveInstance)
    (instances : List (String × LiveInstance))
    → live.control.id ≡ id
    → Owns owner n live
    → OwnsInstances owner n instances
    → OwnsInstances owner n (insert_instance id live instances)
insert_instance-OwnsInstances owner n id live [] named owns h = ((sym named, owns), tt)
insert_instance-OwnsInstances owner n id live ((key, old) ∷ instances) named owns h =
    by_test (OwnsInstances owner n) (str_eq key id) _ _
      (λ same. (((str_eq_iff key id).0 same ∙ sym named, owns), h.1))
      (λ other. (h.0, insert_instance-OwnsInstances owner n id live instances named owns h.1))

-- The gates after several backends, the instances of the new snapshot so far, and what was built.
record PlacesAll (owner : ℕ → String) (n : ℕ) (gates : List InstanceGate)
    (instances : List (String × LiveInstance)) (built : (ℕ → String) → ℕ → Type 0) : Type 0 where
  owner' : ℕ → String
  extends_ : Extends owner n owner' (length gates)
  keyed : OwnsInstances owner' (length gates) instances
  owns : built owner' (length gates)

module _ (current : List (String × LiveInstance)) (saved : List PersistedInstanceState) where
  place_backends-PlacesAll :
      (backends : List BackendConfig) (owner : ℕ → String) (gates : List InstanceGate)
      (instances : List (String × LiveInstance))
      → OwnsInstances owner (length gates) current
      → OwnsInstances owner (length gates) instances
      → PlacesAll owner
          (length gates)
          (place_backends current saved backends gates instances).0
          (place_backends current saved backends gates instances).1
          (λ owner' n.
            All (Owns owner' n) (place_backends current saved backends gates instances).2)
  unfolding place_backends
  place_backends-PlacesAll [] owner gates instances h k = record {
    owner' = owner;
    extends_ = Extends-refl owner (length gates);
    keyed = k;
    owns = tt;
  }
  place_backends-PlacesAll (backend ∷ backends) owner gates instances h k =
      let found = find_instance backend.id instances in
      let placed = place_backend current saved gates backend found in
      let p : Places owner (length gates) backend.id placed =
        place_backend-Places saved owner gates backend current instances found h k refl in
      let rest =
        place_backends-PlacesAll backends p.owner' placed.0
          (insert_instance backend.id placed.1 instances)
          (OwnsInstances-extend owner (length gates) p.owner' (length placed.0) p.extends_ current
            h)
          (insert_instance-OwnsInstances p.owner' (length placed.0) backend.id placed.1 instances
            p.named p.owns
            (OwnsInstances-extend owner (length gates) p.owner' (length placed.0) p.extends_
              instances k)) in
      record {
        owner' = rest.owner';
        extends_ =
            Extends-trans owner p.owner' rest.owner' _ (length placed.0) _ p.extends_ rest.extends_;
        keyed = rest.keyed;
        owns = (
          Owns-extend p.owner' (length placed.0) rest.owner' _ rest.extends_ placed.1 p.owns,
          rest.owns,
        );
      }

  place_routes-PlacesAll :
      (routes : List RouteConfig) (owner : ℕ → String) (gates : List InstanceGate)
      (instances : List (String × LiveInstance))
      → OwnsInstances owner (length gates) current
      → OwnsInstances owner (length gates) instances
      → PlacesAll owner
          (length gates)
          (place_routes current saved routes gates instances).0
          (place_routes current saved routes gates instances).1
          (λ owner' n. OwnsRoutes owner' n (place_routes current saved routes gates instances).2)
  unfolding place_routes
  place_routes-PlacesAll [] owner gates instances h k = record {
    owner' = owner;
    extends_ = Extends-refl owner (length gates);
    keyed = k;
    owns = tt;
  }
  place_routes-PlacesAll (route ∷ routes) owner gates instances h k =
      let placed = place_backends current saved route.backends gates instances in
      let p = place_backends-PlacesAll route.backends owner gates instances h k in
      let rest =
        place_routes-PlacesAll routes p.owner' placed.0 placed.1
          (OwnsInstances-extend owner (length gates) p.owner' (length placed.0) p.extends_ current
            h)
          p.keyed in
      record {
        owner' = rest.owner';
        extends_ =
            Extends-trans owner p.owner' rest.owner' _ (length placed.0) _ p.extends_ rest.extends_;
        keyed = rest.keyed;
        owns = (
          All-Owns-extend p.owner' (length placed.0) rest.owner' _ rest.extends_ placed.2 p.owns,
          rest.owns,
        );
      }

pub publish-IsOwned :
    (rt : GatewayRuntime) (config : GatewayConfig) (saved : List PersistedInstanceState)
    → IsOwned rt
    → IsOwned (publish config saved rt)
unfolding publish
publish-IsOwned rt config saved o =
    let p =
      place_routes-PlacesAll rt.instances saved config.routes o.owner rt.gates [] o.instances tt in
    record { owner = p.owner'; instances = p.keyed; routes = p.owns }
