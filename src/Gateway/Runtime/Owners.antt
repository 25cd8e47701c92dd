-- ===== src/Gateway/Runtime/Owners.antt =====
-- To which id each gate belongs.
pub mod Publications
pub mod Steps
pub mod Histories
use senix.Prelude.{
  ℕ, zero, suc, ◌+◌, ◌<◌, ◌≤◌, Bool, true, false, String, str_eq, str_eq_iff, List, [], ◌∷◌, All,
  Option, none, some, some_injective, length, if◌then◌else◌, Bool-cases, ◌≡◌, refl, sym, subst, ◌∙◌,
  inl, inr, arith,
}
use senix.Gateway.Instance.{LiveInstance}
use senix.Gateway.Runtime.{GatewayRuntime, RuntimeRoute, gate_of, find_instance}

-- Among the first `n` gates, the one of the instance belongs to its id.
abbrev pub Owns : (ℕ → String) → ℕ → LiveInstance → Type 0
Owns owner n live = (owner (gate_of live) ≡ live.control.id) × (gate_of live < n)

abbrev pub OwnsKeyed : (ℕ → String) → ℕ → String × LiveInstance → Type 0
OwnsKeyed owner n entry = (entry.0 ≡ entry.1.control.id) × Owns owner n entry.1

abbrev pub OwnsInstances : (ℕ → String) → ℕ → List (String × LiveInstance) → Type 0
OwnsInstances owner n instances = All (OwnsKeyed owner n) instances

abbrev pub OwnsRoutes : (ℕ → String) → ℕ → List RuntimeRoute → Type 0
OwnsRoutes owner n routes = All (λ (r : RuntimeRoute). All (Owns owner n) r.backends) routes

pub record IsOwned (rt : GatewayRuntime) : Type 0 where
  pub owner : ℕ → String
  pub instances : OwnsInstances owner (length rt.gates) rt.instances
  pub routes : OwnsRoutes owner (length rt.gates) rt.routes

-- More gates, which leave the owners of those before.
pub record Extends (owner : ℕ → String) (n : ℕ) (owner' : ℕ → String) (n' : ℕ) : Type 0 where
  pub more : n ≤ n'
  pub same : (k : ℕ) → k < n → owner' k ≡ owner k

pub Extends-refl : (owner : ℕ → String) (n : ℕ) → Extends owner n owner n
Extends-refl owner n = record { more = omega arith; same = λ k h. refl }

pub Extends-trans :
    (a b c : ℕ → String) (l m n : ℕ) → Extends a l b m → Extends b m c n → Extends a l c n
Extends-trans a b c l m n e f = record {
  more = omega (arith, e.more, f.more);
  same = λ k h. f.same k (omega (arith, h, e.more)) ∙ e.same k h;
}

module _ (owner : ℕ → String) (n : ℕ) (owner' : ℕ → String) (n' : ℕ)
    (e : Extends owner n owner' n') where
  pub Owns-extend : (live : LiveInstance) → Owns owner n live → Owns owner' n' live
  Owns-extend live (is, below) = (e.same (gate_of live) below ∙ is, omega (arith, below, e.more))

  pub OwnsInstances-extend :
      (instances : List (String × LiveInstance))
      → OwnsInstances owner n instances
      → OwnsInstances owner' n' instances
  OwnsInstances-extend [] h = tt
  OwnsInstances-extend (entry ∷ instances) h =
      ((h.0.0, Owns-extend entry.1 h.0.1), OwnsInstances-extend instances h.1)

  pub All-Owns-extend :
      (lives : List LiveInstance) → All (Owns owner n) lives → All (Owns owner' n') lives
  All-Owns-extend [] h = tt
  All-Owns-extend (live ∷ lives) h = (Owns-extend live h.0, All-Owns-extend lives h.1)

  pub OwnsRoutes-extend :
      (routes : List RuntimeRoute) → OwnsRoutes owner n routes → OwnsRoutes owner' n' routes
  OwnsRoutes-extend [] h = tt
  OwnsRoutes-extend (r ∷ routes) h = (All-Owns-extend r.backends h.0, OwnsRoutes-extend routes h.1)

-- The instance that is found for an id has this id.
pub find_instance-Owns :
    (owner : ℕ → String) (n : ℕ) (id : String) (instances : List (String × LiveInstance))
    (live : LiveInstance)
    → OwnsInstances owner n instances
    → find_instance id instances ≡ some live
    → (live.control.id ≡ id) × Owns owner n live
find_instance-Owns owner n id [] live h is = absurd cc
find_instance-Owns owner n id ((key, a) ∷ instances) live h is = elim (Bool-cases (str_eq key id)) [
  | inl same ↦
      let found : a ≡ live = some_injective (ground (arith, is, same)) in
      subst (λ (l : LiveInstance). (l.control.id ≡ id) × Owns owner n l) found
        (sym h.0.0 ∙ (str_eq_iff key id).0 same, h.0.1)
  | inr other ↦ find_instance-Owns owner n id instances live h.1 (ground (arith, is, other))
]
