-- ===== src/Gateway/Runtime/Accounts.antt =====
-- What the gates count against the leases that requests hold.
pub mod Gates
pub mod Leases
pub mod Operations
pub mod Requests
pub mod Publications
pub mod Histories
use senix.Prelude.{
  ℕ, zero, suc, ◌+◌, ◌<◌, Bool, true, false, String, List, [], ◌∷◌, All, length, some, get_elem?,
  ◌==◌, if◌then◌else◌, ◌&&◌, ◌≡◌,
}
use senix.Gateway.State.{is_draining}
use senix.Gateway.Instance.{InstanceGate, LiveInstance, RequestLease}
use senix.Gateway.Runtime.{GatewayRuntime, gate_of}

-- The leases of one gate, and those of them that are long-lived.
abbrev pub held : ℕ → List RequestLease → ℕ
held k [] = 0
held k (l ∷ leases) = (if gate_of l.instance_ == k then 1 else 0) + held k leases

abbrev pub held_long : ℕ → List RequestLease → ℕ
held_long k [] = 0
held_long k (l ∷ leases) =
    (if gate_of l.instance_ == k && l.long_lived then 1 else 0) + held_long k leases

-- Every lease of the gate is of the generation.
abbrev pub AreOf : ℕ → ℕ → List RequestLease → Type 0
AreOf k generation [] = Unit
AreOf k generation (l ∷ leases) =
    ((gate_of l.instance_ == k) ≡ true → l.generation ≡ generation) × AreOf k generation leases

-- A gate counts its leases. Where `strict`, so too: it is draining only while it has leases, and
-- these are of its present generation.
pub record IsTrue (strict : Bool) (k : ℕ) (leases : List RequestLease) (g : InstanceGate)
    : Type 0 where
  pub counted : g.in_flight ≡ held k leases
  pub long : g.long_lived_in_flight ≡ held_long k leases
  pub busy : strict ≡ true → is_draining g.traffic ≡ true → 0 < g.in_flight
  pub of_generation : strict ≡ true → AreOf k g.generation leases

abbrev pub AreTrue : Bool → List InstanceGate → List RequestLease → Type 0
AreTrue strict gates leases =
    (k : ℕ) (g : InstanceGate) → get_elem? gates k ≡ some g → IsTrue strict k leases g

abbrev pub ArePlaced : List InstanceGate → List RequestLease → Type 0
ArePlaced gates leases = All (λ (l : RequestLease). gate_of l.instance_ < length gates) leases

pub record IsAccounted (strict : Bool) (rt : GatewayRuntime) : Type 0 where
  pub gates_true : AreTrue strict rt.gates rt.leases
  pub placed : ArePlaced rt.gates rt.leases
