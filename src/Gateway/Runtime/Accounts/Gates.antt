-- ===== src/Gateway/Runtime/Accounts/Gates.antt =====
-- One gate at a time: a change of it, and the leases that come and go.
use senix.Prelude.{
  ℕ, zero, suc, Bool, false, List, [], ◌∷◌, length, some, get_elem?, ◌==◌, ◌≡◌, refl, sym, subst,
  ap, ◌⊎◌, inl, inr, arith,
}
use senix.Gateway.State.{InstanceState, HealthState, disabled}
use senix.Gateway.Instance.{InstanceGate, RequestLease, done, close, rejoin_gate, restore_gate}
use senix.Gateway.Runtime.{modify}
use senix.Gateway.Runtime.Accounts.{held, AreOf, IsTrue, AreTrue}

pub length-modify :
    (k : ℕ) (f : InstanceGate → InstanceGate) (gates : List InstanceGate)
    → length (modify k f gates) ≡ length gates
length-modify k f [] = refl
length-modify zero f (g ∷ gates) = refl
length-modify (suc k) f (g ∷ gates) = ap suc (length-modify k f gates)

-- A gate after the change of one: it is the changed one, or as before.
get_elem?-modify :
    (k : ℕ) (f : InstanceGate → InstanceGate) (gates : List InstanceGate) (j : ℕ) (g : InstanceGate)
    → get_elem? (modify k f gates) j ≡ some g
    → ((old : InstanceGate) × (j ≡ k) × (get_elem? gates k ≡ some old) × (g ≡ f old))
      ⊎ (((k == j) ≡ false) × (get_elem? gates j ≡ some g))
get_elem?-modify k f [] j g h = absurd cc
get_elem?-modify zero f (a ∷ gates) zero g h = inl (a, refl, refl, cc)
get_elem?-modify zero f (a ∷ gates) (suc j) g h = inr (ground arith, h)
get_elem?-modify (suc k) f (a ∷ gates) zero g h = inr (ground arith, h)
get_elem?-modify (suc k) f (a ∷ gates) (suc j) g h = elim (get_elem?-modify k f gates j g h) [
  | inl (old, same, at, e) ↦ inl (old, ap suc same, at, e)
  | inr (other, at) ↦ inr (ground arith, at)
]

-- The leases of the other gates may change too, if their counts and generations do not.
pub modify-AreTrue :
    (strict : Bool) (k : ℕ) (f : InstanceGate → InstanceGate) (gates : List InstanceGate)
    (before after : List RequestLease)
    → AreTrue strict gates before
    → ((g : InstanceGate)
        → get_elem? gates k ≡ some g
        → IsTrue strict k before g
        → IsTrue strict k after (f g))
    → ((j : ℕ) (g : InstanceGate)
        → (k == j) ≡ false
        → IsTrue strict j before g
        → IsTrue strict j after g)
    → AreTrue strict (modify k f gates) after
modify-AreTrue strict k f gates before after t here others j g at =
    elim (get_elem?-modify k f gates j g at) [
      | inl (old, same, was, e) ↦
          subst (λ i. IsTrue strict i after g) (sym same)
            (subst (IsTrue strict k after) (sym e) (here old was (t k old was)))
      | inr (other, was) ↦ others j g other (t j g was)
    ]

held-zero :
    (k : ℕ) (leases : List RequestLease) (generation : ℕ)
    → held k leases ≡ 0
    → AreOf k generation leases
held-zero k [] generation h = tt
held-zero k (l ∷ leases) generation h =
    (λ e. absurd (ground (arith, e)), held-zero k leases generation (ground arith))

module _ (strict : Bool) (k : ℕ) (leases : List RequestLease) (g : InstanceGate)
    (t : IsTrue strict k leases g) where
  pub health-IsTrue : (h : HealthState) → IsTrue strict k leases (record g { health = h })
  health-IsTrue h = record {
    counted = t.counted;
    long = t.long;
    busy = t.busy;
    of_generation = t.of_generation;
  }

  pub weight-IsTrue : (w : ℕ) → IsTrue strict k leases (record g { weight = w })
  weight-IsTrue w = record {
    counted = t.counted;
    long = t.long;
    busy = t.busy;
    of_generation = t.of_generation;
  }

  pub disabled-IsTrue : IsTrue strict k leases (record g { traffic = disabled })
  disabled-IsTrue = record {
    counted = t.counted;
    long = t.long;
    busy = λ s d. absurd cc;
    of_generation = t.of_generation;
  }

  pub close-IsTrue : IsTrue strict k leases (close g)
  unfolding close
  close-IsTrue = record {
    counted = t.counted;
    long = t.long;
    busy = λ s d. ground arith;
    of_generation = t.of_generation;
  }

  pub rejoin_gate-IsTrue :
      (generation weight : ℕ) (force : Bool) (g' : InstanceGate)
      → rejoin_gate generation weight force g ≡ done g'
      → IsTrue strict k leases g'
  unfolding rejoin_gate
  rejoin_gate-IsTrue generation weight force g' h = record {
    counted = ground (arith, t.counted);
    long = ground (arith, t.long);
    busy = λ s d. ground arith;
    of_generation = λ s. held-zero k leases g'.generation (ground (arith, t.counted));
  }

  pub restore_gate-IsTrue :
      (before : InstanceState) → strict ≡ false → IsTrue strict k leases (restore_gate before g)
  unfolding restore_gate
  restore_gate-IsTrue before lax = record {
    counted = t.counted;
    long = t.long;
    busy = λ s. absurd cc;
    of_generation = λ s. absurd cc;
  }
