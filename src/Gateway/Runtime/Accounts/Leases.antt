-- ===== src/Gateway/Runtime/Accounts/Leases.antt =====
-- The accounts of the gates where a lease begins, becomes long-lived, or ends.
use senix.Prelude.{
  ℕ, zero, suc, ◌+◌, Bool, true, false, List, [], ◌∷◌, some, get_elem?, remove, replace, ◌==◌,
  if◌then◌else◌, ◌&&◌, ◌≡◌, refl, subst, arith,
}
use senix.Gateway.Instance.{InstanceGate, RequestLease, try_acquire, count_long_lived, release}
use senix.Gateway.Runtime.{gate_of}
use senix.Gateway.Runtime.Accounts.{held, held_long, AreOf, IsTrue}

pub try_acquire-IsTrue :
    (strict : Bool) (k : ℕ) (leases : List RequestLease) (g g' : InstanceGate) (l : RequestLease)
    → IsTrue strict k leases g
    → try_acquire g ≡ some (g', l.generation)
    → gate_of l.instance_ ≡ k
    → l.long_lived ≡ false
    → IsTrue strict k (l ∷ leases) g'
unfolding try_acquire
try_acquire-IsTrue strict k leases g g' l t h here short = record {
  counted = ground (arith, t.counted);
  long = ground (arith, t.long);
  busy = λ s d. ground arith;
  of_generation = λ s. (λ e. ground arith, same_generation s);
}
  where
    same : g.generation ≡ g'.generation
    same = ground arith

    same_generation : strict ≡ true → AreOf k g'.generation leases
    same_generation s = subst (λ n. AreOf k n leases) same (t.of_generation s)

pub IsTrue-begun :
    (strict : Bool) (j : ℕ) (leases : List RequestLease) (g : InstanceGate) (l : RequestLease)
    → (gate_of l.instance_ == j) ≡ false
    → IsTrue strict j leases g
    → IsTrue strict j (l ∷ leases) g
IsTrue-begun strict j leases g l other t = record {
  counted = ground (arith, t.counted);
  long = ground (arith, t.long);
  busy = t.busy;
  of_generation = λ s. (λ e. absurd cc, t.of_generation s);
}

module _ (k : ℕ) (l : RequestLease) where
  held-remove :
      (leases : List RequestLease) (n : ℕ)
      → get_elem? leases n ≡ some l
      → held k leases ≡ (if gate_of l.instance_ == k then 1 else 0) + held k (remove n leases)
  held-remove [] n h = absurd cc
  held-remove (a ∷ leases) zero h = ground arith
  held-remove (a ∷ leases) (suc n) h = omega (arith, held-remove leases n h)

  held_long-remove :
      (leases : List RequestLease) (n : ℕ)
      → get_elem? leases n ≡ some l
      → held_long k leases
        ≡ (if gate_of l.instance_ == k && l.long_lived then 1 else 0)
          + held_long k (remove n leases)
  held_long-remove [] n h = absurd cc
  held_long-remove (a ∷ leases) zero h = ground arith
  held_long-remove (a ∷ leases) (suc n) h = omega (arith, held_long-remove leases n h)

  AreOf-remove :
      (generation : ℕ) (leases : List RequestLease) (n : ℕ)
      → AreOf k generation leases
      → AreOf k generation (remove n leases)
  AreOf-remove generation [] n h = tt
  AreOf-remove generation (a ∷ leases) zero h = h.1
  AreOf-remove generation (a ∷ leases) (suc n) h = (h.0, AreOf-remove generation leases n h.1)

  abbrev marked : RequestLease
  marked = record l { long_lived = true }

  held-replace :
      (leases : List RequestLease) (n : ℕ)
      → get_elem? leases n ≡ some l
      → held k (replace n marked leases) ≡ held k leases
  held-replace [] n h = refl
  held-replace (a ∷ leases) zero h = ground arith
  held-replace (a ∷ leases) (suc n) h = omega (arith, held-replace leases n h)

  held_long-replace :
      (leases : List RequestLease) (n : ℕ)
      → get_elem? leases n ≡ some l
      → l.long_lived ≡ false
      → held_long k (replace n marked leases)
        ≡ (if gate_of l.instance_ == k then 1 else 0) + held_long k leases
  held_long-replace [] n h short = absurd cc
  held_long-replace (a ∷ leases) zero h short = ground arith
  held_long-replace (a ∷ leases) (suc n) h short = omega (arith, held_long-replace leases n h short)

  AreOf-replace :
      (generation : ℕ) (leases : List RequestLease) (n : ℕ)
      → get_elem? leases n ≡ some l
      → AreOf k generation leases
      → AreOf k generation (replace n marked leases)
  AreOf-replace generation [] n h t = tt
  AreOf-replace generation (a ∷ leases) zero h t =
      (λ e. ground (arith, t.0 (ground (arith, e))), t.1)
  AreOf-replace generation (a ∷ leases) (suc n) h t = (t.0, AreOf-replace generation leases n h t.1)

-- The gate of the lease, and the others.
module _ (strict : Bool) (leases : List RequestLease) (n : ℕ) (l : RequestLease)
    (at : get_elem? leases n ≡ some l) where
  pub release-IsTrue :
      (k : ℕ) (g : InstanceGate)
      → gate_of l.instance_ ≡ k
      → IsTrue strict k leases g
      → IsTrue strict k (remove n leases) (release l.long_lived g)
  unfolding release
  release-IsTrue k g here t = record {
    counted = ground (arith, t.counted, held-remove k l leases n at);
    long = ground (arith, t.long, held_long-remove k l leases n at);
    busy = λ s d. ground arith;
    of_generation = λ s.
        subst (λ m. AreOf k m (remove n leases)) same
          (AreOf-remove k l g.generation leases n (t.of_generation s));
  }
    where
      same : g.generation ≡ (release l.long_lived g).generation
      same = ground arith

  pub IsTrue-ended :
      (k : ℕ) (g : InstanceGate)
      → (gate_of l.instance_ == k) ≡ false
      → IsTrue strict k leases g
      → IsTrue strict k (remove n leases) g
  IsTrue-ended k g other t = record {
    counted = ground (arith, t.counted, held-remove k l leases n at);
    long = ground (arith, t.long, held_long-remove k l leases n at);
    busy = t.busy;
    of_generation = λ s. AreOf-remove k l g.generation leases n (t.of_generation s);
  }

  pub count_long_lived-IsTrue :
      (k : ℕ) (g : InstanceGate)
      → gate_of l.instance_ ≡ k
      → l.long_lived ≡ false
      → IsTrue strict k leases g
      → IsTrue strict k (replace n (marked k l) leases) (count_long_lived g)
  unfolding count_long_lived
  count_long_lived-IsTrue k g here short t = record {
    counted = omega (arith, t.counted, held-replace k l leases n at);
    long = ground (arith, t.long, held_long-replace k l leases n at short);
    busy = t.busy;
    of_generation = λ s. AreOf-replace k l g.generation leases n at (t.of_generation s);
  }

  pub IsTrue-marked :
      (k : ℕ) (g : InstanceGate)
      → (gate_of l.instance_ == k) ≡ false
      → l.long_lived ≡ false
      → IsTrue strict k leases g
      → IsTrue strict k (replace n (marked k l) leases) g
  IsTrue-marked k g other short t = record {
    counted = omega (arith, t.counted, held-replace k l leases n at);
    long = ground (arith, t.long, held_long-replace k l leases n at short);
    busy = t.busy;
    of_generation = λ s. AreOf-replace k l g.generation leases n at (t.of_generation s);
  }
