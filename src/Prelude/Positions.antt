-- ===== src/Prelude/Positions.antt =====
-- Lists by position: the entry at an index, another in its place, and the list without it.
use Prim.Native.Nat.{ℕ, zero, suc, ◌+◌}
use mathlib.Core.Path.{◌≡◌, refl, subst}
use mathlib.Core.Option.{some}
use mathlib.Core.List.{List, [], ◌∷◌}
use native.Mathlib.Omega.{arith}
use senix.Prelude.Lists.{length, get_elem?, All}

abbrev pub replace {ℓ} : {A : Type ℓ} → ℕ → A → List A → List A
replace k b [] = []
replace zero b (a ∷ more) = b ∷ more
replace (suc k) b (a ∷ more) = a ∷ replace k b more

abbrev pub remove {ℓ} : {A : Type ℓ} → ℕ → List A → List A
remove k [] = []
remove zero (a ∷ more) = more
remove (suc k) (a ∷ more) = a ∷ remove k more

pub some_injective {ℓ} : {A : Type ℓ} {a b : A} → some a ≡ some b → a ≡ b
some_injective h = ground arith

pub length-replace {ℓ} :
    {A : Type ℓ} (k : ℕ) (b : A) (more : List A) → length (replace k b more) ≡ length more
length-replace k b [] = refl
length-replace zero b (a ∷ more) = refl
length-replace (suc k) b (a ∷ more) = ground (arith, length-replace k b more)

pub length-remove {ℓ} :
    {A : Type ℓ} (k : ℕ) (more : List A) {a : A}
    → get_elem? more k ≡ some a
    → length (remove k more) + 1 ≡ length more
length-remove k [] h = cc
length-remove zero (a ∷ more) h = omega arith
length-remove (suc k) (a ∷ more) h = ground (arith, length-remove k more h)

module _ {ℓ} {A : Type ℓ} (P : A → Type 0) where
  pub All-at : (k : ℕ) (more : List A) {a : A} → All P more → get_elem? more k ≡ some a → P a
  All-at k [] h e = cc
  All-at zero (a ∷ more) (p, h) e = subst P (some_injective e) p
  All-at (suc k) (a ∷ more) (p, h) e = All-at k more h e

  pub All-replace : (k : ℕ) (b : A) (more : List A) → P b → All P more → All P (replace k b more)
  All-replace k b [] p h = tt
  All-replace zero b (a ∷ more) p (q, h) = (p, h)
  All-replace (suc k) b (a ∷ more) p (q, h) = (q, All-replace k b more p h)

  pub All-remove : (k : ℕ) (more : List A) → All P more → All P (remove k more)
  All-remove k [] h = tt
  All-remove zero (a ∷ more) (p, h) = h
  All-remove (suc k) (a ∷ more) (p, h) = (p, All-remove k more h)
