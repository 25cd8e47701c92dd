-- ===== src/Gateway/Schedule/Sums.antt =====
-- The values of a schedule, and sums over backends with different ids.
use senix.Prelude.{
  ℕ, ◌+◌, ◌*◌, Bool, true, false, not, String, str_eq, str_eq_iff, List, [], ◌∷◌, All, length,
  if◌then◌else◌, ◌&&◌, ◌≡◌, refl, subst, arith, Bool-cases, inl, inr,
}
use senix.Gateway.Schedule.{Schedule, value, put, total_weight}

pub same_id : (id : String) → str_eq id id ≡ true
same_id id = (str_eq_iff id id).1 refl

abbrev pub is_absent : String → List (String × ℕ) → Bool
is_absent id [] = true
is_absent id ((key, weight) ∷ weighted) = not (str_eq key id) && is_absent id weighted

-- No two of the backends have the same id.
abbrev pub AreDistinct : List (String × ℕ) → Type 0
AreDistinct [] = Unit
AreDistinct ((id, weight) ∷ weighted) = (is_absent id weighted ≡ true) × AreDistinct weighted

-- The weight of a backend, 0 where there is none with the id.
abbrev pub weight_of : String → List (String × ℕ) → ℕ
weight_of id [] = 0
weight_of id ((key, weight) ∷ weighted) =
    let rest = weight_of id weighted in if str_eq key id then weight else rest

abbrev pub sum_of : (String → ℕ) → List (String × ℕ) → ℕ
sum_of f [] = 0
sum_of f ((id, weight) ∷ weighted) = f id + sum_of f weighted

pub value-put :
    (id other : String) (v : ℕ) (s : Schedule)
    → value other (put id v s) ≡ (if str_eq id other then v else value other s)
unfolding value put
value-put id other v [] = refl
value-put id other v ((key, old) ∷ s) =
    ground
      (arith, str_eq_iff key id, str_eq_iff key other, str_eq_iff id other, value-put id other v s)

pub weight_of-absent :
    (id : String) (ws : List (String × ℕ)) → is_absent id ws ≡ true → weight_of id ws ≡ 0
weight_of-absent id [] h = refl
weight_of-absent id ((key, w) ∷ ws) h = ground (arith, weight_of-absent id ws)

-- What holds of each backend holds of the one with a given id.
pub All-at :
    (P : String → Type 0) (id : String) (ws : List (String × ℕ))
    → All (λ (b : String × ℕ). P b.0) ws
    → is_absent id ws ≡ false
    → P id
All-at P id [] h present = absurd cc
All-at P id ((key, w) ∷ ws) h present = elim (Bool-cases (str_eq key id)) [
  | inl same ↦ subst P ((str_eq_iff key id).0 same) h.0
  | inr other ↦ All-at P id ws h.1 (rw other at present)
]

pub sum_of-ext :
    (f g : String → ℕ) (ws : List (String × ℕ))
    → ((id : String) → is_absent id ws ≡ false → f id ≡ g id)
    → sum_of f ws ≡ sum_of g ws
sum_of-ext f g [] h = refl
sum_of-ext f g ((id, w) ∷ ws) h =
    omega (arith, h id (ground (arith, same_id id)), sum_of-ext f g ws (λ i a. h i (ground arith)))

pub sum_of-add :
    (f g : String → ℕ) (ws : List (String × ℕ))
    → sum_of (λ id. f id + g id) ws ≡ sum_of f ws + sum_of g ws
sum_of-add f g [] = refl
sum_of-add f g ((id, w) ∷ ws) = omega (arith, sum_of-add f g ws)

pub sum_of-zero : (ws : List (String × ℕ)) → sum_of (λ _. 0) ws ≡ 0
sum_of-zero [] = refl
sum_of-zero ((id, w) ∷ ws) = omega (arith, sum_of-zero ws)

pub sum_of-const : (c : ℕ) (ws : List (String × ℕ)) → sum_of (λ _. c) ws ≡ length ws * c
sum_of-const c [] = omega arith
sum_of-const c ((id, w) ∷ ws) = grind (arith, sum_of-const c ws)

pub sum_of-absent :
    (c : ℕ) (chosen : String) (ws : List (String × ℕ))
    → is_absent chosen ws ≡ true
    → sum_of (λ id. if str_eq chosen id then c else 0) ws ≡ 0
sum_of-absent c chosen [] h = refl
sum_of-absent c chosen ((id, w) ∷ ws) h =
    ground (arith, str_eq_iff chosen id, str_eq_iff id chosen, sum_of-absent c chosen ws)

-- Of one backend alone.
pub sum_of-one :
    (c : ℕ) (chosen : String) (ws : List (String × ℕ))
    → AreDistinct ws
    → is_absent chosen ws ≡ false
    → sum_of (λ id. if str_eq chosen id then c else 0) ws ≡ c
sum_of-one c chosen [] d h = absurd cc
sum_of-one c chosen ((id, w) ∷ ws) d h = elim (Bool-cases (str_eq id chosen)) [
  | inl same ↦
      ground (arith, str_eq_iff chosen id, str_eq_iff id chosen, sum_of-absent c chosen ws, d.0)
  | inr other ↦
      ground (arith, str_eq_iff chosen id, str_eq_iff id chosen, sum_of-one c chosen ws d.1)
]

pub sum_of-weight_of :
    (ws : List (String × ℕ)) → AreDistinct ws → sum_of (λ id. weight_of id ws) ws ≡ total_weight ws
sum_of-weight_of [] d = refl
sum_of-weight_of ((id, w) ∷ ws) d = omega (arith, rest, sum_of-weight_of ws d.1, here)
  where
    here : weight_of id ((id, w) ∷ ws) ≡ w
    here = ground (arith, same_id id)

    rest :
        sum_of (λ other. weight_of other ((id, w) ∷ ws)) ws
        ≡ sum_of (λ other. weight_of other ws) ws
    rest =
        sum_of-ext (λ other. weight_of other ((id, w) ∷ ws)) (λ other. weight_of other ws) ws
          λ other h. ground (arith, str_eq_iff id other, d.0)
