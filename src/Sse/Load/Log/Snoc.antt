-- ===== src/Sse/Load/Log/Snoc.antt =====
-- Sums and samples of a log that has grown at its end, and the count of protocols.
use senix.Prelude.{
  lt→ltb, subst, ℕ, zero, suc, ◌+◌, String, str_eq, str_eq_iff, List, [], ◌∷◌, ◌++◌, append-nil,
  append_assoc, ltb, length, take, if◌then◌else◌, ◌≡◌, refl, sym, ap, ◌∙◌, arith, Bool-cases, inl,
  inr,
}
use senix.Sse.Load.{tally}
use senix.Sse.Load.Log.{collect, total, counted}

pub collect-snoc {ℓ κ} :
    {A : Type ℓ} {B : Type κ} (f : A → List B) (log : List A) (a : A)
    → collect f (log ++ a ∷ []) ≡ collect f log ++ f a
collect-snoc f [] a = append-nil (f a)
collect-snoc f (b ∷ log) a =
    ap (f b ++◌) (collect-snoc f log a) ∙ sym (append_assoc (f b) (collect f log) (f a))

pub total-snoc {ℓ} :
    {A : Type ℓ} (f : A → ℕ) (log : List A) (a : A) → total f (log ++ a ∷ []) ≡ total f log + f a
total-snoc f [] a = omega arith
total-snoc f (b ∷ log) a = omega (arith, total-snoc f log a)

ltb-suc : (m n : ℕ) → ltb (suc m) (suc n) ≡ ltb m n
ltb-suc m n = ground arith

-- The first `n` entries of a list that has grown at its end.
pub take-snoc {ℓ} :
    {A : Type ℓ} (n : ℕ) (xs : List A) (a : A)
    → take n (xs ++ a ∷ [])
      ≡ (if ltb (length (take n xs)) n then take n xs ++ a ∷ [] else take n xs)
take-snoc zero xs a = refl
take-snoc (suc zero) [] a = refl
take-snoc (suc (suc n)) [] a = rw (lt→ltb 0 (suc (suc n)) (omega arith)) refl
take-snoc {A} (suc n) (x ∷ xs) a =
    let rest = take-snoc {A = A} n xs a in
    elim (Bool-cases (ltb (length (take n xs)) n)) [
      | inl room ↦ rw (ltb-suc (length (take n xs)) n, room) (ap (x ∷◌) (rw room at rest))
      | inr full ↦ rw (ltb-suc (length (take n xs)) n, full) (ap (x ∷◌) (rw full at rest))
    ]

-- One more of a protocol that is there.
counted_more :
    (name protocol other : String) (n m : ℕ)
    → other ≡ protocol
    → (if str_eq other name then n + 1 else 0) + m
      ≡ (if str_eq other name then n else 0) + m + (if str_eq protocol name then 1 else 0)
counted_more name protocol other n m e =
    subst
      (λ (p : String).
        (if str_eq other name then n + 1 else 0) + m
        ≡ (if str_eq other name then n else 0) + m + (if str_eq p name then 1 else 0))
      e (ground arith)

pub counted-tally :
    (name protocol : String) (ts : List (String × ℕ))
    → counted name (tally protocol ts) ≡ counted name ts + (if str_eq protocol name then 1 else 0)
counted-tally name protocol [] = omega arith
counted-tally name protocol ((other, n) ∷ later) = elim (Bool-cases (str_eq other protocol)) [
  | inl same ↦
      rw same (
        counted_more name protocol other n (counted name later)
          ((str_eq_iff other protocol).0 same))
  | inr different ↦ rw different (omega (arith, counted-tally name protocol later))
]
