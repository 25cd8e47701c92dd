-- ===== src/Console/Changes/Laws.antt =====
-- Which button a change has.
use senix.Prelude.{
  length, ℕ, ◌<◌, ◌≤◌, true, false, str_eq, str_eq_iff, [], ◌∷◌, Option, none, some, ◌≡◌, ◌⊎◌, refl,
  arith, ltb, ◌==◌, ==_iff, and-true, ltb→lt, ◌&&◌, Bool-cases, inl, inr,
}
use senix.Console.Changes.{Change, Action, approve, apply, rollback, is_over, offered}

-- No time, the time 0, and a time that has come are over.
abbrev pub IsOver : Option ℕ → ℕ → Type 0
IsOver none now = Unit
IsOver (some t) now = (t ≡ 0) ⊎ (t ≤ now)

abbrev pub IsAhead : Option ℕ → ℕ → Type 0
IsAhead expires now = (t : ℕ) × (expires ≡ some t) × (now < t)

abbrev pub IsAllowed : ℕ → Change → Action → Type 0
IsAllowed now c approve =
    ((c.status ≡ "PLANNED") × (length c.issues ≡ 0))
    ⊎ ((c.status ≡ "APPROVED") × IsOver c.approval_expires_at_ms now)
IsAllowed now c apply = (c.status ≡ "APPROVED") × IsAhead c.approval_expires_at_ms now
IsAllowed now c rollback = (c.status ≡ "APPLIED") × (0 < c.base_version)

is_over-IsOver : (expires : Option ℕ) (now : ℕ) → is_over expires now ≡ true → IsOver expires now
is_over-IsOver none now h = tt
is_over-IsOver (some t) now h = ground arith

is_over-IsAhead : (expires : Option ℕ) (now : ℕ) → is_over expires now ≡ false → IsAhead expires now
is_over-IsAhead none now h = cc
is_over-IsAhead (some t) now h = (t, refl, ground arith)

-- The card of a change has at most one button. It is to approve a plan with no issues, or an
-- approved one whose approval is over; to apply an approved one whose approval ends in the future;
-- or to roll back an applied one that has a version to go back to.
pub offered-IsAllowed :
    (now : ℕ) (c : Change)
    → (offered now c ≡ [])
      ⊎ ((action : Action) × (offered now c ≡ action ∷ []) × IsAllowed now c action)
unfolding offered
offered-IsAllowed now c = elim (Bool-cases (str_eq c.status "PLANNED")) [
  | inl planned ↦
      let is : c.status ≡ "PLANNED" = (str_eq_iff _ _).0 planned in
      elim (Bool-cases (length c.issues == 0)) [
        | inl fine ↦ rw (is, fine) (inr (approve, refl, inl (refl, (==_iff _ _).0 fine)))
        | inr issues ↦ rw (is, issues) (inl refl)
      ]
  | inr other ↦ elim (Bool-cases (str_eq c.status "APPROVED")) [
    | inl approved ↦
        let is : c.status ≡ "APPROVED" = (str_eq_iff _ _).0 approved in
        elim (Bool-cases (is_over c.approval_expires_at_ms now)) [
          | inl over ↦ rw (is, over) (inr (approve, refl, inr (refl, is_over-IsOver _ now over)))
          | inr ahead ↦ rw (is, ahead) (inr (apply, refl, (refl, is_over-IsAhead _ now ahead)))
        ]
    | inr pending ↦ elim (Bool-cases (str_eq c.status "APPLIED" && ltb 0 c.base_version)) [
      | inl back ↦
          let (applied, version) = and-true (str_eq c.status "APPLIED") _ back in
          rw (other, pending, back)
            (inr (rollback, refl, ((str_eq_iff _ _).0 applied, ltb→lt _ _ version)))
      | inr over ↦ rw (other, pending, over) (inl refl)
    ]
  ]
]
