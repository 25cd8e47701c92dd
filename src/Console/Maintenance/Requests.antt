-- ===== src/Console/Maintenance/Requests.antt =====
-- What the forms let through to the server.
use senix.Prelude.{
  ℕ, suc, ◌+◌, ◌*◌, ◌/◌, ◌%◌, ◌^◌, ◌≤◌, ◌<◌, true, false, not, str_eq, str_eq_iff, Text, ◌≡◌, refl,
  ◌⊎◌, ◌≢◌, ◌&&◌, ◌||◌, arith, All, ltb, ltb→lt, ◌==◌, ==_iff, and-true, Bool-cases, inl, inr,
}
use native.Mathlib.Nat.{
  div-add-mod', div-le_of_le-mul, le-div_iff_mul-le, div-lt_iff_lt-mul, one-le-pow, pow-suc,
}
use senix.Console.Number.{
  Number, nan, infinite, finite, is_finite, is_safe_integer, is_below, is_above, round, IsNatural,
  Doubles, AreIeee,
}
use senix.Console.Maintenance.{
  Instance, Action, drain, weight, rejoin, disable, Change, drain_within, set_weight, rejoin_as,
  disable_now, Effect, send, View,
}
use senix.Console.Maintenance.Forms.{
  is_idle, is_enabled, is_weight, is_serving, can_rejoin, can_disable, start, begin_drain,
  change_weight, begin_rejoin, begin_disable, submit,
}

abbrev pub IsWeight : Number → Type 0
IsWeight w = (n : ℕ) × IsNatural w n × (n ≤ 10000)

-- A change that is fit to be sent for this instance: a wait of 1 second to 24 hours in whole
-- milliseconds, a weight from 0 to 10000, and a generation beyond the instance's.
abbrev pub IsFit : Instance → Change → Type 0
IsFit i (drain_within timeout force) =
    (n : ℕ) × (timeout ≡ finite false n 0) × (1000 ≤ n) × (n ≤ 86400000) × (i.traffic ≡ "SERVING")
IsFit i (set_weight w) = IsWeight w × (i.traffic ≡ "SERVING")
IsFit i (rejoin_as generation w force) =
    ((n : ℕ) × IsNatural generation n × (i.generation < n) × (n < 2 ^ 53))
    × IsWeight w
    × ((i.traffic ≡ "DRAINED") ⊎ (i.traffic ≡ "DISABLED"))
IsFit i disable_now = i.traffic ≢ "DISABLED"

-- Of the effects only a request to change an instance is judged: it names the instance of the view,
-- and is fit for it.
abbrev pub IsFitEffect : View → Effect → Type 0
IsFitEffect v (send id change) = (id ≡ v.instance_.id) × IsFit v.instance_ change
IsFitEffect v _ = Unit

whole_part : (m p : ℕ) → m % p ≡ 0 → m ≡ m / p * p
whole_part m p h = omega (arith, div-add-mod' m p)

is_weight-IsWeight : (w : Number) → is_weight w ≡ true → IsWeight w
is_weight-IsWeight nan h = cc
is_weight-IsWeight (infinite s) h = cc
is_weight-IsWeight (finite false m k) h =
    let p = 2 ^ k in
    let exact = whole_part m p (ground arith) in
    let low : m ≤ p * 10000 = ground arith in (m / p, (==_iff _ _).1 exact, div-le_of_le-mul p low)
is_weight-IsWeight (finite true m k) h = (0, ground arith, omega arith)

round-bounds :
    (x : Number)
    → is_finite x ≡ true
    → is_below x 1000 ≡ false
    → is_above x 86400000 ≡ false
    → (n : ℕ) × (round x ≡ finite false n 0) × (1000 ≤ n) × (n ≤ 86400000)
round-bounds nan f l h = cc
round-bounds (infinite s) f l h = cc
round-bounds (finite true m k) f l h = absurd (ground arith)
round-bounds (finite false m k) f l h =
    let p = 2 ^ k in
    let low : 1000 * p ≤ m = ground arith in
    let high : m ≤ 86400000 * p = ground arith in
    let positive : 0 < p = one-le-pow k 2 (omega arith) in
    let double : 2 ^ suc k ≡ p * 2 = pow-suc 2 k in
    let some_room : 0 < 2 ^ suc k = omega arith in
    (
      (2 * m + p) / 2 ^ suc k,
      refl,
      (le-div_iff_mul-le some_room).1 (omega arith),
      le_of_lt_suc ((div-lt_iff_lt-mul {y = 86400001} some_room).1 (omega arith)),
    )
  where
    le_of_lt_suc : {a : ℕ} → a < 86400001 → a ≤ 86400000
    le_of_lt_suc h = omega arith

beyond : (g q p m : ℕ) → m ≡ q * p → g * p < m → g < q
beyond g q p m e h = grind arith

generation-IsNatural :
    (x : Number) (g : ℕ)
    → is_safe_integer x ≡ true
    → is_above x g ≡ true
    → (n : ℕ) × IsNatural x n × (g < n) × (n < 2 ^ 53)
generation-IsNatural nan g s h = cc
generation-IsNatural (infinite n) g s h = cc
generation-IsNatural (finite true m k) g s h = cc
generation-IsNatural (finite false m k) g s h =
    let p = 2 ^ k in
    let (integral, small) = and-true (m % p == 0) (ltb (m / p) (2 ^ 53)) s in
    let exact = whole_part m p ((==_iff _ _).0 integral) in
    let above : g * p < m = ground arith in
    (m / p, (==_iff _ _).1 exact, beyond g (m / p) p m exact above, ltb→lt _ _ small)

out_of_service :
    (v : View)
    → can_rejoin v ≡ true
    → (v.instance_.traffic ≡ "DRAINED") ⊎ (v.instance_.traffic ≡ "DISABLED")
out_of_service v h = elim (Bool-cases (str_eq v.instance_.traffic "DRAINED")) [
  | inl drained ↦ inl ((str_eq_iff _ _).0 drained)
  | inr other ↦ inr ((str_eq_iff _ _).0 (rw other at h))
]

enabled :
    (v : View)
    → (can_disable v && v.panel.confirm_disable && is_idle v.panel.busy) ≡ true
    → v.instance_.traffic ≢ "DISABLED"
enabled v h e = ground (arith, str_eq_iff v.instance_.traffic "DISABLED")

module _ (d : Doubles) (show : ℕ → Text) where
  begin_drain-IsFit :
      (v : View)
      → AreIeee d
      → v.instance_.traffic ≡ "SERVING"
      → All (IsFitEffect v) (begin_drain d show v).1
  unfolding begin_drain start
  begin_drain-IsFit v ieee serving =
      let x = d.of_text v.panel.timeout_seconds in
      elim (Bool-cases (not (is_finite x) || is_below x 1 || is_above x 86400)) [
        | inl bad ↦ rw bad tt
        | inr good ↦
            let real : is_finite x ≡ true = ground arith in
            let low : is_below x 1 ≡ false = ground arith in
            let high : is_above x 86400 ≡ false = ground arith in
            let (n, whole, least, most) =
              round-bounds (d.times_1000 x) (ieee.product_finite x real low high)
                (ieee.product_low x real low high) (ieee.product_high x real low high) in
            rw good ((refl, (n, whole, least, most, serving)), tt)
      ]

  change_weight-IsFit :
      (v : View) → v.instance_.traffic ≡ "SERVING" → All (IsFitEffect v) (change_weight d show v).1
  unfolding change_weight start
  change_weight-IsFit v serving =
      let w = d.of_text v.panel.weight in
      elim (Bool-cases (is_weight w)) [
        | inl good ↦ rw good ((refl, (is_weight-IsWeight w good, serving)), tt)
        | inr bad ↦ rw bad tt
      ]

  begin_rejoin-IsFit :
      (v : View)
      → (v.instance_.traffic ≡ "DRAINED") ⊎ (v.instance_.traffic ≡ "DISABLED")
      → All (IsFitEffect v) (begin_rejoin d show v).1
  unfolding begin_rejoin start
  begin_rejoin-IsFit v out =
      let g = d.of_text v.panel.generation in
      let w = d.of_text v.panel.rejoin_weight in
      elim (Bool-cases (not (is_safe_integer g) || not (is_above g v.instance_.generation))) [
        | inl bad ↦ rw bad tt
        | inr newer ↦ elim (Bool-cases (is_weight w)) [
          | inl good ↦
              let safe : is_safe_integer g ≡ true = ground arith in
              let above : is_above g v.instance_.generation ≡ true = ground arith in
              let numbered = generation-IsNatural g v.instance_.generation safe above in
              rw (newer, good) ((refl, (numbered, is_weight-IsWeight w good, out)), tt)
          | inr bad ↦ rw (newer, bad) tt
        ]
      ]

  begin_disable-IsFit :
      (v : View) → v.instance_.traffic ≢ "DISABLED" → All (IsFitEffect v) (begin_disable d show v).1
  unfolding begin_disable start
  begin_disable-IsFit v enabled = ((refl, enabled), tt)

  -- Whatever the operator has typed and whichever button is pressed, what is sent is fit for the
  -- instance: the drain wait is 1000 to 86400000 whole milliseconds, a weight is an integer from 0
  -- to 10000, and a rejoin's generation is a safe integer beyond the instance's; and the instance's
  -- traffic state allows the change.
  pub submit-IsFit :
      (action : Action) (v : View) → AreIeee d → All (IsFitEffect v) (submit d show action v).1
  unfolding submit
  submit-IsFit drain v ieee = elim (Bool-cases (is_serving v && is_enabled d drain v)) [
    | inl shown ↦ rw shown (begin_drain-IsFit v ieee ((str_eq_iff _ _).0 (and-true _ _ shown).0))
    | inr hidden ↦ rw hidden tt
  ]
  submit-IsFit weight v ieee = elim (Bool-cases (is_serving v && is_enabled d weight v)) [
    | inl shown ↦ rw shown (change_weight-IsFit v ((str_eq_iff _ _).0 (and-true _ _ shown).0))
    | inr hidden ↦ rw hidden tt
  ]
  submit-IsFit rejoin v ieee = elim (Bool-cases (can_rejoin v && is_enabled d rejoin v)) [
    | inl shown ↦
        let ready = (and-true (can_rejoin v) _ shown).0 in
        rw shown (begin_rejoin-IsFit v (out_of_service v ready))
    | inr hidden ↦ rw hidden tt
  ]
  submit-IsFit disable v ieee =
      elim (Bool-cases (can_disable v && v.panel.confirm_disable && is_enabled d disable v)) [
        | inl shown ↦ rw shown (begin_disable-IsFit v (enabled v shown))
        | inr hidden ↦ rw hidden tt
      ]
