-- ===== src/Gateway/Runtime/Acquire/Matching.antt =====
-- Which route a request is sent to.
use senix.Prelude.{
  ℕ, zero, suc, ◌+◌, ◌<◌, ◌==◌, Bool-cases, length, Bool, true, false, List, [], ◌∷◌, Text, Option,
  none, some, some_injective, get_elem?, if◌then◌else◌, ◌≡◌, refl, sym, subst, ap, ◌∙◌, ◌⊎◌, inl,
  inr, arith,
}
use senix.Gateway.Routes.{
  Score, score_path, host_specificity, path_matches, route_match_score, not_less,
}
use senix.Gateway.Runtime.{RuntimeRoute}
use senix.Gateway.Runtime.Acquire.{better_route, match_route}

-- The score of a route for a request.
abbrev pub score_of : Text → Text → RuntimeRoute → Option Score
score_of host path route = route_match_score route.host route.path_prefix host path

-- A score that is less than another: by the length of the prefix, then by the kind of the match of
-- the host, then by its length.
abbrev pub Less : Score → Score → Type 0
Less a b =
    (a.prefix_length < b.prefix_length)
    ⊎ ((a.prefix_length ≡ b.prefix_length)
        × ((a.host_kind < b.host_kind)
            ⊎ ((a.host_kind ≡ b.host_kind) × (a.host_length < b.host_length))))

abbrev pub IsSame : Score → Score → Type 0
IsSame a b =
    (a.prefix_length ≡ b.prefix_length)
    × (a.host_kind ≡ b.host_kind)
    × (a.host_length ≡ b.host_length)

-- A score that is not greater than another, or none.
abbrev pub AtMost : Option Score → Score → Type 0
AtMost none best = Unit
AtMost (some score) best = Less score best ⊎ IsSame score best

-- A score that is less than another, or none.
abbrev pub Below : Option Score → Score → Type 0
Below none best = Unit
Below (some score) best = Less score best

not_less-Less : (a b : Score) → not_less a b ≡ false → Less a b
not_less-Less a b h = elim (Bool-cases (a.prefix_length == b.prefix_length)) [
  | inl same ↦ elim (Bool-cases (a.host_kind == b.host_kind)) [
    | inl kind ↦ inr (ground arith, inr (ground arith, ground arith))
    | inr kind ↦ inr (ground arith, inl (ground arith))
  ]
  | inr differ ↦ inl (ground arith)
]

not_less-AtMost : (a b : Score) → not_less b a ≡ true → Less a b ⊎ IsSame a b
not_less-AtMost a b h = elim (Bool-cases (not_less a b)) [
  | inl same ↦ inr (ground arith, ground arith, ground arith)
  | inr less ↦ inl (not_less-Less a b less)
]

not_less_trans : (a b c : Score) → not_less a b ≡ true → not_less b c ≡ true → not_less a c ≡ true
not_less_trans a b c h k = ground arith

not_less_total : (a b : Score) → not_less a b ≡ false → not_less b a ≡ true
not_less_total a b h = ground arith

module _ (host path : Text) where
  abbrev pub AllBelow : Score → List RuntimeRoute → Type 0
  AllBelow best [] = Unit
  AllBelow best (r ∷ routes) = Below (score_of host path r) best × AllBelow best routes

  -- The route at a place has the score, those before it no greater and those after it a lesser one.
  abbrev pub IsLastGreatest : ℕ → Score → List RuntimeRoute → Type 0
  IsLastGreatest n best [] = ⊥
  IsLastGreatest zero best (r ∷ routes) = (score_of host path r ≡ some best) × AllBelow best routes
  IsLastGreatest (suc n) best (r ∷ routes) =
      AtMost (score_of host path r) best × IsLastGreatest n best routes

  abbrev pub NoneMatches : List RuntimeRoute → Type 0
  NoneMatches [] = Unit
  NoneMatches (r ∷ routes) = (score_of host path r ≡ none) × NoneMatches routes

  abbrev Found : Type 0
  Found = Option (ℕ × RuntimeRoute × Score)

  abbrev FoundAtMost : Found → Score → Type 0
  FoundAtMost none best = Unit
  FoundAtMost (some (p, r, score)) best = not_less best score ≡ true

  -- From the place `i` on, with what was found before.
  abbrev Outcome : ℕ → List RuntimeRoute → Found → Found → Type 0
  Outcome i routes before none = (before ≡ none) × NoneMatches routes
  Outcome i routes before (some (p, r, score)) =
      ((before ≡ some (p, r, score)) × AllBelow score routes)
      ⊎ ((n : ℕ) × (p ≡ i + n)
          × (get_elem? routes n ≡ some r)
          × IsLastGreatest n score routes
          × FoundAtMost before score)

  -- What was found among the routes after one more in front of them.
  abbrev Later : ℕ → List RuntimeRoute → ℕ → RuntimeRoute → Score → Type 0
  Later i routes p r score =
      (n : ℕ) × (p ≡ i + n) × (get_elem? routes n ≡ some r) × IsLastGreatest n score routes

  in_front :
      (i : ℕ) (a : RuntimeRoute) (routes : List RuntimeRoute) (p : ℕ) (r : RuntimeRoute)
      (score : Score)
      → AtMost (score_of host path a) score
      → Later (suc i) routes p r score
      → Later i (a ∷ routes) p r score
  in_front i a routes p r score most (n, at, is, last) =
      (suc n, omega (arith, at), is, (most, last))

  -- The route in front itself.
  at_front :
      (i : ℕ) (a : RuntimeRoute) (routes : List RuntimeRoute) (s : Score) (p : ℕ) (r : RuntimeRoute)
      (score : Score)
      → score_of host path a ≡ some s
      → ◌≡◌ {A = Found} (some (i, a, s)) (some (p, r, score))
      → AllBelow score routes
      → Later i (a ∷ routes) p r score
  at_front i a routes s p r score e same below = (
    zero,
    omega (arith, ap (λ (t : ℕ × RuntimeRoute × Score). t.0) found),
    ap (λ (t : ℕ × RuntimeRoute × Score). some t.1) found,
    (e ∙ ap (λ (t : ℕ × RuntimeRoute × Score). some t.2) found, below),
  )
    where
      found : ◌≡◌ {A = ℕ × RuntimeRoute × Score} (i, a, s) (p, r, score)
      found = some_injective same

  score_eq :
      (p q : ℕ) (r b : RuntimeRoute) (score g : Score)
      → ◌≡◌ {A = Found} (some (q, b, g)) (some (p, r, score))
      → g ≡ score
  score_eq p q r b score g h = ap (λ (t : ℕ × RuntimeRoute × Score). t.2) (some_injective h)

  -- The front route takes the place of what was found, or does not.
  extend_by :
      (i : ℕ) (a : RuntimeRoute) (routes : List RuntimeRoute) (q : ℕ) (b : RuntimeRoute)
      (g s : Score) (t : Bool) (r : Found)
      → score_of host path a ≡ some s
      → not_less s g ≡ t
      → Outcome (suc i) routes (if t then some (i, a, s) else some (q, b, g)) r
      → Outcome i (a ∷ routes) (some (q, b, g)) r
  extend_by i a routes q b g s true none e is h = absurd (cc (h.0))
  extend_by i a routes q b g s false none e is h = absurd (cc (h.0))
  extend_by i a routes q b g s true (some (p, r, score)) e is (inl (same, below)) =
      let (n, at, get, last) = at_front i a routes s p r score e same below in
      inr (
        n,
        at,
        get,
        last,
        subst (λ (x : Score). not_less x g ≡ true) (score_eq p i r a score s same) is,
      )
  extend_by i a routes q b g s true (some (p, r, score)) e is (inr (n, at, get, last, most)) =
      let (m, at', get', last') =
        in_front i a routes p r score
          (subst (λ o. AtMost o score) (sym e) (not_less-AtMost s score most)) (n, at, get, last) in
      inr (m, at', get', last', not_less_trans score s g most is)
  extend_by i a routes q b g s false (some (p, r, score)) e is (inl (same, below)) = inl (
    same,
    (
      subst (λ o. Below o score) (sym e)
          (not_less-Less s score
            (subst (λ (x : Score). not_less s x ≡ false) (score_eq p q r b score g same) is)),
      below,
    ),
  )
  extend_by i a routes q b g s false (some (p, r, score)) e is (inr (n, at, get, last, most)) =
      let least : AtMost (score_of host path a) score =
        subst (λ o. AtMost o score) (sym e)
          (not_less-AtMost s score (not_less_trans score g s most (not_less_total s g is))) in
      let (m, at', get', last') = in_front i a routes p r score least (n, at, get, last) in
      inr (m, at', get', last', most)

  -- One route more in front.
  extend :
      (i : ℕ) (a : RuntimeRoute) (routes : List RuntimeRoute) (before : Found) (o : Option Score)
      (r : Found)
      → score_of host path a ≡ o
      → Outcome (suc i) routes (better_route before i a o) r
      → Outcome i (a ∷ routes) before r
  extend i a routes before none none e h = (h.0, (e, h.1))
  extend i a routes before none (some (p, r, score)) e (inl (same, below)) =
      inl (same, (subst (λ o. Below o score) (sym e) tt, below))
  extend i a routes before none (some (p, r, score)) e (inr (n, at, get, last, most)) =
      let (m, at', get', last') =
        in_front i a routes p r score (subst (λ o. AtMost o score) (sym e) tt) (n, at, get, last) in
      inr (m, at', get', last', most)
  extend i a routes none (some s) none e h = absurd (cc (h.0))
  extend i a routes none (some s) (some (p, r, score)) e (inl (same, below)) =
      let (n, at, get, last) = at_front i a routes s p r score e same below in
      inr (n, at, get, last, tt)
  extend i a routes none (some s) (some (p, r, score)) e (inr (n, at, get, last, most)) =
      let (m, at', get', last') =
        in_front i a routes p r score
          (subst (λ o. AtMost o score) (sym e) (not_less-AtMost s score most)) (n, at, get, last) in
      inr (m, at', get', last', tt)
  extend i a routes (some (q, b, g)) (some s) r e h =
      extend_by i a routes q b g s (not_less s g) r e refl h

  match_route_outcome :
      (i : ℕ) (routes : List RuntimeRoute) (before : Found)
      → Outcome i routes before (match_route host path i routes before)
  unfolding match_route
  match_route_outcome i [] none = (refl, tt)
  match_route_outcome i [] (some (p, r, score)) = inl (refl, tt)
  match_route_outcome i (a ∷ routes) before =
      extend i a routes before (score_of host path a) _ refl
        (match_route_outcome (suc i) routes (better_route before i a (score_of host path a)))

-- What the score of a route that matches says.
abbrev pub IsScoreOf : Text → Text → RuntimeRoute → Score → Type 0
IsScoreOf host path route score =
    (score.prefix_length ≡ length route.path_prefix)
    × (host_specificity route.host host ≡ some (score.host_kind, score.host_length))
    × (path_matches route.path_prefix path ≡ true)

score_path-IsScoreOf :
    (host path : Text) (route : RuntimeRoute) (score : Score) (o : Option (ℕ × ℕ)) (b : Bool)
    → host_specificity route.host host ≡ o
    → path_matches route.path_prefix path ≡ b
    → score_path route.path_prefix path o ≡ some score
    → IsScoreOf host path route score
score_path-IsScoreOf host path route score none b h k e = absurd (cc e)
score_path-IsScoreOf host path route score (some (kind, n)) false h k e =
    absurd (ground (arith, k, e))
score_path-IsScoreOf host path route score (some (kind, n)) true h k e =
    let is : record { prefix_length = length route.path_prefix; host_kind = kind; host_length = n }
        ≡ score =
      some_injective (ground (arith, k, e)) in
    (
      sym (ap (λ (x : Score). x.prefix_length) is),
      h ∙ ap (λ (x : Score). some (x.host_kind, x.host_length)) is,
      k,
    )

score_of-IsScoreOf :
    (host path : Text) (route : RuntimeRoute) (score : Score)
    → score_of host path route ≡ some score
    → IsScoreOf host path route score
unfolding route_match_score
score_of-IsScoreOf host path route score h =
    score_path-IsScoreOf host path route score _ _ refl refl h

score_at :
    (host path : Text) (n : ℕ) (routes : List RuntimeRoute) (r : RuntimeRoute) (score : Score)
    → get_elem? routes n ≡ some r
    → IsLastGreatest host path n score routes
    → score_of host path r ≡ some score
score_at host path n [] r score get last = absurd last
score_at host path zero (a ∷ routes) r score get last =
    subst (λ (x : RuntimeRoute). score_of host path x ≡ some score) (some_injective get) last.0
score_at host path (suc n) (a ∷ routes) r score get last =
    score_at host path n routes r score get last.1

outcome_from_start :
    (host path : Text) (routes : List RuntimeRoute) (found : Option (ℕ × RuntimeRoute × Score))
    → match_route host path 0 routes none ≡ found
    → Outcome host path 0 routes none found
    → ((match_route host path 0 routes none ≡ none) × NoneMatches host path routes)
      ⊎ ((place : ℕ) × (route : RuntimeRoute) × (score : Score) × (match_route host path 0 routes
              none
            ≡ some (place, route, score))
          × (get_elem? routes place ≡ some route)
          × IsScoreOf host path route score
          × IsLastGreatest host path place score routes)
outcome_from_start host path routes none e h = inl (e, h.1)
outcome_from_start host path routes (some (p, r, score)) e (inl (same, below)) = absurd (cc (same))
outcome_from_start host path routes (some (p, r, score)) e (inr (n, at, get, last, most)) =
    let here : p ≡ n = omega (arith, at) in
    inr (
      p,
      r,
      score,
      e,
      subst (λ m. get_elem? routes m ≡ some r) (sym here) get,
      score_of-IsScoreOf host path r score (score_at host path n routes r score get last),
      subst (λ m. IsLastGreatest host path m score routes) (sym here) last,
    )

-- A request that no route matches is sent to none; any other is sent to a route that matches it with
-- a score that no other route exceeds, and to the last of those with that score. A score is the
-- length of the route's prefix of the path, then the specificity of its host for that of the request
-- (the kind of the match and its length), and scores are compared in this order.
pub match_route_lem :
    (host path : Text) (routes : List RuntimeRoute)
    → ((match_route host path 0 routes none ≡ none) × NoneMatches host path routes)
      ⊎ ((place : ℕ) × (route : RuntimeRoute) × (score : Score) × (match_route host path 0 routes
              none
            ≡ some (place, route, score))
          × (get_elem? routes place ≡ some route)
          × IsScoreOf host path route score
          × IsLastGreatest host path place score routes)
match_route_lem host path routes =
    outcome_from_start host path routes (match_route host path 0 routes none) refl
      (match_route_outcome host path 0 routes none)
