-- ===== src/Gateway/Runtime/Acquire/Admission.antt =====
-- The admission by the selected backend, where no one else acts.
use senix.Prelude.{
  by_test, ℕ, zero, suc, ◌+◌, ◌<◌, true, false, String, str_eq, str_eq_iff, List, [], ◌∷◌, map,
  Option, none, some, some_injective, get_elem?, ltb, ◌==◌, Bool-cases, ◌≡◌, refl, sym, ap, ◌∙◌,
  inl, inr, arith,
}
use senix.Gateway.Instance.{
  InstanceGate, LiveInstance, RequestLease, selectable_weight, try_acquire,
}
use senix.Gateway.Schedule.{Schedule, select, total_weight}
use senix.Gateway.Schedule.Sums.{is_absent, AreDistinct}
use senix.Gateway.Runtime.{RuntimeRoute, Result, ok, gate_of, modify, live_weight, weight_at}
use senix.Gateway.Runtime.Acquire.{
  Shared, weighted, find_backend, granted, admit_at, admit, admitted, try_selected, attempt,
  attempt_weighted, attempts,
}

-- The ids of the backends of a route, each once.
abbrev pub ids : List LiveInstance → List (String × ℕ)
ids backends = map (λ (b : LiveInstance). (b.control.id, 0)) backends

weighted-absent :
    (id : String) (gates : List InstanceGate) (backends : List LiveInstance)
    → is_absent id (ids backends) ≡ true
    → is_absent id (weighted gates backends) ≡ true
unfolding weighted
weighted-absent id gates [] h = refl
weighted-absent id gates (b ∷ backends) h = ground (arith, weighted-absent id gates backends)

pub weighted-AreDistinct :
    (gates : List InstanceGate) (backends : List LiveInstance)
    → AreDistinct (ids backends)
    → AreDistinct (weighted gates backends)
unfolding weighted
weighted-AreDistinct gates [] d = tt
weighted-AreDistinct gates (b ∷ backends) d =
    let rest = weighted-AreDistinct gates backends d.1 in
    by_test AreDistinct (ltb 0 (live_weight gates b)) _ _
      (λ _. (weighted-absent b.control.id gates backends d.0, rest)) (λ _. rest)

-- A backend of the schedule is one of the route that can be selected.
pub record Selectable (id : String) (gates : List InstanceGate) (backends : List LiveInstance)
    : Type 0 where
  pub live : LiveInstance
  pub finds : find_backend id backends ≡ some live
  pub named : live.control.id ≡ id
  pub weighs : 0 < live_weight gates live

pub present-Selectable :
    (id : String) (gates : List InstanceGate) (backends : List LiveInstance)
    → AreDistinct (ids backends)
    → is_absent id (weighted gates backends) ≡ false
    → Selectable id gates backends
unfolding weighted find_backend
present-Selectable id gates [] d h = absurd cc
present-Selectable id gates (b ∷ backends) d h = elim (Bool-cases (str_eq b.control.id id)) [
  | inl same ↦ record {
    live = b;
    finds = ground (arith, same);
    named = (str_eq_iff b.control.id id).0 same;
    weighs = ground (
      arith,
      h,
      weighted-absent b.control.id gates backends d.0,
      (str_eq_iff b.control.id id).0 same,
    );
  }
  | inr other ↦
      let later : is_absent id (weighted gates backends) ≡ false = ground (arith, h, other) in
      let s : Selectable id gates backends = present-Selectable id gates backends d.1 later in
      record {
        live = s.live;
        finds = ground (arith, other, s.finds);
        named = s.named;
        weighs = s.weighs;
      }
]

-- A request that is admitted leaves the weights.
granting :
    (g : InstanceGate)
    → 0 < selectable_weight g
    → (g' : InstanceGate) × (try_acquire g ≡ some (g', g.generation))
      × (selectable_weight g' ≡ selectable_weight g)
unfolding selectable_weight try_acquire
granting g h = (record g { in_flight = g.in_flight + 1 }, ground arith, refl)

weight_at-modify :
    (k : ℕ) (g g' : InstanceGate) (gates : List InstanceGate) (j : ℕ)
    → get_elem? gates k ≡ some g
    → selectable_weight g' ≡ selectable_weight g
    → weight_at (get_elem? (modify k (λ _. g') gates) j) ≡ weight_at (get_elem? gates j)
weight_at-modify k g g' [] j at same = refl
weight_at-modify zero g g' (a ∷ gates) zero at same =
    same ∙ ap selectable_weight (some_injective (sym at))
weight_at-modify zero g g' (a ∷ gates) (suc j) at same = refl
weight_at-modify (suc k) g g' (a ∷ gates) zero at same = refl
weight_at-modify (suc k) g g' (a ∷ gates) (suc j) at same = weight_at-modify k g g' gates j at same

weighted-ext :
    (gates gates' : List InstanceGate) (backends : List LiveInstance)
    → ((b : LiveInstance) → live_weight gates' b ≡ live_weight gates b)
    → weighted gates' backends ≡ weighted gates backends
unfolding weighted
weighted-ext gates gates' [] same = refl
weighted-ext gates gates' (b ∷ backends) same =
    ground (arith, same b, weighted-ext gates gates' backends same)

-- The gate of the backend that is selected admits the request, and all weights stay.
pub record Grants (gates : List InstanceGate) (backends : List LiveInstance) (chosen : String)
    : Type 0 where
  pub after : List InstanceGate
  pub lease : RequestLease
  pub live : LiveInstance
  pub finds : find_backend chosen backends ≡ some live
  pub admits : admit live gates ≡ some (after, lease)
  pub named : lease.instance_.control.id ≡ chosen
  pub unchanged : weighted after backends ≡ weighted gates backends

found_gate :
    (o : Option InstanceGate)
    → 0 < weight_at o
    → (g : InstanceGate) × (o ≡ some g) × (0 < selectable_weight g)
found_gate none h = absurd (omega arith)
found_gate (some g) h = (g, refl, h)

pub Selectable-Grants :
    (gates : List InstanceGate) (backends : List LiveInstance) (chosen : String)
    → Selectable chosen gates backends
    → Grants gates backends chosen
unfolding admit
Selectable-Grants gates backends chosen s =
    let (g, at, weighs) = found_gate (get_elem? gates (gate_of s.live)) s.weighs in
    let (g', granted_, same) = granting g weighs in
    record {
      after = modify (gate_of s.live) (λ _. g') gates;
      lease = record { instance_ = s.live; generation = g.generation; long_lived = false };
      live = s.live;
      finds = s.finds;
      admits = ap (admit_at s.live gates) at ∙ ap (granted s.live gates) granted_;
      named = s.named;
      unchanged =
          weighted-ext gates _ backends
            (λ b. weight_at-modify (gate_of s.live) g g' gates (gate_of b) at same);
    }

attempt-chosen :
    (route : RuntimeRoute) (gates : List InstanceGate) (p : Schedule × Option String)
    (chosen : String) (r : Grants gates route.backends chosen)
    (again : Shared → Shared × Result RequestLease)
    → p.1 ≡ some chosen
    → attempt route gates (λ s. s) p again ≡ ((r.after, p.0), ok r.lease)
attempt-chosen route gates (schedule, none) chosen r again h = absurd cc
attempt-chosen route gates (schedule, some id) chosen r again h =
    ap (λ (i : String). try_selected route (find_backend i route.backends) (gates, schedule) again)
      (some_injective h)
    ∙ ap (λ o. try_selected route o (gates, schedule) again) r.finds
    ∙ ap (λ o. admitted (gates, schedule) o again) r.admits

pub attempts-Grants :
    (n : ℕ) (route : RuntimeRoute) (gates : List InstanceGate) (schedule : Schedule)
    (chosen : String)
    → 0 < total_weight (weighted gates route.backends)
    → (select (weighted gates route.backends) schedule).1 ≡ some chosen
    → (r : Grants gates route.backends chosen)
    → attempts (suc n) route [] (gates, schedule)
      ≡ ((r.after, (select (weighted gates route.backends) schedule).0), ok r.lease)
unfolding attempts
attempts-Grants n route gates schedule chosen pos selects r =
    let ws : List (String × ℕ) = weighted gates route.backends in
    let loaded : (total_weight ws == 0) ≡ false = ground (arith, pos) in
    ap (λ b. attempt_weighted route gates (λ s. s) schedule ws b (attempts n route [])) loaded
    ∙ attempt-chosen route gates (select ws schedule) chosen r (attempts n route []) selects
