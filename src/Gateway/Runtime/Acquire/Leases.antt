-- ===== src/Gateway/Runtime/Acquire/Leases.antt =====
-- The lease that a request gets, whatever others do to the gates and the schedule meanwhile.
use senix.Prelude.{
  ℕ, zero, suc, ◌+◌, ◌<◌, Bool, true, false, String, List, ◌∷◌, Text, length, Option, none, some,
  some_injective, get_elem?, replace, ◌==◌, ◌||◌, ◌≡◌, refl, sym, subst, ap, ◌∙◌, arith,
}
use senix.Gateway.State.{is_serving, is_healthy}
use senix.Gateway.Instance.{InstanceGate, LiveInstance, RequestLease, try_acquire}
use senix.Gateway.Schedule.{Schedule, select, total_weight}
use senix.Gateway.Routes.{Score}
use senix.Gateway.Runtime.{GatewayRuntime, RuntimeRoute, Result, ok, err, gate_of, modify}
use senix.Gateway.Runtime.Acquire.{
  Shared, act, later, weighted, find_backend, granted, admit_at, admit, admitted, try_selected,
  attempt, attempt_weighted, attempts, keep, match_request, match_route, acquire,
}

-- What an admission is: the gate of the instance was open, and counts the request.
pub record Admits (live : LiveInstance) (gates after : List InstanceGate) (lease : RequestLease)
    : Type 0 where
  pub before : InstanceGate
  pub gate : InstanceGate
  pub found : get_elem? gates (gate_of live) ≡ some before
  pub admits : try_acquire before ≡ some (gate, lease.generation)
  pub changed : after ≡ modify (gate_of live) (λ _. gate) gates
  pub holds : lease.instance_ ≡ live
  pub ordinary : lease.long_lived ≡ false

granted-Admits :
    (live : LiveInstance) (gates after : List InstanceGate) (lease : RequestLease)
    (g : InstanceGate) (o : Option (InstanceGate × ℕ))
    → get_elem? gates (gate_of live) ≡ some g
    → try_acquire g ≡ o
    → granted live gates o ≡ some (after, lease)
    → Admits live gates after lease
granted-Admits live gates after lease g none at e h = absurd cc
granted-Admits live gates after lease g (some (g', n)) at e h = record {
  before = g;
  gate = g';
  found = at;
  admits =
      e
      ∙ ap (λ (m : ℕ). some (g', m))
          (ap (λ (p : List InstanceGate × RequestLease). p.1.generation) (some_injective h));
  changed = sym (ap (λ (p : List InstanceGate × RequestLease). p.0) (some_injective h));
  holds = sym (ap (λ (p : List InstanceGate × RequestLease). p.1.instance_) (some_injective h));
  ordinary = sym (ap (λ (p : List InstanceGate × RequestLease). p.1.long_lived) (some_injective h));
}

admit_at-Admits :
    (live : LiveInstance) (gates after : List InstanceGate) (lease : RequestLease)
    (o : Option InstanceGate)
    → get_elem? gates (gate_of live) ≡ o
    → admit_at live gates o ≡ some (after, lease)
    → Admits live gates after lease
admit_at-Admits live gates after lease none at h = absurd cc
admit_at-Admits live gates after lease (some g) at h =
    granted-Admits live gates after lease g _ at refl h

pub admit-Admits :
    (live : LiveInstance) (gates after : List InstanceGate) (lease : RequestLease)
    → admit live gates ≡ some (after, lease)
    → Admits live gates after lease
unfolding admit
admit-Admits live gates after lease h = admit_at-Admits live gates after lease _ refl h

-- The gate was open, to a serving instance that is healthy or may be used although it is not, and
-- has a weight; the lease is of its generation, and the gate counts one request more.
pub record WasOpen (g after : InstanceGate) (lease : RequestLease) : Type 0 where
  pub serving : is_serving g.traffic ≡ true
  pub usable : (is_healthy g.health || g.health_override) ≡ true
  pub weighs : 0 < g.weight
  pub of_generation : lease.generation ≡ g.generation
  pub one_more : after ≡ record g { in_flight = g.in_flight + 1 }

-- What the attempts of a request find when they ask a gate, from a state on: the schedule is as the
-- selection leaves it, and others have acted; where an attempt is turned away, the next one goes on
-- from there.
pub data Reaches (route : RuntimeRoute) : List (Shared → Shared) → Shared → Shared → Type 0 where
  at_once :
      {others : List (Shared → Shared)} {gates : List InstanceGate} {schedule : Schedule}
      → Reaches route others
          (gates, schedule)
          (act others (gates, (select (weighted gates route.backends) schedule).0))
  after_refusal :
      {others : List (Shared → Shared)} {gates : List InstanceGate} {schedule : Schedule}
      {found : Shared}
      → Reaches route
          (later others)
          (act others (gates, (select (weighted gates route.backends) schedule).0))
          found
      → Reaches route others (gates, schedule) found

-- The lease was granted at the gate of a backend of the route, in a state that an attempt has found.
pub record IsGranted (route : RuntimeRoute) (others : List (Shared → Shared)) (from after : Shared)
    (lease : RequestLease) : Type 0 where
  pub id : String
  pub found : Shared
  pub gate : InstanceGate
  pub counted : InstanceGate
  pub reached : Reaches route others from found
  pub backend : find_backend id route.backends ≡ some lease.instance_
  pub stands : get_elem? found.0 (gate_of lease.instance_) ≡ some gate
  pub was_open : WasOpen gate counted lease
  pub changed : after ≡ (modify (gate_of lease.instance_) (λ _. counted) found.0, found.1)

try_acquire-WasOpen :
    (g g' : InstanceGate) (lease : RequestLease)
    → try_acquire g ≡ some (g', lease.generation)
    → WasOpen g g' lease
unfolding try_acquire
try_acquire-WasOpen g g' lease h = ground arith

Admits-IsGranted :
    (route : RuntimeRoute) (others : List (Shared → Shared)) (from found : Shared) (id : String)
    (live : LiveInstance) (after : List InstanceGate) (lease : RequestLease)
    → Reaches route others from found
    → find_backend id route.backends ≡ some live
    → Admits live found.0 after lease
    → IsGranted route others from (after, found.1) lease
Admits-IsGranted route others from found id live after lease reached finds a = record {
  id = id;
  found = found;
  gate = a.before;
  counted = a.gate;
  reached = reached;
  backend = finds ∙ ap some (sym a.holds);
  stands =
      subst (λ (l : LiveInstance). get_elem? found.0 (gate_of l) ≡ some a.before) (sym a.holds)
        a.found;
  was_open = try_acquire-WasOpen a.before a.gate lease a.admits;
  changed =
      subst
        (λ (l : LiveInstance).
          ◌≡◌ {A = Shared} (after, found.1) (modify (gate_of l) (λ _. a.gate) found.0, found.1))
        (sym a.holds) (ap (λ (gates : List InstanceGate). (gates, found.1)) a.changed);
}

-- An answer with a lease is such a grant.
abbrev AnswersGranted :
    RuntimeRoute → List (Shared → Shared) → Shared → Shared × Result RequestLease → Type 0
AnswersGranted route others from (s, err e) = Unit
AnswersGranted route others from (s, ok lease) = IsGranted route others from s lease

module _ (route : RuntimeRoute) (others : List (Shared → Shared))
    (again : Shared → Shared × Result RequestLease) where
  admitted-AnswersGranted :
      (from : Shared) (id : String) (live : LiveInstance) (s : Shared)
      (o : Option (List InstanceGate × RequestLease))
      → Reaches route others from s
      → AnswersGranted route others from (again s)
      → find_backend id route.backends ≡ some live
      → admit live s.0 ≡ o
      → AnswersGranted route others from (admitted s o again)
  admitted-AnswersGranted from id live s none reached rest finds e = rest
  admitted-AnswersGranted from id live s (some (after, lease)) reached rest finds e =
      Admits-IsGranted route others from s id live after lease reached finds
        (admit-Admits live s.0 after lease e)

  try_selected-AnswersGranted :
      (from : Shared) (id : String) (found : Option LiveInstance) (s : Shared)
      → Reaches route others from s
      → AnswersGranted route others from (again s)
      → find_backend id route.backends ≡ found
      → AnswersGranted route others from (try_selected route found s again)
  try_selected-AnswersGranted from id none s reached rest finds = tt
  try_selected-AnswersGranted from id (some live) s reached rest finds =
      admitted-AnswersGranted from id live s (admit live s.0) reached rest finds refl

  after_refusal-AnswersGranted :
      (gates : List InstanceGate) (schedule : Schedule) (r : Shared × Result RequestLease)
      → AnswersGranted route
          (later others)
          (act others (gates, (select (weighted gates route.backends) schedule).0))
          r
      → AnswersGranted route others (gates, schedule) r
  after_refusal-AnswersGranted gates schedule (s, err e) h = tt
  after_refusal-AnswersGranted gates schedule (s, ok lease) h = record {
    id = h.id;
    found = h.found;
    gate = h.gate;
    counted = h.counted;
    reached = after_refusal h.reached;
    backend = h.backend;
    stands = h.stands;
    was_open = h.was_open;
    changed = h.changed;
  }

  module _ (rest : (s : Shared) → AnswersGranted route (later others) s (again s)) where
    attempt-AnswersGranted :
        (gates : List InstanceGate) (schedule : Schedule) (chosen : Schedule × Option String)
        → select (weighted gates route.backends) schedule ≡ chosen
        → AnswersGranted route others
            (gates, schedule)
            (attempt route gates (act others) chosen again)
    attempt-AnswersGranted gates schedule (next, none) e = tt
    attempt-AnswersGranted gates schedule (next, some id) e =
        let same : (select (weighted gates route.backends) schedule).0 ≡ next =
          ap (λ (p : Schedule × Option String). p.0) e in
        let s : Shared = act others (gates, next) in
        try_selected-AnswersGranted (gates, schedule) id (find_backend id route.backends) s
          (subst (λ (x : Schedule). Reaches route others (gates, schedule) (act others (gates, x)))
            same at_once)
          (after_refusal-AnswersGranted gates schedule (again s) (
            subst
              (λ (x : Schedule).
                AnswersGranted route (later others) (act others (gates, x)) (again s))
              (sym same) (rest s)))
          refl

    attempt_weighted-AnswersGranted :
        (gates : List InstanceGate) (schedule : Schedule) (b : Bool)
        → AnswersGranted route others
            (gates, schedule)
            (attempt_weighted route gates
              (act others)
              schedule
              (weighted gates route.backends)
              b
              again)
    attempt_weighted-AnswersGranted gates schedule true = tt
    attempt_weighted-AnswersGranted gates schedule false =
        attempt-AnswersGranted gates schedule _ refl

attempts-AnswersGranted :
    (n : ℕ) (route : RuntimeRoute) (others : List (Shared → Shared)) (s : Shared)
    → AnswersGranted route others s (attempts n route others s)
unfolding attempts
attempts-AnswersGranted zero route others s = tt
attempts-AnswersGranted (suc n) route others (gates, schedule) =
    attempt_weighted-AnswersGranted route others (attempts n route (later others))
      (λ s. attempts-AnswersGranted n route (later others) s) gates schedule
      (total_weight (weighted gates route.backends) == 0)

-- The route that a request is sent to, and the grant of its lease.
pub record IsServed (host path : Text) (others : List (Shared → Shared)) (rt after : GatewayRuntime)
    (lease : RequestLease) : Type 0 where
  pub place : ℕ
  pub route : RuntimeRoute
  pub score : Score
  pub matches : match_route host path 0 rt.routes none ≡ some (place, route, score)
  pub schedule : Schedule
  pub granted_ : IsGranted route others (rt.gates, route.schedule) (after.gates, schedule) lease
  pub rescheduled : after.routes ≡ replace place (record route { schedule = schedule }) rt.routes
  pub holds : after.leases ≡ lease ∷ rt.leases

ok_injective : (l k : RequestLease) → ok l ≡ ok k → l ≡ k
ok_injective l k h = ground arith

keep-IsServed :
    (host path : Text) (others : List (Shared → Shared)) (rt after : GatewayRuntime) (place : ℕ)
    (route : RuntimeRoute) (score : Score) (r : Shared × Result RequestLease) (lease : RequestLease)
    → match_route host path 0 rt.routes none ≡ some (place, route, score)
    → AnswersGranted route others (rt.gates, route.schedule) r
    → keep rt place route r ≡ (after, ok lease)
    → IsServed host path others rt after lease
keep-IsServed host path others rt after place route score (s, err e) lease is g h = absurd (cc (h))
keep-IsServed host path others rt after place route score (s, ok l) lease is g h =
    let same : l ≡ lease =
      ok_injective l lease (ap (λ (x : GatewayRuntime × Result RequestLease). x.1) h) in
    let gates : s.0 ≡ after.gates =
      ap (λ (x : GatewayRuntime × Result RequestLease). x.0.gates) h in
    record {
      place = place;
      route = route;
      score = score;
      matches = is;
      schedule = s.1;
      granted_ =
          subst (IsGranted route others (rt.gates, route.schedule) (after.gates, s.1)) same
            (subst (λ now. IsGranted route others (rt.gates, route.schedule) (now, s.1) l) gates g);
      rescheduled = sym (ap (λ (x : GatewayRuntime × Result RequestLease). x.0.routes) h);
      holds =
          sym (ap (λ (x : GatewayRuntime × Result RequestLease). x.0.leases) h)
          ∙ ap (λ (x : RequestLease). x ∷ rt.leases) same;
    }

match_request-IsServed :
    (host path : Text) (others : List (Shared → Shared)) (rt after : GatewayRuntime)
    (lease : RequestLease) (o : Option (ℕ × RuntimeRoute × Score))
    → match_route host path 0 rt.routes none ≡ o
    → match_request others rt o ≡ (after, ok lease)
    → IsServed host path others rt after lease
match_request-IsServed host path others rt after lease none is h = absurd (cc (h))
match_request-IsServed host path others rt after lease (some (place, route, score)) is h =
    keep-IsServed host path others rt after place route score
      (attempts (length route.backends + 1) route others (rt.gates, route.schedule)) lease is
      (attempts-AnswersGranted (length route.backends + 1) route others (rt.gates, route.schedule))
      h

-- Whatever others do to the gates and the schedule between the selections of a request and its
-- admission: a lease that it gets is of a backend of the route that the request was sent to, whose
-- gate was then serving, of a healthy instance or one that may be used although it is not, and of a
-- weight above 0; the lease has the generation of that gate. The gates and the schedule are then as
-- one of the attempts has found them, from the state of before by its selection, what others have
-- done, and the attempts turned away, except that this gate counts one request more; and the lease is
-- held beside those of before.
pub acquire-IsServed :
    (host path : Text) (others : List (Shared → Shared)) (rt after : GatewayRuntime)
    (lease : RequestLease)
    → acquire host path others rt ≡ (after, ok lease)
    → IsServed host path others rt after lease
unfolding acquire
acquire-IsServed host path others rt after lease h =
    match_request-IsServed host path others rt after lease (match_route host path 0 rt.routes none)
      refl h
