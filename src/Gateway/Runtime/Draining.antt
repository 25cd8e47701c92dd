-- ===== src/Gateway/Runtime/Draining.antt =====
-- What a request to drain an instance leaves of the routes.
use senix.Prelude.{
  ℕ, zero, suc, true, false, not, String, str_eq, List, [], ◌∷◌, All, any, Option, none, some,
  get_elem?, ltb, Bool-cases, ◌==◌, ◌&&◌, ◌≡◌, refl, sym, subst, ap, ◌∙◌, inl, inr, arith,
}
use senix.Gateway.State.{InstanceState}
use senix.Gateway.Instance.{InstanceGate, LiveInstance, Error, done, close}
use senix.Gateway.Runtime.{
  GatewayRuntime, RuntimeRoute, Result, ok, gate_of, modify, find_instance, on_gate, weight_at,
  live_weight, has_backend, Reading, has_alternative, find_last_backend, Meanwhile, close_unless,
  drain_found, drain,
}

-- Of every route with the instance another backend was read to have a weight.
abbrev pub HaveSeen : Reading → String → List RuntimeRoute → Type 0
HaveSeen reading id routes =
    All (λ (r : RuntimeRoute). has_backend id r ≡ true → has_alternative reading id r ≡ true) routes

-- A backend that was read to have a weight still has one.
abbrev pub StaySelectable : Reading → List InstanceGate → List RuntimeRoute → Type 0
StaySelectable reading gates routes =
    All
      (λ (r : RuntimeRoute).
        All
          (λ (b : LiveInstance).
            ltb 0 (live_weight (reading r b) b) ≡ true → ltb 0 (live_weight gates b) ≡ true)
          r.backends)
      routes

-- Every route with the instance has another backend that can be selected.
abbrev pub HaveAlternatives : List InstanceGate → String → List RuntimeRoute → Type 0
HaveAlternatives gates id routes = HaveSeen (λ route live. gates) id routes

find_last_backend-HaveSeen :
    (reading : Reading) (id : String) (routes : List RuntimeRoute)
    → find_last_backend reading id routes ≡ none
    → HaveSeen reading id routes
unfolding find_last_backend
find_last_backend-HaveSeen reading id [] h = tt
find_last_backend-HaveSeen reading id (r ∷ routes) h = (
  λ has. ground (arith, h, has),
  find_last_backend-HaveSeen reading id routes (ground (arith, h)),
)

-- The backends with other ids have other gates.
abbrev pub AreApart : ℕ → String → List RuntimeRoute → Type 0
AreApart k id routes =
    All
      (λ (r : RuntimeRoute).
        All (λ (b : LiveInstance). str_eq b.control.id id ≡ false → (k == gate_of b) ≡ false)
          r.backends)
      routes

get_elem?-modify_other :
    (k : ℕ) (f : InstanceGate → InstanceGate) (gates : List InstanceGate) (j : ℕ)
    → (k == j) ≡ false
    → get_elem? (modify k f gates) j ≡ get_elem? gates j
get_elem?-modify_other k f [] j h = refl
get_elem?-modify_other zero f (g ∷ gates) zero h = absurd (ground (arith, h))
get_elem?-modify_other zero f (g ∷ gates) (suc j) h = refl
get_elem?-modify_other (suc k) f (g ∷ gates) zero h = refl
get_elem?-modify_other (suc k) f (g ∷ gates) (suc j) h =
    get_elem?-modify_other k f gates j (ground (arith, h))

any-modify :
    (k : ℕ) (f : InstanceGate → InstanceGate) (gates : List InstanceGate) (id : String)
    (backends : List LiveInstance)
    → All (λ (b : LiveInstance). str_eq b.control.id id ≡ false → (k == gate_of b) ≡ false) backends
    → any
        (λ (b : LiveInstance). not (str_eq b.control.id id) && ltb 0 (live_weight gates b))
        backends
      ≡ true
    → any
        (λ (b : LiveInstance).
          not (str_eq b.control.id id) && ltb 0 (live_weight (modify k f gates) b))
        backends
      ≡ true
any-modify k f gates id [] apart h = h
any-modify k f gates id (b ∷ backends) apart h = elim (Bool-cases (str_eq b.control.id id)) [
  | inl same ↦ ground (arith, h, same, any-modify k f gates id backends apart.1)
  | inr other ↦
      let weight : live_weight (modify k f gates) b ≡ live_weight gates b =
        ap weight_at (get_elem?-modify_other k f gates (gate_of b) (apart.0 other)) in
      ground (arith, h, weight, any-modify k f gates id backends apart.1)
]

HaveAlternatives-modify :
    (k : ℕ) (f : InstanceGate → InstanceGate) (gates : List InstanceGate) (id : String)
    (routes : List RuntimeRoute)
    → AreApart k id routes
    → HaveAlternatives gates id routes
    → HaveAlternatives (modify k f gates) id routes
HaveAlternatives-modify k f gates id [] apart h = tt
HaveAlternatives-modify k f gates id (r ∷ routes) apart h = (
  λ has. any-modify k f gates id r.backends apart.0 (h.0 has),
  HaveAlternatives-modify k f gates id routes apart.1 h.1,
)

any-stays :
    (seen now : LiveInstance → ℕ) (id : String) (backends : List LiveInstance)
    → All (λ (b : LiveInstance). ltb 0 (seen b) ≡ true → ltb 0 (now b) ≡ true) backends
    → any (λ (b : LiveInstance). not (str_eq b.control.id id) && ltb 0 (seen b)) backends ≡ true
    → any (λ (b : LiveInstance). not (str_eq b.control.id id) && ltb 0 (now b)) backends ≡ true
any-stays seen now id [] stay h = h
any-stays seen now id (b ∷ backends) stay h = elim (Bool-cases (ltb 0 (seen b))) [
  | inl is ↦ ground (arith, h, is, stay.0 is, any-stays seen now id backends stay.1)
  | inr not_ ↦ ground (arith, h, not_, any-stays seen now id backends stay.1)
]

HaveSeen-HaveAlternatives :
    (reading : Reading) (gates : List InstanceGate) (id : String) (routes : List RuntimeRoute)
    → StaySelectable reading gates routes
    → HaveSeen reading id routes
    → HaveAlternatives gates id routes
HaveSeen-HaveAlternatives reading gates id [] stay h = tt
HaveSeen-HaveAlternatives reading gates id (r ∷ routes) stay h = (
  λ has.
      any-stays (λ b. live_weight (reading r b) b) (live_weight gates) id r.backends stay.0
        (h.0 has),
  HaveSeen-HaveAlternatives reading gates id routes stay.1 h.1,
)

close_found-HaveAlternatives :
    (rt after : GatewayRuntime) (id : String) (live : LiveInstance) (s : InstanceState)
    (o : Option InstanceGate)
    → AreApart (gate_of live) id rt.routes
    → HaveAlternatives rt.gates id rt.routes
    → on_gate rt live (λ g. done (close g)) o ≡ (after, ok s)
    → HaveAlternatives after.gates id after.routes
close_found-HaveAlternatives rt after id live s none apart have h = absurd (cc h)
close_found-HaveAlternatives rt after id live s (some g) apart have h =
    subst (λ (x : GatewayRuntime). HaveAlternatives x.gates id x.routes)
      (ap (λ (x : GatewayRuntime × Result InstanceState). x.0) h)
      (HaveAlternatives-modify (gate_of live) (λ _. close g) rt.gates id rt.routes apart have)

close_unless-HaveAlternatives :
    (others : Meanwhile) (rt after : GatewayRuntime) (id : String) (live : LiveInstance)
    (s : InstanceState) (last : Option Error)
    → find_last_backend (others.at_reading rt) id rt.routes ≡ last
    → AreApart (gate_of live) id rt.routes
    → (others.before_closing rt).routes ≡ rt.routes
    → StaySelectable (others.at_reading rt) (others.before_closing rt).gates rt.routes
    → close_unless others live rt last ≡ (after, ok s)
    → HaveAlternatives after.gates id after.routes
close_unless-HaveAlternatives others rt after id live s (some e) is apart same stay h =
    absurd (cc h)
close_unless-HaveAlternatives others rt after id live s none is apart same stay h =
    let rt' = others.before_closing rt in
    close_found-HaveAlternatives rt' after id live s (get_elem? rt'.gates (gate_of live))
      (subst (AreApart (gate_of live) id) (sym same) apart)
      (subst (HaveAlternatives rt'.gates id) (sym same) (
        HaveSeen-HaveAlternatives (others.at_reading rt) rt'.gates id rt.routes stay
          (find_last_backend-HaveSeen (others.at_reading rt) id rt.routes is)))
      h

-- Where backends with other ids than that of the instance have other gates, others publish nothing
-- while the drain is at work, and a backend that it has read to have a weight still has one when it
-- closes the gate: after an instance was drained, without force, every route that has it among its
-- backends has another that can be selected.
pub drain-HaveAlternatives :
    (others : Meanwhile) (rt after : GatewayRuntime) (id : String) (live : LiveInstance)
    (s : InstanceState)
    → find_instance id rt.instances ≡ some live
    → AreApart (gate_of live) id (others.before_check rt).routes
    → (others.before_closing (others.before_check rt)).routes ≡ (others.before_check rt).routes
    → StaySelectable
        (others.at_reading (others.before_check rt))
        (others.before_closing (others.before_check rt)).gates
        (others.before_check rt).routes
    → drain id false others rt ≡ (after, ok s)
    → HaveAlternatives after.gates id after.routes
unfolding drain
drain-HaveAlternatives others rt after id live s found apart same stay h =
    close_unless-HaveAlternatives others (others.before_check rt) after id live s _ refl apart same
      stay (ap (drain_found id false others rt) (sym found) ∙ h)
