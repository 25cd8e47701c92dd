-- ===== src/Gateway/Runtime/Acquire/Shares.antt =====
-- Requests to one route, one after the other, while the state of its instances stays.
use senix.Prelude.{
  ℕ, zero, suc, ◌+◌, ◌*◌, ◌^◌, ◌<◌, ◌≤◌, false, String, List, [], ◌∷◌, Option, length, ◌≡◌, refl,
  sym, subst, ap, ◌∙◌, arith,
}
use mathlib.Core.Path.{ap₂}
use senix.Gateway.Instance.{InstanceGate, RequestLease}
use senix.Gateway.Schedule.{Schedule, origin, value, select, total_weight}
use senix.Gateway.Schedule.Sums.{is_absent, AreDistinct, weight_of}
use senix.Gateway.Schedule.Turns.{noted, turns, count, turns-IsFair, chosen_selection}
use senix.Gateway.Schedule.Fair.{turns-shares, turns-near_share}
use senix.Gateway.Schedule.Sweep.{Selects}
use senix.Gateway.Runtime.{RuntimeRoute, Result, ok, err}
use senix.Gateway.Runtime.Acquire.{Shared, weighted, attempts}
use senix.Gateway.Runtime.Acquire.Admission.{
  ids, weighted-AreDistinct, present-Selectable, Grants, Selectable-Grants, attempts-Grants,
}

abbrev tally : Shared × Result RequestLease → List String → Shared × List String
tally (s, err e) chosen = (s, chosen)
tally (s, ok lease) chosen = (s, lease.instance_.control.id ∷ chosen)

-- So many requests, one after the other, with the ids of the instances that they got leases of.
pub requests : ℕ → RuntimeRoute → Shared → Shared × List String
requests zero route s = (s, [])
requests (suc k) route s =
    let before = requests k route s in
    tally (attempts (length route.backends + 1) route [] before.0) before.1

module _ (route : RuntimeRoute) (gates : List InstanceGate) where
  abbrev pub shares : List (String × ℕ)
  shares = weighted gates route.backends

  -- The requests so far, beside as many selections.
  record Follows (k : ℕ) (s : Schedule) (r : Shared × List String) : Type 0 where
    same_weights : weighted r.0.0 route.backends ≡ shares
    same_schedule : r.0.1 ≡ (turns k shares s).0
    same_ids : r.1 ≡ (turns k shares s).1

  module _ (distinct : AreDistinct (ids route.backends)) (some_weight : 0 < total_weight shares)
      (small : length shares * total_weight shares < 2 ^ 63) where
    distinct_shares : AreDistinct shares
    distinct_shares = weighted-AreDistinct gates route.backends distinct

    module _ (k : ℕ) (s : Schedule) (fresh : (id : String) → value id s ≡ origin) where
      abbrev before : Schedule × List String
      before = turns k shares s

      selection : Selects shares before.0 (λ id. value id before.0 + weight_of id shares)
      selection =
          chosen_selection shares distinct_shares some_weight small k before
            (turns-IsFair shares distinct_shares some_weight small k s fresh)

      turned : turns (suc k) shares s ≡ ((select shares before.0).0, selection.chosen ∷ before.1)
      unfolding turns
      turned = noted (select shares before.0) before.1 selection.chosen selection.selects

      module _ (gates' : List InstanceGate) (schedule : Schedule)
          (same_weights : weighted gates' route.backends ≡ shares)
          (same_schedule : schedule ≡ before.0) where
        grant : Grants gates' route.backends selection.chosen
        grant = Selectable-Grants gates' route.backends selection.chosen (
            present-Selectable selection.chosen gates' route.backends distinct (
              subst (λ ws. is_absent selection.chosen ws ≡ false) (sym same_weights)
                selection.present))

        same_selection : select (weighted gates' route.backends) schedule ≡ select shares before.0
        same_selection =
            ap (λ ws. select ws schedule) same_weights ∙ ap (select shares) same_schedule

        granted_request :
            attempts (length route.backends + 1) route [] (gates', schedule)
            ≡ ((grant.after, (select (weighted gates' route.backends) schedule).0), ok grant.lease)
        granted_request =
            let more : length route.backends + 1 ≡ suc (length route.backends) = omega arith in
            ap (λ n. attempts n route [] (gates', schedule)) more
            ∙ attempts-Grants (length route.backends) route gates' schedule selection.chosen
                (subst (λ ws. 0 < total_weight ws) (sym same_weights) some_weight)
                (ap (λ (p : Schedule × Option String). p.1) same_selection ∙ selection.selects)
                grant

      follow :
          (r : Shared × List String)
          → Follows k s r
          → Follows (suc k) s (tally (attempts (length route.backends + 1) route [] r.0) r.1)
      follow ((gates', schedule), chosen) f =
          let g = grant gates' schedule f.same_weights f.same_schedule in
          subst (λ x. Follows (suc k) s (tally x chosen))
            (sym (granted_request gates' schedule f.same_weights f.same_schedule))
            record {
              same_weights = g.unchanged ∙ f.same_weights;
              same_schedule =
                  ap (λ (p : Schedule × Option String). p.0)
                    (same_selection gates' schedule f.same_weights f.same_schedule)
                  ∙ sym (ap (λ (p : Schedule × List String). p.0) turned);
              same_ids =
                  ap₂ (λ (i : String) (is : List String). i ∷ is) g.named f.same_ids
                  ∙ sym (ap (λ (p : Schedule × List String). p.1) turned);
            }

    requests-Follows :
        (k : ℕ) (s : Schedule)
        → ((id : String) → value id s ≡ origin)
        → Follows k s (requests k route (gates, s))
    unfolding requests turns
    requests-Follows zero s fresh = record {
      same_weights = refl;
      same_schedule = refl;
      same_ids = refl;
    }
    requests-Follows (suc k) s fresh =
        follow k s fresh (requests k route (gates, s)) (requests-Follows k s fresh)

-- While the state of the instances of a route stays, the ids of its backends differ, some of them
-- can be selected, and their number times the sum of their weights is below 2^63: of a row of
-- requests to it, from a fresh schedule, as many as this sum times m, every such backend gets as
-- many as its weight times m, and the others none.
pub requests-shares :
    (route : RuntimeRoute) (gates : List InstanceGate) (m : ℕ) (s : Schedule)
    → AreDistinct (ids route.backends)
    → 0 < total_weight (weighted gates route.backends)
    → length (weighted gates route.backends) * total_weight (weighted gates route.backends) < 2 ^ 63
    → ((id : String) → value id s ≡ origin)
    → (id : String)
    → count id (requests (m * total_weight (weighted gates route.backends)) route (gates, s)).1
      ≡ m * weight_of id (weighted gates route.backends)
requests-shares route gates m s distinct some_weight small fresh id =
    let k : ℕ = m * total_weight (weighted gates route.backends) in
    ap (count id) (requests-Follows route gates distinct some_weight small k s fresh).same_ids
    ∙ (turns-shares (weighted gates route.backends) m s
        (weighted-AreDistinct gates route.backends distinct) some_weight small fresh id).0

-- While the state of the instances of a route stays, the ids of its backends differ, some of them
-- can be selected, and their number times the sum of their weights is below 2^63: in a row of any
-- number of requests to it, from a fresh schedule, a backend is ahead of its share of them by less
-- than one request, and behind it by at most one request for each other backend that can be
-- selected.
pub requests-near_share :
    (route : RuntimeRoute) (gates : List InstanceGate) (k : ℕ) (s : Schedule)
    → AreDistinct (ids route.backends)
    → 0 < total_weight (weighted gates route.backends)
    → length (weighted gates route.backends) * total_weight (weighted gates route.backends) < 2 ^ 63
    → ((id : String) → value id s ≡ origin)
    → (id : String)
    → (total_weight (weighted gates route.backends) * count id (requests k route (gates, s)).1
        < k * weight_of id (weighted gates route.backends)
          + total_weight (weighted gates route.backends))
      × (k * weight_of id (weighted gates route.backends)
            + total_weight (weighted gates route.backends)
          ≤ total_weight (weighted gates route.backends) * count id (requests k route (gates, s)).1
            + length (weighted gates route.backends) * total_weight (weighted gates route.backends))
requests-near_share route gates k s distinct some_weight small fresh id =
    let ws : List (String × ℕ) = weighted gates route.backends in
    subst
      (λ (got : List String).
        (total_weight ws * count id got < k * weight_of id ws + total_weight ws)
        × (k * weight_of id ws + total_weight ws
            ≤ total_weight ws * count id got + length ws * total_weight ws))
      (sym (requests-Follows route gates distinct some_weight small k s fresh).same_ids)
      (turns-near_share ws k s (weighted-AreDistinct gates route.backends distinct) some_weight
        small fresh id)
