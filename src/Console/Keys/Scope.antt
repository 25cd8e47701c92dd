-- ===== src/Console/Keys/Scope.antt =====
-- What a key may be issued for.
use senix.Prelude.{
  ℕ, Text, Option, and-true, Bool, true, false, not, String, List, [], ◌∷◌, ◌≡◌, ◌≢◌, ◌⊎◌, refl,
  arith, All, all, ◌&&◌, ◌||◌, if◌then◌else◌, Bool-cases, inl, inr,
}
use senix.Console.Api.{one_of}
use senix.Console.Keys.{
  known_actions, keep, Form, Grant, Effect, issue, form_actions, form_instances, is_empty,
  needs_global_scope, grant_of, submit_form,
}

-- A grant that is fit to be issued: some actions, all of them known; just one kind of scope; and
-- none of the actions that need all resources unless the grant covers these.
pub record IsFitGrant (g : Grant) : Type 0 where
  pub some_action : g.actions ≢ []
  pub known : All (λ action. one_of known_actions action ≡ true) g.actions
  pub scope :
      ((g.all_resources ≡ true) × (g.instance_ids ≡ []))
      ⊎ ((g.all_resources ≡ false) × (g.instance_ids ≢ []) × (needs_global_scope g.actions ≡ false))

abbrev pub IsFitEffect : Effect → Type 0
IsFitEffect (issue g) = IsFitGrant g
IsFitEffect _ = Unit

All-keep :
    (P : String → Type 0) (test : String → Bool) (names : List String)
    → All P names
    → All P (keep test names)
All-keep P test [] h = tt
All-keep P test (s ∷ names) (p, h) = elim (Bool-cases (test s)) [
  | inl kept ↦ rw kept (p, All-keep P test names h)
  | inr left ↦ rw left (All-keep P test names h)
]

ne_nil : (names : List String) → is_empty names ≡ false → names ≢ []
ne_nil [] h = cc
ne_nil (s ∷ names) h = cc

All-all :
    (test : String → Bool) (names : List String)
    → all test names ≡ true
    → All (λ s. test s ≡ true) names
All-all test [] h = tt
All-all test (s ∷ names) h =
    let (here, later) = and-true (test s) (all test names) h in (here, All-all test names later)

left_false : (a b : Bool) → (a || b) ≡ false → a ≡ false
left_false a b h = ground arith

right_false : (a b c : Bool) → (a || (not b && c)) ≡ false → b ≡ false → c ≡ false
right_false a b c h k = ground arith

narrow_false : (a b : Bool) → (a && not b) ≡ false → b ≡ false → a ≡ false
narrow_false a b h k = ground arith

known_known : all (one_of known_actions) known_actions ≡ true
known_known = refl

-- The grant that a form asks for, and the tests that it has passed.
grant-IsFit :
    (label : Text) (lifetime_ms : Option ℕ) (actions instances : List String) (all_resources : Bool)
    → All (λ action. one_of known_actions action ≡ true) actions
    → (is_empty actions || (not all_resources && is_empty instances)) ≡ false
    → (needs_global_scope actions && not all_resources) ≡ false
    → IsFitGrant (record {
      label = label;
      lifetime_ms = lifetime_ms;
      actions = actions;
      instance_ids = if all_resources then [] else instances;
      all_resources = all_resources;
    })
grant-IsFit label lifetime_ms actions instances true known given wide = record {
  some_action = ne_nil actions (left_false (is_empty actions) _ given);
  known = known;
  scope = inl (refl, refl);
}
grant-IsFit label lifetime_ms actions instances false known given wide = record {
  some_action = ne_nil actions (left_false (is_empty actions) _ given);
  known = known;
  scope = inr (
    refl,
    ne_nil instances (right_false (is_empty actions) false (is_empty instances) given refl),
    narrow_false (needs_global_scope actions) false wide refl,
  );
}

same_scope :
    (a all_resources : Bool) (instances : List String)
    → (a || (not all_resources && is_empty (if all_resources then [] else instances))) ≡ false
    → (a || (not all_resources && is_empty instances)) ≡ false
same_scope a true instances h = h
same_scope a false instances h = h

-- Whatever has been chosen in the form, a key is asked for only with some actions, all of them of
-- the known ones; for all resources and no listed instance, or else for some listed instances and
-- with no action that needs all resources.
pub submit_form-IsFit : (f : Form) → IsFitEffect (submit_form f).1
unfolding submit_form
submit_form-IsFit f =
    let known =
      All-keep _ (one_of f.selected_actions) known_actions
        (All-all (one_of known_actions) known_actions known_known) in
    elim (Bool-cases f.busy) [
      | inl busy ↦ rw busy tt
      | inr ready ↦
          elim (Bool-cases
            (is_empty (form_actions f) || (not f.all_resources && is_empty (form_instances f)))) [
              | inl missing ↦ rw (ready, missing) tt
              | inr given ↦
                  elim (Bool-cases (needs_global_scope (form_actions f) && not f.all_resources)) [
                    | inl narrow ↦ rw (ready, given, narrow) tt
                    | inr wide ↦
                        rw (ready, given, wide)
                          (grant-IsFit (grant_of f).label (grant_of f).lifetime_ms (form_actions f)
                            f.checked_instances f.all_resources known
                            (same_scope (is_empty (form_actions f)) f.all_resources
                              f.checked_instances given)
                            wide)
                  ]
            ]
    ]
