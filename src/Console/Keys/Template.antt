-- ===== src/Console/Keys/Template.antt =====
-- The template that the form shows, and the keys it issues.
use senix.Prelude.{
  ℕ, true, false, not, String, Text, List, [], ◌∷◌, Option, none, some, ◌≡◌, refl, sym, ap, subst,
  ◌∙◌, ◌&&◌, ◌||◌, if◌then◌else◌, Bool-cases, inl, inr,
}
use senix.Console.Api.{Answer, answered, failed, one_of}
use senix.Console.Keys.{
  known_actions, Preset, key_presets, find_preset, keep, Form, blank, Effect, nothing, issue,
  issued, Event, select_preset, toggle_action, toggle_all, check_instances, type_label,
  choose_expiry, submit, respond, preset_form, form_actions, form_instances, is_empty,
  needs_global_scope, submit_form, on_answer, step, run,
}

-- The template that the form shows is what is selected in it.
abbrev pub IsTemplate : Option Preset → Form → Type 0
IsTemplate none f = Unit
IsTemplate (some preset) f = (f.selected_actions ≡ preset.actions) × (f.all_resources ≡ true)

-- A grant just as the template says, its actions in the order of the page.
abbrev pub IsTemplateEffect : Option Preset → Effect → Type 0
IsTemplateEffect (some preset) (issue g) =
    (g.actions ≡ keep (one_of preset.actions) known_actions)
    × (g.all_resources ≡ true)
    × (g.instance_ids ≡ [])
IsTemplateEffect _ _ = Unit

abbrev shown_preset : Form → Option Preset
shown_preset f = find_preset f.preset_id key_presets

preset_form-IsTemplate :
    (p : Option Preset) (f : Form) (id : String)
    → IsTemplate p (record (preset_form p f) { preset_id = id })
preset_form-IsTemplate none f id = tt
preset_form-IsTemplate (some p) f id = (refl, refl)

unchanged :
    (p : Option Preset) (f g : Form)
    → f.selected_actions ≡ g.selected_actions
    → f.all_resources ≡ g.all_resources
    → IsTemplate p f
    → IsTemplate p g
unchanged none f g e k h = tt
unchanged (some p) f g e k (a, b) = (sym e ∙ a, sym k ∙ b)

-- What the template goes by is the same in both forms.
record IsSameChoice (f g : Form) : Type 0 where
  actions : f.selected_actions ≡ g.selected_actions
  resources : f.all_resources ≡ g.all_resources
  preset : f.preset_id ≡ g.preset_id

same_choice-IsTemplate :
    (f g : Form) → IsSameChoice f g → IsTemplate (shown_preset f) f → IsTemplate (shown_preset g) g
same_choice-IsTemplate f g same h =
    subst (λ (id : String). IsTemplate (find_preset id key_presets) g) same.preset
      (unchanged (shown_preset f) f g same.actions same.resources h)

submit_form-IsSameChoice : (f : Form) → IsSameChoice f (submit_form f).0
unfolding submit_form
submit_form-IsSameChoice f =
    let actions = form_actions f in
    let scope = is_empty actions || (not f.all_resources && is_empty (form_instances f)) in
    elim (Bool-cases f.busy) [
      | inl busy ↦ rw busy (record { actions = refl; resources = refl; preset = refl })
      | inr ready ↦ elim (Bool-cases scope) [
        | inl missing ↦
            rw (ready, missing) (record { actions = refl; resources = refl; preset = refl })
        | inr given ↦ elim (Bool-cases (needs_global_scope actions && not f.all_resources)) [
          | inl narrow ↦
              rw (ready, given, narrow) (record { actions = refl; resources = refl; preset = refl })
          | inr wide ↦
              rw (ready, given, wide) (record { actions = refl; resources = refl; preset = refl })
        ]
      ]
    ]

respond-IsSameChoice :
    (show : ℕ → Text) (f : Form) (answer : Answer Text)
    → IsSameChoice f (step show f (respond answer)).0
unfolding step on_answer
respond-IsSameChoice show f answer =
    elim f.busy as (λ b. IsSameChoice f (if b then on_answer show answer f else (f, nothing)).0) [
      | false ↦ record { actions = refl; resources = refl; preset = refl }
      | true ↦ elim answer as (λ a. IsSameChoice f (on_answer show a f).0) [
        | answered key ↦ record { actions = refl; resources = refl; preset = refl }
        | failed e ↦ record { actions = refl; resources = refl; preset = refl }
      ]
    ]

step-IsTemplate :
    (show : ℕ → Text) (f : Form) (e : Event)
    → IsTemplate (shown_preset f) f
    → IsTemplate (shown_preset (step show f e).0) (step show f e).0
unfolding step
step-IsTemplate show f (select_preset id) h =
    preset_form-IsTemplate (find_preset id key_presets) f id
step-IsTemplate show f (toggle_action action true) h = tt
step-IsTemplate show f (toggle_action action false) h = tt
step-IsTemplate show f (toggle_all checked) h = tt
step-IsTemplate show f (check_instances ids) h = unchanged (shown_preset f) f _ refl refl h
step-IsTemplate show f (type_label label) h = unchanged (shown_preset f) f _ refl refl h
step-IsTemplate show f (choose_expiry expires) h = unchanged (shown_preset f) f _ refl refl h
step-IsTemplate show f submit h =
    same_choice-IsTemplate f (submit_form f).0 (submit_form-IsSameChoice f) h
step-IsTemplate show f (respond answer) h =
    same_choice-IsTemplate f _ (respond-IsSameChoice show f answer) h

run-IsTemplate :
    (show : ℕ → Text) (f : Form) (later : List Event)
    → IsTemplate (shown_preset f) f
    → IsTemplate (shown_preset (run show f later)) (run show f later)
unfolding run
run-IsTemplate show f [] h = h
run-IsTemplate show f (e ∷ later) h =
    run-IsTemplate show (step show f e).0 later (step-IsTemplate show f e h)

-- A grant for the form's own choices.
abbrev IsChosen : Form → Effect → Type 0
IsChosen f (issue g) =
    (g.actions ≡ form_actions f)
    × (g.instance_ids ≡ form_instances f)
    × (g.all_resources ≡ f.all_resources)
IsChosen f _ = Unit

submit_form-IsChosen : (f : Form) → IsChosen f (submit_form f).1
unfolding submit_form
submit_form-IsChosen f =
    let actions = form_actions f in
    let scope = is_empty actions || (not f.all_resources && is_empty (form_instances f)) in
    elim (Bool-cases f.busy) [
      | inl busy ↦ rw busy tt
      | inr ready ↦ elim (Bool-cases scope) [
        | inl missing ↦ rw (ready, missing) tt
        | inr given ↦ elim (Bool-cases (needs_global_scope actions && not f.all_resources)) [
          | inl narrow ↦ rw (ready, given, narrow) tt
          | inr wide ↦ rw (ready, given, wide) (refl, refl, refl)
        ]
      ]
    ]

chosen-IsTemplateEffect :
    (p : Option Preset) (f : Form) (e : Effect)
    → IsTemplate p f
    → IsChosen f e
    → IsTemplateEffect p e
chosen-IsTemplateEffect none f e h k = tt
chosen-IsTemplateEffect (some p) f nothing h k = tt
chosen-IsTemplateEffect (some p) f (issued key) h k = tt
chosen-IsTemplateEffect (some p) f (issue g) (selected, wide) (actions, instances, scope) =
    let none_listed : form_instances f ≡ [] = rw wide refl in
    (
      actions ∙ ap (λ (names : List String). keep (one_of names) known_actions) selected,
      scope ∙ wide,
      instances ∙ none_listed,
    )

-- Whatever has been done in the form before, if it shows a template then a key is asked for with
-- just the actions of this template, for all resources.
pub run-blank-IsTemplateEffect :
    (show : ℕ → Text) (later : List Event)
    → let f = run show blank later in
      IsTemplateEffect (find_preset f.preset_id key_presets) (submit_form f).1
run-blank-IsTemplateEffect show later =
    let f = run show blank later in
    chosen-IsTemplateEffect (shown_preset f) f (submit_form f).1
      (run-IsTemplate show blank later tt) (submit_form-IsChosen f)
