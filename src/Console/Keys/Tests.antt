-- ===== src/Console/Keys/Tests.antt =====
-- The key form, with a template and with choices of its own.
use senix.Prelude.{codes, some, List, [], ◌∷◌, ◌≡◌, refl, true, false}
use senix.Decimal.{decimal, read_number}
use senix.Console.Keys.{
  key_presets, find_preset, blank, issue, Event, select_preset, toggle_action, type_label,
  choose_expiry, check_instances, run, step, submit_form,
}
use senix.Console.Keys.Scope.{IsFitEffect, submit_form-IsFit}
use senix.Console.Keys.Template.{IsTemplateEffect, run-blank-IsTemplateEffect}

abbrev clicks : List Event
clicks =
    type_label (codes "deploy")
    ∷ choose_expiry (codes "24")
    ∷ toggle_action "instance.drain" true
    ∷ check_instances ("a" ∷ [])
    ∷ []

submit_form-IsFit_example : IsFitEffect (submit_form (run decimal blank clicks)).1
submit_form-IsFit_example = submit_form-IsFit (run decimal blank clicks)

drain_grant :
    (submit_form (run decimal blank clicks)).1
    ≡ issue (record {
      label = codes "deploy";
      lifetime_ms = some 86400000;
      actions = "instance.drain" ∷ [];
      instance_ids = "a" ∷ [];
      all_resources = false;
    })
unfolding submit_form run step read_number
drain_grant = refl

run-blank-IsTemplateEffect_example :
    let f = run decimal blank (toggle_action "audit.read" true ∷ select_preset "plan" ∷ []) in
    IsTemplateEffect (find_preset f.preset_id key_presets) (submit_form f).1
run-blank-IsTemplateEffect_example =
    run-blank-IsTemplateEffect decimal (toggle_action "audit.read" true ∷ select_preset "plan" ∷ [])
