-- ===== src/Console/Keys/Messages.antt =====
-- Whether the messages of the key form are in the dictionary.
use senix.Prelude.{
  String, str_eq, true, Text, List, [], ◌∷◌, Bool-cases, inl, inr, ◌≡◌, refl, arith,
}
use senix.Locale.{scan}
use senix.Locale.Templates.{fields}
use senix.Console.Screen.Coverage.{
  IsCovered, is_translated, is_translated-if, all-IsCovered, concat-IsCovered, each-IsCovered,
}
use senix.Console.Keys.{Form}
use senix.Console.Keys.Screen.{
  action_labels, description_of, preset_part, name_part, options_of, scope_part, instance_option,
  no_instances, picker, form_buttons, form_parts, form_screen,
}

description-is_translated : (id : String) → is_translated (description_of id) [] ≡ true
unfolding is_translated scan fields
description-is_translated id = is_translated-if (str_eq id "read") _ _ [] refl (
    is_translated-if (str_eq id "plan") _ _ [] refl
      (is_translated-if (str_eq id "apply") _ _ [] refl refl))

module _ (id_of : Text → String) where
  preset_part-IsCovered : (f : Form) → IsCovered (preset_part id_of f)
  unfolding is_translated scan fields
  preset_part-IsCovered f = all-IsCovered (ground (arith, description-is_translated f.preset_id))

name_part-IsCovered : (f : Form) → IsCovered (name_part f)
unfolding is_translated scan fields
name_part-IsCovered f = all-IsCovered refl

options-IsCovered : (f : Form) → IsCovered (options_of f action_labels)
unfolding is_translated scan fields
options-IsCovered f = all-IsCovered refl

scope_part-IsCovered : (f : Form) → IsCovered (scope_part f)
unfolding is_translated scan fields
scope_part-IsCovered f = all-IsCovered refl

no_instances-IsCovered : IsCovered no_instances
unfolding is_translated scan fields
no_instances-IsCovered = all-IsCovered refl

picker-IsCovered : (f : Form) (ids : List String) → IsCovered (picker f ids)
picker-IsCovered f [] = no_instances-IsCovered
picker-IsCovered f (id ∷ ids) =
    each-IsCovered (instance_option f) (id ∷ ids) (λ id. all-IsCovered refl)

form_buttons-IsCovered : (f : Form) → IsCovered (form_buttons f)
unfolding is_translated scan fields
form_buttons-IsCovered f = elim (Bool-cases f.busy) [
  | inl busy ↦ rw busy (all-IsCovered refl)
  | inr ready ↦ rw ready (all-IsCovered refl)
]

pub form_screen-IsCovered :
    (id_of : Text → String) (ids : List String) (f : Form) → IsCovered (form_screen id_of ids f)
unfolding form_screen
form_screen-IsCovered id_of ids f = concat-IsCovered (form_parts id_of ids f) (
  preset_part-IsCovered id_of f,
  (
    name_part-IsCovered f,
    (
      options-IsCovered f,
      (scope_part-IsCovered f, (picker-IsCovered f ids, (form_buttons-IsCovered f, tt))),
    ),
  ),
)
