-- ===== src/Console/Maintenance/Screen/Messages.antt =====
-- Whether the messages of the maintenance panel are in the dictionary.
use senix.Prelude.{Option, none, some, refl, Bool-cases, inl, inr}
use senix.Locale.{scan}
use senix.Locale.Templates.{fields}
use senix.Console.Number.{Doubles}
use senix.Console.Screen.{I18n, either}
use senix.Console.Screen.Coverage.{
  IsCovered, is_translated, append-IsCovered, either-IsCovered, concat-IsCovered, when-IsCovered,
  all-IsCovered,
}
use senix.Console.Maintenance.{Operation, drain, rejoin, View}
use senix.Console.Maintenance.Screen.{
  progress, is_busy, panel_head, foreign_drain, weight_form, drain_form, rejoin_form, disable_head,
  disable_confirm, disable_ask, disable_form, panel_parts, panel_view,
}

progress-IsCovered : (i18n : I18n) (o : Option Operation) → IsCovered (progress i18n o)
unfolding is_translated scan fields
progress-IsCovered i18n none = all-IsCovered refl
progress-IsCovered i18n (some operation) = all-IsCovered refl

module _ (d : Doubles) where
  weight_form-IsCovered : (v : View) → IsCovered (weight_form d v)
  unfolding is_translated scan fields
  weight_form-IsCovered v = all-IsCovered refl

  drain_form-IsCovered : (v : View) → IsCovered (drain_form d v)
  unfolding is_translated scan fields
  drain_form-IsCovered v = elim (Bool-cases (is_busy v.panel.busy drain)) [
    | inl busy ↦ rw busy (all-IsCovered refl)
    | inr other ↦ rw other (all-IsCovered refl)
  ]

  rejoin_form-IsCovered : (v : View) → IsCovered (rejoin_form d v)
  unfolding is_translated scan fields
  rejoin_form-IsCovered v = elim (Bool-cases (is_busy v.panel.busy rejoin)) [
    | inl busy ↦ rw busy (all-IsCovered refl)
    | inr other ↦ rw other (all-IsCovered refl)
  ]

  disable_head-IsCovered : (v : View) → IsCovered (disable_head d v)
  unfolding is_translated scan fields
  disable_head-IsCovered v = all-IsCovered refl

  disable_confirm-IsCovered : (v : View) → IsCovered (disable_confirm d v)
  unfolding is_translated scan fields
  disable_confirm-IsCovered v = all-IsCovered refl

  disable_ask-IsCovered : (v : View) → IsCovered (disable_ask d v)
  unfolding is_translated scan fields
  disable_ask-IsCovered v = all-IsCovered refl

  disable_form-IsCovered : (v : View) → IsCovered (disable_form d v)
  disable_form-IsCovered v =
      append-IsCovered (disable_head d v)
        (either v.panel.confirm_disable (disable_confirm d v) (disable_ask d v))
        (disable_head-IsCovered v)
        (either-IsCovered v.panel.confirm_disable (disable_confirm d v) (disable_ask d v)
          (disable_confirm-IsCovered v) (disable_ask-IsCovered v))

  head-IsCovered : (v : View) → IsCovered (panel_head v)
  unfolding is_translated scan fields
  head-IsCovered v = all-IsCovered refl

  foreign-IsCovered : IsCovered foreign_drain
  unfolding is_translated scan fields
  foreign-IsCovered = all-IsCovered refl

  -- Every message in the markup of the panel is in the dictionary, with its fields.
  pub panel_view-IsCovered : (i18n : I18n) (v : View) → IsCovered (panel_view d i18n v)
  unfolding panel_view
  panel_view-IsCovered i18n v = concat-IsCovered (panel_parts d i18n v) (
    head-IsCovered v,
    (
      progress-IsCovered i18n v.panel.operation,
      (
        when-IsCovered _ foreign_drain foreign-IsCovered,
        (
          when-IsCovered _ _ (weight_form-IsCovered v),
          (
            when-IsCovered _ _ (drain_form-IsCovered v),
            (
              when-IsCovered _ _ (rejoin_form-IsCovered v),
              (when-IsCovered _ _ (disable_form-IsCovered v), (all-IsCovered refl, tt)),
            ),
          ),
        ),
      ),
    ),
  )
