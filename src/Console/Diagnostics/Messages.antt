-- ===== src/Console/Diagnostics/Messages.antt =====
-- Whether the messages of the diagnostics are in the dictionary.
use senix.Prelude.{
  ℕ, ◌+◌, String, str_eq, List, [], ◌∷◌, Option, none, some, Bool-cases, inl, inr, refl,
}
use senix.Locale.{scan}
use senix.Locale.Templates.{fields}
use senix.Console.Screen.{message}
use senix.Console.Screen.Coverage.{
  IsCovered, is_translated, all-IsCovered, append-IsCovered, either-IsCovered, when-IsCovered,
  concat-IsCovered,
}
use senix.Console.Diagnostics.{
  Step, Report, Diagnosis, Event, outcome_copy, stage_label, step_lines, steps_from, report_parts,
  no_report, report_screen, diagnosis_form, diagnosis_screen,
}

ready-IsCovered : IsCovered {E = Event} (message "当前运行快照中有后端可以接收新请求。" [] ∷ [])
unfolding is_translated scan fields
ready-IsCovered = all-IsCovered refl

not_found-IsCovered : IsCovered {E = Event} (message "当前配置没有匹配这个 Host 与路径。" [] ∷ [])
unfolding is_translated scan fields
not_found-IsCovered = all-IsCovered refl

no_backend-IsCovered : IsCovered {E = Event} (message "路由已命中，但所有后端都被流量状态、健康状态或权重挡住。" [] ∷ [])
unfolding is_translated scan fields
no_backend-IsCovered = all-IsCovered refl

outcome_copy-IsCovered : (outcome : String) → IsCovered (outcome_copy outcome)
outcome_copy-IsCovered outcome =
    append-IsCovered _ _ (when-IsCovered (str_eq outcome "READY") _ ready-IsCovered) (
      append-IsCovered _ _ (when-IsCovered (str_eq outcome "ROUTE_NOT_FOUND") _ not_found-IsCovered)
        (when-IsCovered (str_eq outcome "NO_AVAILABLE_BACKEND") _ no_backend-IsCovered))

route-IsCovered : IsCovered {E = Event} (message "路由匹配" [] ∷ [])
unfolding is_translated scan fields
route-IsCovered = all-IsCovered refl

state-IsCovered : IsCovered {E = Event} (message "后端状态" [] ∷ [])
unfolding is_translated scan fields
state-IsCovered = all-IsCovered refl

selection-IsCovered : IsCovered {E = Event} (message "后端选择" [] ∷ [])
unfolding is_translated scan fields
selection-IsCovered = all-IsCovered refl

stage_label-IsCovered : (stage : String) → IsCovered (stage_label stage)
stage_label-IsCovered stage = either-IsCovered (str_eq stage "route_match") _ _ route-IsCovered (
    either-IsCovered (str_eq stage "backend_state") _ _ state-IsCovered (
      either-IsCovered (str_eq stage "backend_selection") _ _ selection-IsCovered
        (all-IsCovered refl)))

module _ (upper : String → String) where
  step_lines-IsCovered : (index : ℕ) (s : Step) → IsCovered (step_lines upper index s)
  step_lines-IsCovered index s = append-IsCovered (_ ∷ []) _ (all-IsCovered refl) (
      append-IsCovered (stage_label s.stage) _ (stage_label-IsCovered s.stage) (all-IsCovered refl))

  steps_from-IsCovered : (index : ℕ) (steps : List Step) → IsCovered (steps_from upper index steps)
  steps_from-IsCovered index [] = all-IsCovered refl
  steps_from-IsCovered index (s ∷ steps) =
      append-IsCovered (step_lines upper index s) _ (step_lines-IsCovered index s)
        (steps_from-IsCovered (index + 1) steps)

  no_report-IsCovered : IsCovered no_report
  unfolding is_translated scan fields
  no_report-IsCovered = all-IsCovered refl

  report-IsCovered : (r : Option Report) → IsCovered (report_screen upper r)
  unfolding is_translated scan fields
  report-IsCovered none = no_report-IsCovered
  report-IsCovered (some r) = concat-IsCovered (report_parts upper r) (
    all-IsCovered refl,
    (
      outcome_copy-IsCovered r.outcome,
      (all-IsCovered refl, (steps_from-IsCovered 0 r.steps, (all-IsCovered refl, tt))),
    ),
  )

  diagnosis_form-IsCovered : (d : Diagnosis) → IsCovered (diagnosis_form d)
  unfolding is_translated scan fields
  diagnosis_form-IsCovered d = elim (Bool-cases d.busy) [
    | inl busy ↦ rw busy (all-IsCovered refl)
    | inr ready ↦ rw ready (all-IsCovered refl)
  ]

  pub diagnosis_screen-IsCovered : (d : Diagnosis) → IsCovered (diagnosis_screen upper d)
  unfolding diagnosis_screen
  diagnosis_screen-IsCovered d =
      append-IsCovered (diagnosis_form d) _ (diagnosis_form-IsCovered d) (report-IsCovered d.report)
