-- ===== src/Console/Changes/Messages.antt =====
-- Whether the messages of the change queue are in the dictionary.
use senix.Prelude.{
  ℕ, String, Bool, not, Text, codes, List, [], ◌∷◌, ◌++◌, Option, none, some, ◌==◌, str_eq,
  Bool-cases, inl, inr, refl,
}
use senix.Locale.{scan}
use senix.Locale.Templates.{fields}
use senix.Console.Api.{Value}
use senix.Console.Screen.{I18n, plain, message, concat, each}
use senix.Console.Screen.Coverage.{
  IsCovered, is_translated, all-IsCovered, when-IsCovered, either-IsCovered, append-IsCovered,
  concat-IsCovered, each-IsCovered,
}
use senix.Console.Changes.{Change, Queue, Event, Issue, is_blank, approval_expired}
use senix.Console.Changes.Screen.{
  rail, applied, title, digest, meta, expiry, pills, issue_lines, issue_list, approve_button,
  blocked_label, renew_button, apply_button, rollback_button, card_parts, button_parts, card,
  is_planning, queue_head, is_empty, queue_screen,
}

rail-IsCovered : (status : String) → IsCovered (rail status)
unfolding is_translated scan fields
rail-IsCovered status = all-IsCovered refl

applied-IsCovered : (v : Option ℕ) → IsCovered (applied v)
unfolding is_translated scan fields
applied-IsCovered none = all-IsCovered refl
applied-IsCovered (some v) = either-IsCovered (v == 0) _ _ (all-IsCovered refl) (all-IsCovered refl)

title-IsCovered : (c : Change) → IsCovered (title c)
unfolding is_translated scan fields
title-IsCovered c = elim (Bool-cases (str_eq c.kind "ROLLBACK")) [
  | inl back ↦ rw back (all-IsCovered refl)
  | inr other ↦ rw other (all-IsCovered refl)
]

digest-IsCovered : (c : Change) → IsCovered (digest c)
digest-IsCovered c = all-IsCovered refl

meta-IsCovered : (i18n : I18n) (c : Change) → IsCovered (meta i18n c)
unfolding is_translated scan fields
meta-IsCovered i18n c = all-IsCovered refl

expiry-IsCovered : (i18n : I18n) (expired : Bool) (c : Change) → IsCovered (expiry i18n expired c)
unfolding is_translated scan fields
expiry-IsCovered i18n expired c =
    either-IsCovered expired _ _ (all-IsCovered refl) (all-IsCovered refl)

routes-IsCovered :
    (sign : Text) (ids : List Text)
    → IsCovered {E = Event} (each (λ id. plain (sign ++ id) ∷ []) ids)
routes-IsCovered sign ids =
    each-IsCovered (λ id. plain (sign ++ id) ∷ []) ids (λ id. all-IsCovered refl)

pills-IsCovered : (c : Change) → IsCovered (pills c)
pills-IsCovered c = append-IsCovered _ _ (routes-IsCovered (codes "+ ") c.added_routes) (
    append-IsCovered _ _ (routes-IsCovered (codes "~ ") c.changed_routes)
      (routes-IsCovered (codes "− ") c.removed_routes))

issue_list-IsCovered : (issues : List Issue) → IsCovered (issue_list issues)
issue_list-IsCovered issues = each-IsCovered issue_lines issues (λ issue. all-IsCovered refl)

fixed-IsCovered : IsCovered {E = Event} (message "配置内容未变化" [] ∷ [])
unfolding is_translated scan fields
fixed-IsCovered = all-IsCovered refl

candidate-IsCovered : (t : Text) → IsCovered {E = Event} (message "查看完整候选配置" [] ∷ plain t ∷ [])
unfolding is_translated scan fields
candidate-IsCovered t = all-IsCovered refl

approve_button-IsCovered : (busy : Bool) (c : Change) → IsCovered (approve_button busy c)
unfolding is_translated scan fields
approve_button-IsCovered busy c = all-IsCovered refl

renew_button-IsCovered : (busy : Bool) (c : Change) → IsCovered (renew_button busy c)
unfolding is_translated scan fields
renew_button-IsCovered busy c = all-IsCovered refl

apply_button-IsCovered : (busy : Bool) (c : Change) → IsCovered (apply_button busy c)
unfolding is_translated scan fields
apply_button-IsCovered busy c = all-IsCovered refl

rollback_button-IsCovered : (busy : Bool) (c : Change) → IsCovered (rollback_button busy c)
unfolding is_translated scan fields
rollback_button-IsCovered busy c = all-IsCovered refl

blocked_label-IsCovered : IsCovered blocked_label
unfolding is_translated scan fields
blocked_label-IsCovered = all-IsCovered refl

card-IsCovered :
    (i18n : I18n) (pretty : Value → Text) (busy : Bool) (now : ℕ) (c : Change)
    → IsCovered (card i18n pretty busy now c)
unfolding card
card-IsCovered i18n pretty busy now c =
    append-IsCovered (concat (card_parts i18n pretty now c)) (concat (button_parts busy now c))
      (concat-IsCovered (card_parts i18n pretty now c) (
        rail-IsCovered c.status,
        (
          title-IsCovered c,
          (
            digest-IsCovered c,
            (
              applied-IsCovered c.applied_version,
              (
                meta-IsCovered i18n c,
                (
                  when-IsCovered _ _ (expiry-IsCovered i18n (approval_expired now c) c),
                  (
                    pills-IsCovered c,
                    (
                      when-IsCovered _ _ fixed-IsCovered,
                      (
                        when-IsCovered _ _ (issue_list-IsCovered c.issues),
                        (candidate-IsCovered (pretty c.candidate), tt),
                      ),
                    ),
                  ),
                ),
              ),
            ),
          ),
        ),
      ))
      (concat-IsCovered (button_parts busy now c) (
        when-IsCovered _ _ (approve_button-IsCovered busy c),
        (
          when-IsCovered _ _ blocked_label-IsCovered,
          (
            when-IsCovered _ _ (renew_button-IsCovered busy c),
            (
              when-IsCovered _ _ (apply_button-IsCovered busy c),
              (when-IsCovered _ _ (rollback_button-IsCovered busy c), tt),
            ),
          ),
        ),
      ))

queue_head-IsCovered : (q : Queue) → IsCovered (queue_head q)
unfolding is_translated scan fields
queue_head-IsCovered q = elim (Bool-cases (is_planning q)) [
  | inl planning ↦ rw planning (all-IsCovered refl)
  | inr other ↦ rw other (all-IsCovered refl)
]

empty-IsCovered : IsCovered {E = Event} (message "还没有配置变更计划。" [] ∷ [])
unfolding is_translated scan fields
empty-IsCovered = all-IsCovered refl

pub queue_screen-IsCovered :
    (i18n : I18n) (pretty : Value → Text) (now : ℕ) (changes : List Change) (q : Queue)
    → IsCovered (queue_screen i18n pretty now changes q)
unfolding queue_screen
queue_screen-IsCovered i18n pretty now changes q =
    append-IsCovered (queue_head q) _ (queue_head-IsCovered q) (
      either-IsCovered (is_empty changes) _ _ empty-IsCovered (
        each-IsCovered (card i18n pretty (not (is_blank q.busy)) now) changes
          (card-IsCovered i18n pretty (not (is_blank q.busy)) now)))
