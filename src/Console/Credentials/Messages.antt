-- ===== src/Console/Credentials/Messages.antt =====
-- Whether the messages of the issued keys are in the dictionary, if those of the key form are.
use senix.Prelude.{Bool, not, Text, codes, List, [], ◌∷◌, ◌&&◌, refl}
use senix.Locale.{scan}
use senix.Locale.Templates.{fields}
use senix.Console.Screen.{I18n, Item, plain, message}
use senix.Console.Screen.Coverage.{
  IsCovered, is_translated, all-IsCovered, concat-IsCovered, each-IsCovered, when-IsCovered,
  either-IsCovered, nested-IsCovered,
}
use senix.Console.Keys.Screen.{Click}
use senix.Console.Credentials.{
  Credential, Event, in_form, is_revoked, is_bootstrap, revoke_button, row_parts, row, vault_head,
  open_button, no_credentials, rows, page_parts, credentials_screen,
}

bootstrap_scope-IsCovered : IsCovered {E = Event} (message "本机引导" [] ∷ [])
unfolding is_translated scan fields
bootstrap_scope-IsCovered = all-IsCovered refl

all_scope-IsCovered : IsCovered {E = Event} (message "所有资源" [] ∷ [])
unfolding is_translated scan fields
all_scope-IsCovered = all-IsCovered refl

bootstrap_permissions-IsCovered : IsCovered {E = Event} (message "账号创建后失效" [] ∷ [])
unfolding is_translated scan fields
bootstrap_permissions-IsCovered = all-IsCovered refl

time-IsCovered :
    (t : Text)
    → IsCovered {E = Event} (message "已失效 {time}" ((codes "time", t) ∷ []) ∷ [])
      × IsCovered {E = Event} (message "有效至 {time}" ((codes "time", t) ∷ []) ∷ [])
unfolding is_translated scan fields
time-IsCovered t = (all-IsCovered refl, all-IsCovered refl)

revoke_button-IsCovered : (c : Credential) → IsCovered (revoke_button c)
unfolding is_translated scan fields
revoke_button-IsCovered c = all-IsCovered refl

row-IsCovered : (i18n : I18n) (comma : Text) (c : Credential) → IsCovered (row i18n comma c)
row-IsCovered i18n comma c = concat-IsCovered (row_parts i18n comma c) (
  all-IsCovered refl,
  (
    either-IsCovered (is_bootstrap c) _ _ bootstrap_permissions-IsCovered
        (each-IsCovered (λ a. plain a ∷ []) c.actions (λ a. all-IsCovered refl)),
    (
      either-IsCovered (is_bootstrap c) _ _ bootstrap_scope-IsCovered
          (either-IsCovered c.all_resources _ _ all_scope-IsCovered (all-IsCovered refl)),
      (
        either-IsCovered (is_revoked c) _ _ (time-IsCovered (i18n.format_time c.revoked_at_ms)).0
            (time-IsCovered (i18n.format_time c.expires_at_ms)).1,
        (
          when-IsCovered (not (is_bootstrap c) && not (is_revoked c)) _ (revoke_button-IsCovered c),
          tt,
        ),
      ),
    ),
  ),
)

head-IsCovered : IsCovered vault_head
unfolding is_translated scan fields
head-IsCovered = all-IsCovered refl

open_button-IsCovered : IsCovered open_button
unfolding is_translated scan fields
open_button-IsCovered = all-IsCovered refl

no_credentials-IsCovered : IsCovered no_credentials
unfolding is_translated scan fields
no_credentials-IsCovered = all-IsCovered refl

rows-IsCovered :
    (i18n : I18n) (comma : Text) (credentials : List Credential)
    → IsCovered (rows i18n comma credentials)
rows-IsCovered i18n comma [] = no_credentials-IsCovered
rows-IsCovered i18n comma (c ∷ cs) =
    each-IsCovered (row i18n comma) (c ∷ cs) (row-IsCovered i18n comma)

pub credentials_screen-IsCovered :
    (i18n : I18n) (comma : Text) (form : List (Item Click)) (credentials : List Credential)
    (is_open : Bool)
    → IsCovered form
    → IsCovered (credentials_screen i18n comma form credentials is_open)
unfolding credentials_screen
credentials_screen-IsCovered i18n comma form credentials is_open h =
    concat-IsCovered (page_parts i18n comma form credentials is_open) (
      head-IsCovered,
      (
        when-IsCovered (not is_open) _ open_button-IsCovered,
        (
          when-IsCovered is_open _ (nested-IsCovered in_form form h),
          (rows-IsCovered i18n comma credentials, tt),
        ),
      ),
    )
