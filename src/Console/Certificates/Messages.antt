-- ===== src/Console/Certificates/Messages.antt =====
-- Whether the messages of the certificates are in the dictionary.
use senix.Prelude.{
  ℕ, String, str_eq, Bool, true, false, not, Text, List, [], ◌∷◌, ◌&&◌, Bool-cases, inl, inr, refl,
}
use senix.Locale.{scan}
use senix.Locale.Templates.{fields}
use senix.Console.Screen.{I18n, plain}
use senix.Console.Screen.Coverage.{
  IsCovered, is_translated, all-IsCovered, append-IsCovered, concat-IsCovered, each-IsCovered,
  when-IsCovered, either-IsCovered,
}
use senix.Console.Certificates.{Certificate, Panel}
use senix.Console.Certificates.Screen.{
  names, horizon, renew_button, row_parts, row, disabled_page, page_head, open_button, issue_part,
  is_error, no_certificates, rows, page_parts, certificates_screen,
}

names-IsCovered : (domains : List Text) → IsCovered (names domains)
names-IsCovered [] = all-IsCovered refl
names-IsCovered (domain ∷ domains) =
    append-IsCovered (plain domain ∷ []) _ (all-IsCovered refl)
      (each-IsCovered (λ d. plain d ∷ []) domains (λ d. all-IsCovered refl))

horizon-IsCovered : (i18n : I18n) (now : ℕ) (item : Certificate) → IsCovered (horizon i18n now item)
unfolding is_translated scan fields
horizon-IsCovered i18n now item = all-IsCovered refl

renew_button-IsCovered : (busy : Bool) (item : Certificate) → IsCovered (renew_button busy item)
unfolding is_translated scan fields
renew_button-IsCovered true item = all-IsCovered refl
renew_button-IsCovered false item = all-IsCovered refl

row-IsCovered :
    (i18n : I18n) (now : ℕ) (busy : String) (item : Certificate)
    → IsCovered (row i18n now busy item)
row-IsCovered i18n now busy item =
    concat-IsCovered (row_parts i18n now (str_eq busy item.certificate_id) item) (
      names-IsCovered item.domains,
      (
        horizon-IsCovered i18n now item,
        (
          all-IsCovered refl,
          (
            when-IsCovered item.active _
                (renew_button-IsCovered (str_eq busy item.certificate_id) item),
            tt,
          ),
        ),
      ),
    )

disabled_page-IsCovered : IsCovered disabled_page
unfolding is_translated scan fields
disabled_page-IsCovered = all-IsCovered refl

page_head-IsCovered : IsCovered page_head
unfolding is_translated scan fields
page_head-IsCovered = all-IsCovered refl

open_button-IsCovered : IsCovered open_button
unfolding is_translated scan fields
open_button-IsCovered = all-IsCovered refl

issue_part-IsCovered : (p : Panel) → IsCovered (issue_part p)
unfolding is_translated scan fields
issue_part-IsCovered p = elim (Bool-cases (str_eq p.busy "issue")) [
  | inl busy ↦ rw busy (all-IsCovered refl)
  | inr other ↦ rw other (all-IsCovered refl)
]

no_certificates-IsCovered : IsCovered no_certificates
unfolding is_translated scan fields
no_certificates-IsCovered = all-IsCovered refl

rows-IsCovered :
    (i18n : I18n) (now : ℕ) (busy : String) (items : List Certificate)
    → IsCovered (rows i18n now busy items)
rows-IsCovered i18n now busy [] = no_certificates-IsCovered
rows-IsCovered i18n now busy (item ∷ items) =
    each-IsCovered (row i18n now busy) (item ∷ items) (row-IsCovered i18n now busy)

pub certificates_screen-IsCovered :
    (i18n : I18n) (now : ℕ) (enabled : Bool) (items : List Certificate) (p : Panel)
    → IsCovered (certificates_screen i18n now enabled items p)
unfolding certificates_screen
certificates_screen-IsCovered i18n now enabled items p =
    either-IsCovered enabled _ disabled_page
      (concat-IsCovered (page_parts i18n now items p) (
        page_head-IsCovered,
        (
          when-IsCovered (not p.is_open) _ open_button-IsCovered,
          (
            when-IsCovered p.is_open _ (issue_part-IsCovered p),
            (
              when-IsCovered (not p.is_open && is_error p.error) _ (all-IsCovered refl),
              (rows-IsCovered i18n now p.busy items, tt),
            ),
          ),
        ),
      ))
      disabled_page-IsCovered
