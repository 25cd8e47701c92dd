-- ===== src/Console/Login/Messages.antt =====
-- Whether the messages of the form by which the owner signs in are in the dictionary.
use senix.Prelude.{Text, Bool-cases, inl, inr, refl}
use senix.Locale.{scan}
use senix.Locale.Templates.{fields}
use senix.Console.Screen.Coverage.{IsCovered, is_translated, all-IsCovered, append-IsCovered}
use senix.Console.Login.{
  Login, choose_language, language_select, login_form, login_rail, login_screen,
}

pub language_select-IsCovered {ℓ} :
    {E : Type ℓ} (choose : Text → E) (locale : Text) → IsCovered (language_select choose locale)
unfolding is_translated scan fields
language_select-IsCovered choose locale = all-IsCovered refl

login_form-IsCovered : (l : Login) → IsCovered (login_form l)
unfolding is_translated scan fields
login_form-IsCovered l = elim (Bool-cases l.busy) [
  | inl busy ↦ rw busy (all-IsCovered refl)
  | inr ready ↦ rw ready (all-IsCovered refl)
]

login_rail-IsCovered : IsCovered login_rail
unfolding is_translated scan fields
login_rail-IsCovered = all-IsCovered refl

pub login_screen-IsCovered : (locale : Text) (l : Login) → IsCovered (login_screen locale l)
unfolding login_screen
login_screen-IsCovered locale l =
    append-IsCovered (language_select choose_language locale) _
      (language_select-IsCovered choose_language locale)
      (append-IsCovered (login_form l) login_rail (login_form-IsCovered l) login_rail-IsCovered)
