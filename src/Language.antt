-- ===== src/Language.antt =====
-- web/src/i18n.jsx: the language that the console shows, and the choice that it keeps in the
-- browser's storage. The storage may refuse a read or a write, in which case the code goes on.
pub mod Laws
mod Tests
use senix.Prelude.{
  Bool, true, false, String, str_eq, Text, codes, List, [], ◌∷◌, Option, none, some, not, ◌&&◌,
  if◌then◌else◌,
}
use senix.Locale.{text, choose_locale, translate}

-- What the page sees of the browser.
pub record Browser : Type 0 where
  pub readable : Bool  -- `localStorage.getItem` does not throw
  pub writable : Bool  -- `localStorage.setItem` does not throw
  pub saved : Option String  -- the item `senix.language`
  pub languages : List Text  -- `navigator.languages`
  pub language : Option Text  -- `navigator.language`

abbrev is_empty : Text → Bool
is_empty [] = true
is_empty (_ ∷ _) = false

-- `navigator.languages?.[0] || navigator.language`
abbrev preferred : List Text → Option Text → Option Text
preferred [] language = language
preferred (first ∷ _) language = if is_empty first then language else some first

abbrev saved_choice : Browser → Option String
saved_choice b = if b.readable then b.saved else none

unfoldable pub initial_locale : Browser → String
initial_locale b = choose_locale (saved_choice b) (preferred b.languages b.language)

pub record Provider : Type 0 where
  pub locale : String
  pub browser : Browser
  pub document_lang : String
  pub document_title : Text

-- The effect of a rendering whose `locale` changed.
unfoldable pub show : Provider → Provider
show p = record p {
  document_lang = p.locale;
  document_title = translate p.locale (text (codes "Senix 控制台")) [];
}

-- The first rendering of `LanguageProvider`.
unfoldable pub mount : Browser → Provider
unfolding initial_locale show
mount b =
    show
      (record { locale = initial_locale b; browser = b; document_lang = ""; document_title = [] })

unfoldable pub store : Browser → String → Browser
store b next = if b.writable then record b { saved = some next } else b

-- `setLocale`, and the rendering after it.
unfoldable pub set_locale : Provider → String → Provider
unfolding show store
set_locale p next =
    if not (str_eq next "zh-CN") && not (str_eq next "en")
    then p
    else show (record p { locale = next; browser = store p.browser next })

-- The choices that an operator makes one after another.
unfoldable pub choose_all : Provider → List String → Provider
choose_all p [] = p
choose_all p (next ∷ more) = choose_all (set_locale p next) more
