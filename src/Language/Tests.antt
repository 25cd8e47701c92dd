-- ===== src/Language/Tests.antt =====
-- The language provider, run in two browsers.
use senix.Prelude.{true, codes, [], ◌∷◌, none, some, ◌≡◌, refl}
use senix.Locale.{choose_locale}
use senix.Language.{Browser, initial_locale, mount, show, store, set_locale, choose_all}
use senix.Language.Laws.{IsShown, choose_all-mount-IsShown}

abbrev chinese : Browser
chinese = record {
  readable = true;
  writable = true;
  saved = some "fr";
  languages = codes "ZH-Hant" ∷ codes "en" ∷ [];
  language = none;
}

begins_chinese : initial_locale chinese ≡ "zh-CN"
unfolding initial_locale choose_locale
begins_chinese = refl

choose_all-mount-IsShown_example : IsShown chinese (choose_all (mount chinese) ("en" ∷ "de" ∷ []))
choose_all-mount-IsShown_example = choose_all-mount-IsShown chinese ("en" ∷ "de" ∷ []) refl refl

last_choice : (choose_all (mount chinese) ("en" ∷ "de" ∷ [])).locale ≡ "en"
unfolding choose_all mount initial_locale choose_locale show store set_locale
last_choice = refl
