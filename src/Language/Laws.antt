-- ===== src/Language/Laws.antt =====
-- The language that is shown, before and after a reload of the page.
use senix.Prelude.{
  true, String, Text, codes, List, [], ◌∷◌, Option, none, some, ◌≡◌, inl, inr, refl, arith,
  Bool-cases,
}
use senix.Locale.{text, choose_locale, translate, is_supported, browser_locale, prefers_chinese}
use senix.Language.{Browser, Provider, initial_locale, mount, set_locale, choose_all}

-- The page's state between two events.
pub record IsShown (b : Browser) (p : Provider) : Type 0 where
  pub supported : is_supported p.locale ≡ true
  pub lang : p.document_lang ≡ p.locale
  pub title : p.document_title ≡ translate p.locale (text (codes "Senix 控制台")) []
  pub reloads : initial_locale p.browser ≡ p.locale
  pub readable : p.browser.readable ≡ b.readable
  pub writable : p.browser.writable ≡ b.writable

browser_locale-supported : (language : Option Text) → is_supported (browser_locale language) ≡ true
browser_locale-supported language = elim (Bool-cases (prefers_chinese language)) [
  | inl chinese ↦ rw chinese refl
  | inr other ↦ rw other refl
]

-- The chosen language is one of the two, whatever is saved and whatever the browser prefers.
pub choose_locale-supported :
    (saved : Option String) (language : Option Text)
    → is_supported (choose_locale saved language) ≡ true
unfolding choose_locale
choose_locale-supported none language = browser_locale-supported language
choose_locale-supported (some s) language = elim (Bool-cases (is_supported s)) [
  | inl known ↦ rw known known
  | inr unknown ↦ rw unknown (browser_locale-supported language)
]

mount-IsShown : (b : Browser) → IsShown b (mount b)
unfolding mount
mount-IsShown b = record {
  supported = unfold initial_locale in choose_locale-supported _ _;
  lang = refl;
  title = refl;
  reloads = refl;
  readable = refl;
  writable = refl;
}

set_locale-IsShown :
    (b : Browser) (p : Provider) (next : String)
    → b.readable ≡ true
    → b.writable ≡ true
    → IsShown b p
    → IsShown b (set_locale p next)
unfolding set_locale initial_locale choose_locale
set_locale-IsShown b p next r w h = ground arith

choose_all-IsShown :
    (b : Browser) (p : Provider) (choices : List String)
    → b.readable ≡ true
    → b.writable ≡ true
    → IsShown b p
    → IsShown b (choose_all p choices)
unfolding choose_all
choose_all-IsShown b p [] r w h = h
choose_all-IsShown b p (next ∷ more) r w h =
    choose_all-IsShown b (set_locale p next) more r w (set_locale-IsShown b p next r w h)

-- In a browser whose storage works, after any choices the language shown is one of the two, the
-- document carries it, and a reload of the page starts with it again.
pub choose_all-mount-IsShown :
    (b : Browser) (choices : List String)
    → b.readable ≡ true
    → b.writable ≡ true
    → IsShown b (choose_all (mount b) choices)
choose_all-mount-IsShown b choices r w =
    choose_all-IsShown b (mount b) choices r w (mount-IsShown b)
