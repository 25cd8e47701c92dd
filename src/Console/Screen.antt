-- ===== src/Console/Screen.antt =====
-- web/src/main.jsx, what the components return: the texts and the controls of a page in the order
-- of the markup. The elements around them, the class names and the icons are left out; a tone, which
-- the code turns into a class name, is kept.
pub mod Coverage
use senix.Prelude.{
  ℕ, Bool, true, false, String, Text, codes, text_eq, List, [], ◌∷◌, ◌++◌, Option, none, some,
  if◌then◌else◌,
}
use senix.Locale.{Entry, Values, translate, text, notice}
use senix.Console.Api.{Tone}

-- What `useI18n` gives to a component.
pub record I18n : Type 0 where
  pub locale : String
  pub format_time : Option ℕ → Text

pub data Item {ℓ} (E : Type ℓ) : Type ℓ where
  -- a text of the markup or of the data, shown as it is
  plain : Text → Item E
  -- the same, coloured by `stateTone`
  toned : Tone → Text → Item E
  -- a text of an element whose class name depends on a test
  marked : Bool → Text → Item E
  -- t("…", {…}), shown, or in a title or a label for a screen reader
  message hint : String → Values → Item E
  -- t(x), for a notice that is kept in the state
  entry : Entry → Item E
  -- a button with its message; the events of its element
  button : (enabled : Bool) → String → Values → E → Item E
  -- a text field or a selection, with the text in it
  input : Text → (Text → E) → Item E
  checkbox : (enabled checked : Bool) → (Bool → E) → Item E

-- `cond && <…>`
abbrev pub when {ℓ} : {A : Type ℓ} → Bool → List A → List A
when true items = items
when false items = []

-- `cond ? <…> : <…>`
abbrev pub either {ℓ} : {A : Type ℓ} → Bool → List A → List A → List A
either true items others = items
either false items others = others

-- The parts of a page one behind the other.
abbrev pub concat {ℓ} : {A : Type ℓ} → List (List A) → List A
concat [] = []
concat (part ∷ parts) = part ++ concat parts

-- `xs.map((x) => <…>)`
abbrev pub each {ℓ κ} : {A : Type ℓ} {B : Type κ} → (A → List B) → List A → List B
each f [] = []
each f (a ∷ more) = f a ++ each f more

-- A component inside another, whose events the outer one handles by `f`.
abbrev pub relay {ℓ κ} : {E : Type ℓ} {F : Type κ} → (E → F) → Item E → Item F
relay f (plain t) = plain t
relay f (toned tone t) = toned tone t
relay f (marked on t) = marked on t
relay f (message key values) = message key values
relay f (hint key values) = hint key values
relay f (entry e) = entry e
relay f (button enabled key values e) = button enabled key values (f e)
relay f (input t g) = input t (λ s. f (g s))
relay f (checkbox enabled checked g) = checkbox enabled checked (λ b. f (g b))

abbrev pub nested {ℓ κ} : {E : Type ℓ} {F : Type κ} → (E → F) → List (Item E) → List (Item F)
nested f [] = []
nested f (item ∷ items) = relay f item ∷ nested f items

-- The text that an item shows in a language.
unfoldable pub shown {ℓ} : {E : Type ℓ} → String → Item E → Text
shown locale (plain t) = t
shown locale (toned tone t) = t
shown locale (marked on t) = t
shown locale (message key values) = translate locale (text (codes key)) values
shown locale (hint key values) = translate locale (text (codes key)) values
shown locale (entry e) = translate locale e []
shown locale (button enabled key values e) = translate locale (text (codes key)) values
shown locale (input t g) = t
shown locale (checkbox enabled checked g) = []

-- A text of the state that is compared with a text of the source.
abbrev pub text_is : Text → String → Bool
text_is t s = text_eq t (codes s)
