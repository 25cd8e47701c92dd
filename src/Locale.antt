-- ===== src/Locale.antt =====
-- web/src/locale.js: the choice of the console's language, the translation of messages, and the
-- interpolation of values into their `{name}` fields. A text is the list of its code units, and a
-- value is given as the text that `String(value)` makes of it.
mod Catalog
pub mod Templates
pub mod Coverage
mod Tests
pub use Catalog.{catalog}
use senix.Prelude.{
  ℕ, Bool, true, false, String, str_eq, Text, codes, text_eq, starts_with, get_own, List, [], ◌∷◌,
  ◌++◌, map, Option, none, some, ◌+◌, ◌&&◌, ◌||◌, ◌==◌, leb, if◌then◌else◌,
}

-- A template read by the regular expression /\{(\w+)\}/g: code units that stand for themselves,
-- and fields.
pub data Piece : Type 0 where
  literal : ℕ → Piece
  field : Text → Piece

-- \w
abbrev pub is_word : ℕ → Bool
is_word c =
    (leb b'0' c && leb c b'9')
    || (leb b'A' c && leb c b'Z')
    || (leb b'a' c && leb c b'z')
    || c == b'_'

abbrev pub is_nonempty : Text → Bool
is_nonempty [] = false
is_nonempty (_ ∷ _) = true

abbrev pub literals : Text → List Piece
literals [] = []
literals (c ∷ s) = literal c ∷ literals s

-- The matches of the regular expression from left to right. The first argument is the name read
-- since an opening brace, `none` outside of one. A brace that opens no match stands for itself.
unfoldable pub scan : Option Text → Text → List Piece
scan none [] = []
scan none (c ∷ s) =
    let opened = scan (some []) s in
    let plain = literal c ∷ scan none s in if c == b'{' then opened else plain
scan (some name) [] = literals (b'{' ∷ name)
scan (some name) (c ∷ s) =
    let longer = scan (some (name ++ c ∷ [])) s in
    let closed = field name ∷ scan none s in
    let reopened = literals (b'{' ∷ name) ++ scan (some []) s in
    let plain = literals (b'{' ∷ name) ++ literal c ∷ scan none s in
    if is_word c
    then longer
    else if c == b'}' && is_nonempty name
    then closed
    else if c == b'{'
    then reopened
    else plain

abbrev pub Values : Type 0
Values = List (Text × Text)

abbrev pub placeholder : Text → Text
placeholder name = b'{' ∷ (name ++ b'}' ∷ [])

-- The replacer function of `translate`: the value of an own property, or the field itself.
abbrev pub replacement : Values → Text → Text
replacement values name = elim (get_own name values) [ none ↦ placeholder name | some v ↦ v ]

-- The pieces with each field put in by `f`.
unfoldable pub render : (Text → Text) → List Piece → Text
render f [] = []
render f (literal c ∷ ps) = c ∷ render f ps
render f (field name ∷ ps) = f name ++ render f ps

-- `template.replace(/\{(\w+)\}/g, …)`
unfoldable pub interpolate : Values → Text → Text
unfolding scan render
interpolate values template = render (replacement values) (scan none template)

-- A message as it is handed to `translate`: null or undefined, a text, or an object that may have
-- `message` and `values`.
pub data Entry : Type 0 where
  nothing : Entry
  text : Text → Entry
  notice : Option Text → Option Values → Entry

abbrev pub english : List (Text × Text)
english = map (λ e. (codes e.0, codes e.1)) catalog

abbrev pub message_of : Entry → Option Text
message_of nothing = none
message_of (text t) = some t
message_of (notice message values) = message

abbrev pub values_of : Entry → Values → Values
values_of (notice message (some own)) values = own
values_of _ values = values

abbrev pub or_empty : Option Text → Text
or_empty none = []
or_empty (some t) = t

-- The template that is chosen for a source message.
unfoldable pub template_of : String → Text → Text
template_of locale source = elim (get_own source english) [
  | none ↦ source
  | some translation ↦ if str_eq locale "en" then translation else source
]

unfoldable pub translate : String → Entry → Values → Text
unfolding template_of interpolate
translate locale entry values =
    interpolate (values_of entry values) (template_of locale (or_empty (message_of entry)))

-- `toLowerCase` on the code units that `startsWith("zh")` looks at: no other code unit lowers to
-- one of `zh`.
abbrev pub to_lower : ℕ → ℕ
to_lower c = if leb b'A' c && leb c b'Z' then c + 32 else c

abbrev pub prefers_chinese : Option Text → Bool
prefers_chinese none = false
prefers_chinese (some language) = starts_with (map to_lower language) (codes "zh")

abbrev pub is_supported : String → Bool
is_supported locale = str_eq locale "zh-CN" || str_eq locale "en"

abbrev pub browser_locale : Option Text → String
browser_locale language = if prefers_chinese language then "zh-CN" else "en"

unfoldable pub choose_locale : Option String → Option Text → String
choose_locale none language = browser_locale language
choose_locale (some saved) language = if is_supported saved then saved else browser_locale language

-- `formatTime`; the date formatting of the platform is the parameter. A missing time and 0 are
-- falsy.
unfoldable pub format_time : (String → ℕ → Text) → String → Option ℕ → Text
unfolding translate
format_time intl locale none = translate locale (text (codes "不过期")) []
format_time intl locale (some t) =
    if t == 0 then translate locale (text (codes "不过期")) [] else intl locale t
