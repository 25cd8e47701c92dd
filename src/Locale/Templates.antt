-- ===== src/Locale/Templates.antt =====
-- What interpolation does to a template, whatever the values.
use senix.Prelude.{
  true, Text, get_own, List, [], ◌∷◌, ◌++◌, Option, none, some, ◌≡◌, ◌≢◌, refl, sym, ap, ◌∙◌,
  append-nil, append_assoc, arith, All, all,
}
use senix.Locale.{
  Piece, literal, field, is_word, is_nonempty, literals, scan, Values, placeholder, replacement,
  render, interpolate,
}

pub render-append :
    (f : Text → Text) (ps qs : List Piece) → render f (ps ++ qs) ≡ render f ps ++ render f qs
unfolding render
render-append f [] qs = refl
render-append f (literal c ∷ ps) qs = ap (◌∷◌ c) (render-append f ps qs)
render-append f (field name ∷ ps) qs = simp (render-append f ps qs, append_assoc)

pub render-literals : (f : Text → Text) (s : Text) → render f (literals s) ≡ s
unfolding render
render-literals f [] = refl
render-literals f (c ∷ s) = ap (◌∷◌ c) (render-literals f s)

-- The text that has been read but not yet been given out.
abbrev pending : Option Text → Text → Text
pending none s = s
pending (some name) s = b'{' ∷ (name ++ s)

-- Putting each field back as it was written gives the template.
render-scan : (begun : Option Text) (s : Text) → render placeholder (scan begun s) ≡ pending begun s
unfolding render scan
render-scan none [] = refl
render-scan none (c ∷ s) = ground (arith, render-scan none s, render-scan (some []) s)
render-scan (some name) [] =
    render-literals placeholder (b'{' ∷ name) ∙ ap (◌∷◌ b'{') (sym (append-nil name))
render-scan (some name) (c ∷ s) =
    let longer = render-scan (some (name ++ c ∷ [])) s in
    let rest = render-scan none s in
    let again = render-scan (some []) s in
    let joined = append_assoc name (c ∷ []) s in
    let before = render-append placeholder (literals name) in
    let read = render-literals placeholder name in
    ground (
      arith,
      longer,
      rest,
      again,
      joined,
      before (scan (some []) s),
      before (literal c ∷ scan none s),
      read,
    )

-- The names of the fields of a template, in order.
unfoldable pub fields : List Piece → List Text
fields [] = []
fields (literal c ∷ ps) = fields ps
fields (field name ∷ ps) = name ∷ fields ps

abbrev pub IsMissing : Values → Text → Type 0
IsMissing values name = get_own name values ≡ none

render-missing :
    (values : Values) (ps : List Piece)
    → All (IsMissing values) (fields ps)
    → render (replacement values) ps ≡ render placeholder ps
unfolding render fields
render-missing values [] h = refl
render-missing values (literal c ∷ ps) h = ap (◌∷◌ c) (render-missing values ps h)
render-missing values (field name ∷ ps) (absent, h) =
    rw (replacement, absent) (ap (λ (t : Text). placeholder name ++ t) (render-missing values ps h))

-- A template none of whose fields has a value is left as it is.
pub interpolate_missing :
    (values : Values) (template : Text)
    → All (IsMissing values) (fields (scan none template))
    → interpolate values template ≡ template
unfolding interpolate
interpolate_missing values template h =
    render-missing values (scan none template) h ∙ render-scan none template

-- What may stand in a template: a code unit other than the opening brace, and a field whose name is
-- a word.
abbrev pub IsPlain : Piece → Type 0
IsPlain (literal c) = c ≢ b'{'
IsPlain (field name) = (all is_word name ≡ true) × (is_nonempty name ≡ true)

-- A template as it is written in the source.
abbrev pub print : List Piece → Text
print = render placeholder

is_nonempty-append : (s t : Text) → is_nonempty t ≡ true → is_nonempty (s ++ t) ≡ true
is_nonempty-append [] t h = h
is_nonempty-append (c ∷ s) t h = refl

scan-name :
    (read name rest : Text)
    → all is_word name ≡ true
    → is_nonempty (read ++ name) ≡ true
    → scan (some read) (name ++ b'}' ∷ rest) ≡ field (read ++ name) ∷ scan none rest
unfolding scan
scan-name read [] rest h k = let same = append-nil read in ground (arith, same, rw same at k)
scan-name read (c ∷ name) rest h k =
    let same = append_assoc read (c ∷ []) name in
    ground (arith, same, scan-name (read ++ c ∷ []) name rest, rw (← same) at k)

-- Reading a printed template gives its pieces.
pub scan-print : (ps : List Piece) → All IsPlain ps → scan none (print ps) ≡ ps
unfolding scan render
scan-print [] h = refl
scan-print (literal c ∷ ps) (plain, h) = ground (arith, scan-print ps h)
scan-print (field name ∷ ps) ((word, nonempty), h) =
    rw (append_assoc name (b'}' ∷ []) (print ps))
      (scan-name [] name (print ps) word nonempty ∙ ap (◌∷◌ (field name)) (scan-print ps h))

-- Interpolation puts each value in place of its field, and never looks for fields inside a value.
pub interpolate-print :
    (values : Values) (ps : List Piece)
    → All IsPlain ps
    → interpolate values (print ps) ≡ render (replacement values) ps
unfolding interpolate
interpolate-print values ps h = ap (render (replacement values)) (scan-print ps h)
