-- ===== src/Locale/Tests.antt =====
-- Translation, run on messages of the console.
use senix.Prelude.{Text, codes, List, [], ◌∷◌, ◌≡◌, refl, arith, none}
use senix.Locale.{
  Piece, literal, field, scan, Values, render, interpolate, placeholder, replacement, text,
  template_of, translate,
}
use senix.Locale.Templates.{fields, print, interpolate-print}
use senix.Locale.Coverage.{value_or, translate_covered}

abbrev status : Values
status = (codes "status", codes "{code}") ∷ []

abbrev failed_request : Text
failed_request = codes "请求失败（{status}）"

translated : translate "en" (text failed_request) status ≡ codes "Request failed ({code})"
unfolding translate template_of interpolate scan render
translated = refl

abbrev pieces : List Piece
pieces = literal b'!' ∷ field (codes "status") ∷ []

interpolate-print_example : interpolate status (print pieces) ≡ render (replacement status) pieces
interpolate-print_example = interpolate-print status pieces (omega arith, ((refl, refl), tt))

translate_covered_example :
    translate "en" (text failed_request) status
    ≡ render (value_or placeholder status) (scan none (template_of "en" failed_request))
unfolding scan fields
translate_covered_example =
    translate_covered "en" failed_request status placeholder ((codes "{code}", refl), tt)
