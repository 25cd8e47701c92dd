-- ===== src/Console/Uri/Tests.antt =====
-- An id with a slash, a space and a letter beyond ASCII.
use senix.Prelude.{Text, codes, [], ◌∷◌, some, none, ◌≡◌, refl}
use senix.Console.Uri.{encode_uri_component, encode_from, percents}

abbrev id : Text
id = codes "a/b é"

encoded : encode_uri_component id ≡ some (codes "a%2Fb%20%C3%A9")
unfolding encode_uri_component encode_from percents
encoded = refl

-- A pair of surrogates is one character, and half of one is malformed.
pair : encode_uri_component (55357 ∷ 56832 ∷ []) ≡ some (codes "%F0%9F%98%80")
unfolding encode_uri_component encode_from percents
pair = refl

half : encode_uri_component (56832 ∷ []) ≡ none
unfolding encode_uri_component encode_from percents
half = refl
