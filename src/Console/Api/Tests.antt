-- ===== src/Console/Api/Tests.antt =====
-- Requests and replies of the console.
use senix.Prelude.{
  ℕ, true, false, Text, codes, text_eq, [], ◌∷◌, Option, none, some, ◌≡◌, ◌↔◌, refl, if◌then◌else◌,
}
use senix.Console.Api.{Value, null, string, Items, Options, response, answered, failed, answer_of}
use senix.Console.Api.Laws.{body_value, answer_of-eq-answered}

-- A parser of one JSON text.
abbrev parse_word : Text → Option Value
parse_word t = if text_eq t (codes "\"up\"") then some (string (codes "up")) else none

abbrev complaint : Text → Text
complaint t = codes "Unexpected token"

abbrev no_items : Items → Text
no_items items = []

abbrev drain_options : Options
drain_options = record {
  method = some "POST";
  headers = ("Idempotency-Key", "k") ∷ [];
  body = some null;
}

answer_of-eq-answered_example :
    answer_of parse_word complaint no_items (response true 200 (codes "\"up\""))
      ≡ answered (string (codes "up"))
    ↔ ((status : ℕ) × (body : Text) × (response true 200 (codes "\"up\"")
          ≡ response true status body)
        × (body_value parse_word complaint no_items body ≡ some (string (codes "up"))))
answer_of-eq-answered_example =
    answer_of-eq-answered parse_word complaint no_items (response true 200 (codes "\"up\""))
      (string (codes "up"))

refused_reply :
    answer_of parse_word complaint no_items (response false 503 (codes "\"up\""))
    ≡ failed (record { message = []; code = none; evidence = none; status = some 503 })
unfolding answer_of
refused_reply = refl
