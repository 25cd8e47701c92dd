-- ===== src/Console/Maintenance/Paths.antt =====
-- web/src/main.jsx, `MaintenancePanel`: the calls of `api` for its requests. The text of a number in
-- JSON, and the message of the error that `encodeURIComponent` throws, are parameters.
pub mod Laws
use senix.Prelude.{ℕ, Bool, String, Text, codes, List, [], ◌∷◌, ◌++◌, Option, none, some}
use senix.Console.Api.{Value, number, boolean, object, field, end, Options}
use senix.Console.Number.{Number}
use senix.Console.Uri.{encode_uri_component}
use senix.Console.Maintenance.{Change, drain_within, set_weight, rejoin_as, disable_now}

-- The last segment of the path.
abbrev pub segment_of : Change → Text
segment_of (drain_within timeout_ms force) = codes "drain"
segment_of (set_weight w) = codes "weight"
segment_of (rejoin_as generation weight force) = codes "rejoin"
segment_of disable_now = codes "disable"

abbrev pub method_of : Change → String
method_of (set_weight w) = "PATCH"
method_of _ = "POST"

abbrev pub instance_path : Text → Option Text → Option Text
instance_path last none = none
instance_path last (some segment) = some (codes "/api/v1/instances/" ++ (segment ++ b'/' ∷ last))

-- `none` where the encoding throws.
unfoldable pub path_of : String → Change → Option Text
path_of id change = instance_path (segment_of change) (encode_uri_component (codes id))

abbrev pub operation_path : Option Text → Option Text
operation_path none = none
operation_path (some segment) = some (codes "/api/v1/operations/" ++ segment)

-- The path of a poll.
unfoldable pub poll_path : String → Option Text
poll_path operation_id = operation_path (encode_uri_component (codes operation_id))

module _ (show : Number → Text) where
  abbrev pub body_of : Change → Option Value
  body_of (drain_within timeout_ms force) =
      some
        (object (field "timeout_ms" (number (show timeout_ms)) (field "force" (boolean force) end)))
  body_of (set_weight w) = some (object (field "weight" (number (show w)) end))
  body_of (rejoin_as generation weight force) = some (
      object (
        field "generation" (number (show generation))
          (field "weight" (number (show weight)) (field "force" (boolean force) end))))
  body_of disable_now = none

  -- The second argument of `api`, with the key of the request.
  abbrev pub options_of : String → Change → Options
  options_of idempotency_key change = record {
    method = some (method_of change);
    headers = ("Idempotency-Key", idempotency_key) ∷ [];
    body = body_of change;
  }
