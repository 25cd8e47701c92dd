-- ===== src/Console/Desk/Session.antt =====
-- web/src/main.jsx, `App`, and `logout` and the ends of `loadAll` of `ControlDesk`: who is signed in.
pub mod Laws
use senix.Prelude.{ℕ, Bool, true, false, Text, codes, List, [], ◌∷◌, ◌++◌, Option, none, some}
use senix.Locale.{text}
use senix.Console.Api.{Value, null, array, nil, Answer, answered, failed, ApiError}
use senix.Console.Effects.{Effect, call}
use senix.Console.Desk.{
  Part, Owner, unknown, signed_out, signed_in, Lists, Desk, Pending, nothing_yet, gather,
  is_unauthorized, load_all,
}

pub data Event : Type 0 where
  session : Answer Text → Event  -- the answer to the first request, with the user name
  login : Text → Event  -- `onLogin`
  press_logout : Event
  logged_out : Answer Value → Event
  loaded : List (Part × Answer Value) → Event  -- the answers of a `loadAll` that is over

abbrev pub no_lists : Lists
no_lists = record {
  instances = array nil;
  current = null;
  changes = array nil;
  credentials = array nil;
  certificates = array nil;
  certificate_store_enabled = true;
  audit = array nil;
}

abbrev pub unknown_desk : Desk
unknown_desk = record { owner = unknown; lists = no_lists; toast = none }

abbrev pub first_request : Effect
first_request = call (codes "/api/v1/auth/session") "GET" none

abbrev pub owner_of : Answer Text → Owner
owner_of (answered name) = signed_in name
owner_of (failed e) = signed_out

module _ (show : ℕ → Text) where
  -- A desk that is shown anew starts without lists.
  unfoldable pub step : Desk → Event → Desk × List Effect
  unfolding load_all
  step d (session answer) = (record d { owner = owner_of answer }, [])
  step d (login name) = (record d { owner = signed_in name; lists = no_lists; toast = none }, [])
  step d press_logout = (d, call (codes "/api/v1/auth/session") "DELETE" none ∷ [])
  step d (logged_out answer) = (record d { owner = signed_out }, [])
  step d (loaded settled) = (load_all show settled d, [])

  unfoldable pub run : Desk → List Event → Desk
  unfolding step
  run d [] = d
  run d (e ∷ later) = run (step d e).0 later
