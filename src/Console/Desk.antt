-- ===== src/Console/Desk.antt =====
-- web/src/main.jsx, `loadAll` of `ControlDesk` and `App`: the six lists of the console, which are
-- loaded together, and the session of the owner.
pub mod Laws
pub mod Shell
pub mod Toast
pub mod Session
pub mod Whole
mod Tests
use senix.Prelude.{
  ℕ, Bool, true, false, not, String, str_eq, Text, codes, List, [], ◌∷◌, ◌++◌, Option, none, some,
  ◌==◌, ◌&&◌, if◌then◌else◌,
}
use senix.Locale.{Entry}
use senix.Console.Api.{
  Value, null, array, nil, Answer, answered, failed, ApiError, error_message, code_is, one_of,
}

-- What `loadAll` asks for.
pub data Part : Type 0 where
  instances config changes credentials certificates audit : Part

-- The lists, and whether the certificate store is enabled.
pub record Lists : Type 0 where
  pub instances : Value
  pub current : Value
  pub changes : Value
  pub credentials : Value
  pub certificates : Value
  pub certificate_store_enabled : Bool
  pub audit : Value

-- What the six calls have given so far: `Promise.all` waits for all of them, or for the first that
-- fails. A certificate answer carries whether the store is enabled.
pub record Pending : Type 0 where
  pub instances : Option Value
  pub current : Option Value
  pub changes : Option Value
  pub credentials : Option Value
  pub certificates : Option (Bool × Value)
  pub audit : Option Value

abbrev pub nothing_yet : Pending
nothing_yet = record {
  instances = none;
  current = none;
  changes = none;
  credentials = none;
  certificates = none;
  audit = none;
}

-- The `then` and the `catch` of the certificate call.
abbrev pub certificate_answer : Answer Value → Answer (Bool × Value)
certificate_answer (answered items) = answered (true, items)
certificate_answer (failed e) =
    if code_is "CERTIFICATE_STORE_DISABLED" e then answered (false, array nil) else failed e

abbrev pub put_certificates : Answer (Bool × Value) → Pending → Answer Pending
put_certificates (failed e) p = failed e
put_certificates (answered found) p = answered (record p { certificates = some found })

abbrev pub put : Part → Answer Value → Pending → Answer Pending
put certificates answer p = put_certificates (certificate_answer answer) p
put _ (failed e) p = failed e
put instances (answered v) p = answered (record p { instances = some v })
put config (answered v) p = answered (record p { current = some v })
put changes (answered v) p = answered (record p { changes = some v })
put credentials (answered v) p = answered (record p { credentials = some v })
put audit (answered v) p = answered (record p { audit = some v })

-- The answers in the order in which they come; the first bad one ends the waiting.
unfoldable pub gather : Pending → List (Part × Answer Value) → Answer Pending
gather p [] = answered p
gather p ((part, answer) ∷ later) = elim (put part answer p) [
  | answered q ↦ gather q later
  | failed e ↦ failed e
]

abbrev pub all_of :
    Option Value
    → Option Value
    → Option Value
    → Option Value
    → Option (Bool × Value)
    → Option Value
    → Option Lists
all_of (some i) (some c) (some h) (some k) (some (enabled, items)) (some a) = some (record {
  instances = i;
  current = c;
  changes = h;
  credentials = k;
  certificates = items;
  certificate_store_enabled = enabled;
  audit = a;
})
all_of _ _ _ _ _ _ = none

-- The lists, once all answers are there.
abbrev pub complete : Pending → Option Lists
complete p = all_of p.instances p.current p.changes p.credentials p.certificates p.audit

-- Nobody is known yet, nobody is signed in, or the owner is.
pub data Owner : Type 0 where
  unknown signed_out : Owner
  signed_in : Text → Owner

pub record Desk : Type 0 where
  pub owner : Owner
  pub lists : Lists
  pub toast : Option Entry

abbrev pub is_unauthorized : ApiError → Bool
is_unauthorized e = elim e.status [ none ↦ false | some status ↦ status == 401 ]

module _ (show : ℕ → Text) where
  abbrev pub reject : ApiError → Desk → Desk
  reject e d =
      if is_unauthorized e
      then record d { owner = signed_out }
      else record d { toast = some (error_message show e) }

  abbrev pub commit : Option Lists → Desk → Desk
  commit none d = d
  commit (some lists) d = record d { lists = lists }

  abbrev pub finish_load : Answer Pending → Desk → Desk
  finish_load (failed e) d = reject e d
  finish_load (answered p) d = commit (complete p) d

  -- `loadAll`. While answers are missing nothing changes.
  unfoldable pub load_all : List (Part × Answer Value) → Desk → Desk
  unfolding gather
  load_all settled d = finish_load (gather nothing_yet settled) d
