-- ===== src/Console/Credentials/Tests.antt =====
-- A key whose id needs escapes.
use senix.Prelude.{true, false, Text, codes, [], ◌∷◌, ◌++◌, some, none, ◌≡◌, arith}
use senix.Console.Effects.{call, confirm}
use senix.Console.Credentials.{Credential, revoke, question, step}
use senix.Console.Credentials.Laws.{IsSegmentOf, revoke-IsSegmentOf}

abbrev key : Credential
key = record {
  credential_id = codes "k/1";
  label = codes "deploy";
  kind = "KEY";
  actions = codes "instance.read" ∷ [];
  all_resources = false;
  instance_ids = codes "a" ∷ [];
  expires_at_ms = some 9;
  revoked_at_ms = none;
}

revoke-IsSegmentOf_example :
    ((step (codes "malformed") false (revoke key false)).1 ≡ confirm (question key) ∷ [])
    × ((segment : Text) × ((step (codes "malformed") false (revoke key true)).1
          ≡ confirm (question key)
            ∷ call (codes "/api/v1/credentials/" ++ segment) "DELETE" none
            ∷ [])
        × IsSegmentOf (codes "k/1") segment)
revoke-IsSegmentOf_example =
    revoke-IsSegmentOf (codes "malformed") false key (omega arith, (omega arith, (omega arith, tt)))
