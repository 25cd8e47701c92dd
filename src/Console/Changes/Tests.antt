-- ===== src/Console/Changes/Tests.antt =====
-- An approved change, before and after its approval ends.
use senix.Console.Api.{null}
use senix.Prelude.{codes, none, [], ◌∷◌, some, ◌≡◌, ◌⊎◌, refl}
use senix.Console.Changes.{Change, Action, approve, apply, offered}
use senix.Console.Changes
use senix.Console.Changes.Laws.{IsAllowed, offered-IsAllowed}
use senix.Prelude.{Text, List, Option, ◌+◌, ◌≤◌}
use senix.Console.Api.{Value, string, answered}
use senix.Console.Changes.{
  Event, edit, plan, act, planned, done, reloaded, is_blank, run, blank_queue,
}
use senix.Console.Changes.Requests.{is_resting, calls, answers, run-blank_queue-one_at_a_time}

abbrev approved_change : Change
approved_change = record {
  change_id = "c";
  kind = "CHANGE";
  status = "APPROVED";
  rollback_target_version = 0;
  candidate = null;
  candidate_digest = codes "0123456789abcdef0";
  created_by = codes "ai";
  created_at_ms = some 5;
  added_routes = codes "r" ∷ [];
  changed_routes = [];
  removed_routes = [];
  issues = [];
  approval_expires_at_ms = some 100;
  base_version = 3;
  applied_version = none;
}

offered-IsAllowed_example :
    (offered 99 approved_change ≡ [])
    ⊎ ((action : Action) × (offered 99 approved_change ≡ action ∷ [])
        × IsAllowed 99 approved_change action)
offered-IsAllowed_example = offered-IsAllowed 99 approved_change

may_apply : offered 99 approved_change ≡ apply ∷ []
unfolding offered
may_apply = refl

must_renew : offered 100 approved_change ≡ approve ∷ []
unfolding offered
must_renew = refl

abbrev parse : Text → Option Value
parse s = some (string s)

abbrev pretty : Value → Text
pretty v = codes "{}"

-- A plan is made, and while it is on its way a change is clicked; later the change is applied.
abbrev clicks : List Event
clicks =
    edit (codes "{}")
    ∷ plan
    ∷ act approved_change apply
    ∷ planned (answered 0)
    ∷ reloaded
    ∷ act approved_change apply
    ∷ act approved_change apply
    ∷ done (answered tt)
    ∷ reloaded
    ∷ []

run-blank_queue-one_at_a_time_example :
    let (q, effects) = run parse pretty blank_queue clicks in
    (is_blank q.busy ≡ is_resting q.phase) × (calls effects ≤ answers clicks + 1)
run-blank_queue-one_at_a_time_example = run-blank_queue-one_at_a_time parse pretty clicks

two_requests : calls (run parse pretty blank_queue clicks).1 ≡ 2
unfolding run Changes.step
two_requests = refl
