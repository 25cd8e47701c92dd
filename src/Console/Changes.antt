-- ===== src/Console/Changes.antt =====
-- web/src/main.jsx, `ChangeCard` and `Changes`: the queue of planned changes, the form by which a
-- configuration is planned, and the requests by which a change is approved, applied or rolled back.
pub mod Laws
pub mod Screen
pub mod Messages
pub mod Requests
mod Tests
use senix.Prelude.{
  ℕ, ◌+◌, Bool, true, false, not, String, str_eq, Text, codes, List, [], ◌∷◌, ◌++◌, Option, none,
  some, ltb, leb, length, ◌==◌, ◌&&◌, ◌||◌, if◌then◌else◌,
}
use senix.Decimal.{decimal}
use senix.Locale.{Entry, text, notice}
use senix.Console.Api.{Value, Answer, answered, failed, ApiError, error_message}
use senix.Console.Effects.{Effect, call, notify, reload}

pub record Issue : Type 0 where
  pub code : String
  pub description : Text  -- the property `message`

pub record Change : Type 0 where
  pub change_id : String
  pub kind : String
  pub status : String
  pub rollback_target_version : ℕ
  pub candidate : Value
  pub candidate_digest : Text
  pub created_by : Text  -- the label
  pub created_at_ms : Option ℕ
  pub added_routes : List Text
  pub changed_routes : List Text
  pub removed_routes : List Text
  pub issues : List Issue
  pub approval_expires_at_ms : Option ℕ
  pub base_version : ℕ
  pub applied_version : Option ℕ

pub data Action : Type 0 where
  approve apply rollback : Action

-- `!expires || expires <= Date.now()`
abbrev pub is_over : Option ℕ → (now : ℕ) → Bool
is_over none now = true
is_over (some t) now = t == 0 || leb t now

abbrev pub approval_expired : (now : ℕ) → Change → Bool
approval_expired now change =
    str_eq change.status "APPROVED" && is_over change.approval_expires_at_ms now

abbrev pub button : Bool → Action → List Action
button true action = action ∷ []
button false action = []

-- The buttons of the card, from left to right.
unfoldable pub offered : (now : ℕ) → Change → List Action
offered now change =
    button (str_eq change.status "PLANNED" && length change.issues == 0) approve
    ++ (button (str_eq change.status "APPROVED" && approval_expired now change) approve
        ++ (button (str_eq change.status "APPROVED" && not (approval_expired now change)) apply
            ++ button (str_eq change.status "APPLIED" && ltb 0 change.base_version) rollback))

-- The state of `Changes`, and where its handlers stand: before a request, waiting for its answer,
-- or waiting for the lists after a good one.
pub data Phase : Type 0 where
  idle planning reloading : Phase
  acting : Change → Action → Phase

pub record Queue : Type 0 where
  pub candidate : Text
  pub error : Entry
  pub busy : Text
  pub phase : Phase
  pub version : Option ℕ  -- of the configuration that the candidate was taken from

pub data Event : Type 0 where
  edit : Text → Event
  plan : Event
  act : Change → Action → Event
  -- the answer of the server: for a plan, how many issues it has
  planned : Answer ℕ → Event
  done : Answer (Unit {0}) → Event
  reloaded : Event
  -- a rendering with the current configuration and its version
  current : (version : ℕ) (config : Value) → Event

abbrev pub is_blank : Text → Bool
is_blank [] = true
is_blank (_ ∷ _) = false

abbrev pub name_of : Action → Text
name_of approve = codes "approve"
name_of apply = codes "apply"
name_of rollback = codes "rollback"

-- The request of `action`.
abbrev pub request_of : Change → Action → Effect
request_of change rollback =
    call (codes "/api/v1/snapshots/" ++ (decimal change.base_version ++ codes "/rollback-plan"))
      "POST" none
request_of change action =
    call (codes "/api/v1/changes/" ++ (codes change.change_id ++ (codes "/" ++ name_of action)))
      "POST" none

abbrev pub notice_of : Change → Action → Entry
notice_of change rollback =
    notice (some (codes "已生成回滚到 v{version} 的计划，仍需批准"))
      (some ((codes "version", decimal change.base_version) ∷ []))
notice_of change approve = text (codes "计划已批准")
notice_of change apply = text (codes "已发布为新配置快照")

abbrev pub same_version : Option ℕ → ℕ → Bool
same_version none version = false
same_version (some old) version = old == version

abbrev pub plan_notice : ℕ → Entry
plan_notice issues =
    if issues == 0
    then text (codes "变更计划已保存，等待批准")
    else notice (some (codes "计划已保存，发现 {count} 个问题")) (some ((codes "count", decimal issues) ∷ []))

-- JSON.parse, and JSON.stringify(…, null, 2)
module _ (parse : Text → Option Value) (pretty : Value → Text) where
  -- `plan` up to its request.
  abbrev pub send_plan : Option Value → Queue → Queue × List Effect
  send_plan none q = (record q { error = text (codes "JSON 格式不正确，先修正后再规划。") }, [])
  send_plan (some parsed) q = (
    record q { busy = codes "plan"; error = text []; phase = planning },
    call (codes "/api/v1/changes/plan") "POST" (some parsed) ∷ [],
  )

  abbrev pub on_planned : Phase → Answer ℕ → Queue → Queue × List Effect
  on_planned planning (answered issues) q =
      (record q { phase = reloading }, notify (plan_notice issues) ∷ reload ∷ [])
  on_planned planning (failed e) q =
      (record q { error = error_message decimal e; busy = []; phase = idle }, [])
  on_planned _ answer q = (q, [])

  abbrev pub on_done : Phase → Answer (Unit {0}) → Queue → Queue × List Effect
  on_done (acting change action) (answered _) q =
      (record q { phase = reloading }, notify (notice_of change action) ∷ reload ∷ [])
  on_done (acting change action) (failed e) q =
      (record q { busy = []; phase = idle }, notify (error_message decimal e) ∷ [])
  on_done _ answer q = (q, [])

  abbrev pub on_reloaded : Phase → Queue → Queue
  on_reloaded reloading q = record q { busy = []; phase = idle }
  on_reloaded _ q = q

  -- A button that is disabled by `busy` does nothing.
  unfoldable pub step : Queue → Event → Queue × List Effect
  step q (edit s) = (record q { candidate = s }, [])
  step q plan = if is_blank q.busy then send_plan (parse q.candidate) q else (q, [])
  step q (act change action) =
      if is_blank q.busy
      then (
        record q {
          busy = codes change.change_id ++ (codes "-" ++ name_of action);
          phase = acting change action;
        },
        request_of change action ∷ [],
      )
      else (q, [])
  step q (planned answer) = on_planned q.phase answer q
  step q (done answer) = on_done q.phase answer q
  step q reloaded = (on_reloaded q.phase q, [])
  step q (current version config) =
      if same_version q.version version
      then (q, [])
      else (record q { candidate = pretty config; version = some version }, [])

  unfoldable pub run : Queue → List Event → Queue × List Effect
  unfolding step
  run q [] = (q, [])
  run q (e ∷ later) =
      let (q', effects) = step q e in let (q'', more) = run q' later in (q'', effects ++ more)

abbrev pub blank_queue : Queue
blank_queue = record { candidate = []; error = text []; busy = []; phase = idle; version = none }
