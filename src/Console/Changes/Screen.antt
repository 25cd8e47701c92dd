-- ===== src/Console/Changes/Screen.antt =====
-- web/src/main.jsx, what `ChangeCard` and `Changes` show.
use senix.Prelude.{
  ℕ, ◌+◌, Bool, true, false, not, String, str_eq, Text, codes, List, [], ◌∷◌, ◌++◌, Option, none,
  some, take, leb, ltb, length, ◌==◌, ◌&&◌, if◌then◌else◌,
}
use senix.Decimal.{decimal}
use senix.Console.Api.{Value}
use senix.Console.Screen.{
  I18n, Item, plain, marked, message, hint, entry, input, when, either, concat, each,
}
use senix.Console.Screen
use senix.Console.Changes.{
  Change, approve, apply, rollback, approval_expired, Queue, Event, edit, plan, act, is_blank,
  Issue,
}

-- stages.indexOf(status), counted from 1; 0 is no stage.
abbrev pub stage_of : String → ℕ
stage_of status =
    if str_eq status "PLANNED"
    then 1
    else if str_eq status "APPROVED"
    then 2
    else if str_eq status "APPLIED"
    then 3
    else 0

abbrev pub rail : String → List (Item Event)
rail status =
    hint "变更状态 {status}" ((codes "status", codes status) ∷ [])
    ∷ marked (leb 1 (stage_of status)) (codes "PLANNED")
    ∷ marked (leb 2 (stage_of status)) (codes "APPROVED")
    ∷ marked (leb 3 (stage_of status)) (codes "APPLIED")
    ∷ []

abbrev pub diff_count : Change → ℕ
diff_count c = length c.added_routes + (length c.changed_routes + length c.removed_routes)

-- A version that is missing or 0 is falsy.
abbrev pub applied : Option ℕ → List (Item Event)
applied none = message "待发布" [] ∷ []
applied (some v) = either (v == 0) (message "待发布" [] ∷ []) (plain (codes "v" ++ decimal v) ∷ [])

abbrev pub title : Change → List (Item Event)
title c =
    either (str_eq c.kind "ROLLBACK")
      (message "回滚至 Snapshot {version}" ((codes "version", decimal c.rollback_target_version) ∷ [])
        ∷ [])
      (plain (codes "Change " ++ take 8 (codes c.change_id)) ∷ [])

abbrev pub digest : Change → List (Item Event)
digest c =
    plain (take 16 c.candidate_digest ++ codes "…")
    ∷ plain (codes "v" ++ (decimal c.base_version ++ codes " → "))
    ∷ []

abbrev pub meta : I18n → Change → List (Item Event)
meta i18n c =
    message "{actor} 创建于 {time} · {count} 个路由差异" (
      (codes "actor", c.created_by)
      ∷ (codes "time", i18n.format_time c.created_at_ms)
      ∷ (codes "count", decimal (diff_count c))
      ∷ [])
    ∷ []

abbrev pub expiry : I18n → Bool → Change → List (Item Event)
expiry i18n expired c =
    either expired (message "批准已过期，需由 Owner 重新批准" [] ∷ [])
      (message "批准有效至 {time}" ((codes "time", i18n.format_time c.approval_expires_at_ms) ∷ []) ∷ [])

abbrev pub pills : Change → List (Item Event)
pills c =
    each (λ id. plain (codes "+ " ++ id) ∷ []) c.added_routes
    ++ (each (λ id. plain (codes "~ " ++ id) ∷ []) c.changed_routes
        ++ each (λ id. plain (codes "− " ++ id) ∷ []) c.removed_routes)

abbrev pub issue_lines : Issue → List (Item Event)
issue_lines issue = plain (codes issue.code) ∷ plain issue.description ∷ []

abbrev pub issue_list : List Issue → List (Item Event)
issue_list = each issue_lines

abbrev pub approve_button : Bool → Change → List (Item Event)
approve_button busy c = Screen.button (not busy) "批准这份内容" [] (act c approve) ∷ []

abbrev pub blocked_label : List (Item Event)
blocked_label = message "修正校验问题后重新规划" [] ∷ []

abbrev pub renew_button : Bool → Change → List (Item Event)
renew_button busy c = Screen.button (not busy) "重新批准这份内容" [] (act c approve) ∷ []

abbrev pub apply_button : Bool → Change → List (Item Event)
apply_button busy c = Screen.button (not busy) "应用已批准计划" [] (act c apply) ∷ []

abbrev pub rollback_button : Bool → Change → List (Item Event)
rollback_button busy c =
    Screen.button (not busy) "以 v{version} 创建回滚计划" ((codes "version", decimal c.base_version) ∷ [])
      (act c rollback)
    ∷ []

-- The parts of the card up to its buttons, and the buttons.
abbrev pub card_parts : I18n → (Value → Text) → ℕ → Change → List (List (Item Event))
card_parts i18n pretty now c =
    rail c.status
    ∷ title c
    ∷ digest c
    ∷ applied c.applied_version
    ∷ meta i18n c
    ∷ when (str_eq c.status "APPROVED") (expiry i18n (approval_expired now c) c)
    ∷ pills c
    ∷ when (diff_count c == 0) (message "配置内容未变化" [] ∷ [])
    ∷ when (ltb 0 (length c.issues)) (issue_list c.issues)
    ∷ (message "查看完整候选配置" [] ∷ plain (pretty c.candidate) ∷ [])
    ∷ []

abbrev pub button_parts : Bool → ℕ → Change → List (List (Item Event))
button_parts busy now c =
    when (str_eq c.status "PLANNED" && length c.issues == 0) (approve_button busy c)
    ∷ when (str_eq c.status "PLANNED" && ltb 0 (length c.issues)) blocked_label
    ∷ when (str_eq c.status "APPROVED" && approval_expired now c) (renew_button busy c)
    ∷ when (str_eq c.status "APPROVED" && not (approval_expired now c)) (apply_button busy c)
    ∷ when (str_eq c.status "APPLIED" && ltb 0 c.base_version) (rollback_button busy c)
    ∷ []

-- `ChangeCard`
unfoldable pub card : I18n → (Value → Text) → Bool → ℕ → Change → List (Item Event)
card i18n pretty busy now c =
    concat (card_parts i18n pretty now c) ++ concat (button_parts busy now c)

abbrev pub version_text : Option ℕ → Text
version_text none = codes "—"
version_text (some v) = decimal v

-- `busy === "plan"`
abbrev pub is_planning : Queue → Bool
is_planning q = Screen.text_is q.busy "plan"

abbrev pub queue_head : Queue → List (Item Event)
queue_head q =
    message "当前 Snapshot" []
    ∷ plain (codes "v" ++ version_text q.version)
    ∷ message "候选配置必须先生成不可修改的计划。批准只绑定计划中显示的摘要和完整内容。" []
    ∷ message "规划配置" []
    ∷ message "编辑完整配置只会生成计划，不会直接影响正在处理的流量。" []
    ∷ Screen.button (is_blank q.busy) (if is_planning q then "正在校验…" else "生成变更计划") [] plan
    ∷ hint "完整候选配置 JSON" []
    ∷ input q.candidate edit
    ∷ entry q.error
    ∷ message "批准队列" []
    ∷ message "AI 和脚本可以规划；只有 Owner 可以批准；带 change.apply 的 Key 只能应用已经批准的精确计划。" []
    ∷ []

abbrev pub is_empty {ℓ} : {A : Type ℓ} → List A → Bool
is_empty [] = true
is_empty (_ ∷ _) = false

-- `Changes`
unfoldable pub queue_screen : I18n → (Value → Text) → ℕ → List Change → Queue → List (Item Event)
unfolding card
queue_screen i18n pretty now changes q =
    queue_head q
    ++ either (is_empty changes) (message "还没有配置变更计划。" [] ∷ [])
        (each (card i18n pretty (not (is_blank q.busy)) now) changes)
