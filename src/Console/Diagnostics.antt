-- ===== src/Console/Diagnostics.antt =====
-- web/src/main.jsx, `Diagnostics`: a request is simulated by the server, and its report is shown.
pub mod Messages
pub mod Laws
mod Tests
use senix.Prelude.{
  ℕ, zero, suc, ◌+◌, Bool, true, false, not, String, str_eq, Text, codes, starts_with, List, [],
  ◌∷◌, ◌++◌, Option, none, some, leb, ltb, ◌==◌, ◌&&◌, ◌||◌, map, get_own, if◌then◌else◌,
}
use senix.Decimal.{decimal}
use senix.Locale.{Entry, text, is_nonempty}
use senix.Console.Api.{
  Value, string, object, field, end, Answer, answered, failed, error_message, state_tone,
}
use senix.Console.Certificates.{is_space}
use senix.Console.Effects.{Effect, call, copy, notify}
use senix.Console.Screen.{
  I18n, Item, plain, toned, message, hint, entry, button, input, when, either, each, concat,
}

pub record Step : Type 0 where
  pub stage : String
  pub status : String
  pub detail : Text

pub record Report : Type 0 where
  pub outcome : String
  pub host : Text
  pub path : Text
  pub steps : List Step
  pub raw : Text  -- JSON.stringify(report, null, 2)

pub record Route : Type 0 where
  pub host : Text
  pub path_prefix : Text

pub record Diagnosis : Type 0 where
  pub host : Text
  pub path : Text
  pub report : Option Report
  pub busy : Bool
  pub error : Entry

abbrev pub blank_diagnosis : Diagnosis
blank_diagnosis = record {
  host = [];
  path = codes "/";
  report = none;
  busy = false;
  error = text [];
}

pub data Event : Type 0 where
  edit_host edit_path : Text → Event
  diagnose copy_report : Event
  respond : Answer Report → Event
  copied : (ok : Bool) → Event
  -- a rendering with the first route of a new version of the configuration, or with another host
  current : Option Route → Event

-- `trim`
unfoldable pub trim_start : Text → Text
trim_start [] = []
trim_start (c ∷ s) = let rest = trim_start s in if is_space c then rest else c ∷ s

abbrev pub keep_end : ℕ → Text → Text
keep_end c [] = if is_space c then [] else c ∷ []
keep_end c (d ∷ rest) = c ∷ d ∷ rest

unfoldable pub trim_end : Text → Text
trim_end [] = []
trim_end (c ∷ s) = keep_end c (trim_end s)

unfoldable pub trim : Text → Text
unfolding trim_start trim_end
trim s = trim_end (trim_start s)

-- `path || "/"`
abbrev pub path_or_root : Text → Text
path_or_root [] = codes "/"
path_or_root (c ∷ path) = c ∷ path

-- The effect: an empty host is filled in from the first route.
abbrev pub fill : Option Route → Diagnosis → Diagnosis
fill none d = d
fill (some route) d =
    if is_nonempty d.host
    then d
    else record d { host = route.host; path = path_or_root route.path_prefix }

abbrev pub diagnosis_request : Text → Text → Effect
diagnosis_request host path =
    call (codes "/api/v1/diagnostics/requests") "POST"
      (some (object (field "host" (string host) (field "path" (string path) end))))

abbrev pub is_asked : Diagnosis → Bool
is_asked d = is_nonempty (trim d.host) && starts_with (trim d.path) (codes "/")

abbrev pub start : Diagnosis → Diagnosis × List Effect
start d =
    if is_asked d
    then (
      record d { busy = true; error = text [] },
      diagnosis_request (trim d.host) (trim d.path) ∷ [],
    )
    else (record d { error = text (codes "Host 不能为空，路径必须以 / 开头。") }, [])

abbrev pub on_answer : Answer Report → Diagnosis → Diagnosis
on_answer (answered report) d = record d { report = some report; busy = false }
on_answer (failed e) d = record d { error = error_message decimal e; busy = false }

abbrev pub copy_of : Option Report → List Effect
copy_of none = []
copy_of (some report) = copy report.raw ∷ []

unfoldable pub step : Diagnosis → Event → Diagnosis × List Effect
unfolding trim
step d (edit_host s) = (record d { host = s }, [])
step d (edit_path s) = (record d { path = s }, [])
step d diagnose = if d.busy then (d, []) else start d
step d (respond answer) = (if d.busy then on_answer answer d else d, [])
step d copy_report = (d, copy_of d.report)
step d (copied ok) =
    (d, notify (text (codes (if ok then "原始诊断 JSON 已复制" else "复制失败，请展开原始证据后手动复制"))) ∷ [])
step d (current route) = (fill route d, [])

abbrev pub outcome_copy : String → List (Item Event)
outcome_copy outcome =
    when (str_eq outcome "READY") (message "当前运行快照中有后端可以接收新请求。" [] ∷ [])
    ++ (when (str_eq outcome "ROUTE_NOT_FOUND") (message "当前配置没有匹配这个 Host 与路径。" [] ∷ [])
        ++ when (str_eq outcome "NO_AVAILABLE_BACKEND")
            (message "路由已命中，但所有后端都被流量状态、健康状态或权重挡住。" [] ∷ []))

-- `stageLabels[stage] || stage`
abbrev pub stage_label : String → List (Item Event)
stage_label stage = either (str_eq stage "route_match") (message "路由匹配" [] ∷ []) (
    either (str_eq stage "backend_state") (message "后端状态" [] ∷ []) (
      either (str_eq stage "backend_selection") (message "后端选择" [] ∷ [])
        (plain (codes stage) ∷ [])))

-- `String(index + 1).padStart(2, "0")`
abbrev pub two_digits : ℕ → Text
two_digits n = if ltb n 10 then b'0' ∷ decimal n else decimal n

-- `status.toUpperCase()` is a parameter of the tone.
abbrev pub step_lines : (String → String) → ℕ → Step → List (Item Event)
step_lines upper index s =
    toned (state_tone (upper s.status)) (two_digits (index + 1))
    ∷ (stage_label s.stage ++ plain (codes s.status) ∷ plain s.detail ∷ [])

abbrev pub steps_from : (String → String) → ℕ → List Step → List (Item Event)
steps_from upper index [] = []
steps_from upper index (s ∷ steps) = step_lines upper index s ++ steps_from upper (index + 1) steps

abbrev pub report_parts : (String → String) → Report → List (List (Item Event))
report_parts upper r =
    (message "诊断结果" [] ∷ toned (state_tone r.outcome) (codes r.outcome) ∷ [])
    ∷ outcome_copy r.outcome
    ∷ (plain (r.host ++ r.path) ∷ [])
    ∷ steps_from upper 0 r.steps
    ∷ (message "查看原始证据 JSON" [] ∷ plain r.raw ∷ button true "复制原始 JSON" [] copy_report ∷ [])
    ∷ []

abbrev pub no_report : List (Item Event)
no_report = plain (codes "01") ∷ message "输入 Host 和路径后，证据链会按实际决策顺序出现在这里。" [] ∷ []

abbrev pub report_screen : (String → String) → Option Report → List (Item Event)
report_screen upper none = no_report
report_screen upper (some r) = concat (report_parts upper r)

abbrev pub diagnosis_form : Diagnosis → List (Item Event)
diagnosis_form d =
    plain (codes "Evidence, not guesses")
    ∷ message "模拟一个请求" []
    ∷ message "使用当前正在接流的 Snapshot 检查路由命中和后端资格，不会向业务后端发送请求。" []
    ∷ plain (codes "Host")
    ∷ input d.host edit_host
    ∷ message "路径" []
    ∷ input d.path edit_path
    ∷ button (not d.busy) (if d.busy then "正在检查…" else "请求诊断") [] diagnose
    ∷ entry d.error
    ∷ []

unfoldable pub diagnosis_screen : (String → String) → Diagnosis → List (Item Event)
diagnosis_screen upper d = diagnosis_form d ++ report_screen upper d.report
