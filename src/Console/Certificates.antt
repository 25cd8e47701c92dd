-- ===== src/Console/Certificates.antt =====
-- web/src/main.jsx, `certificateState` and `Certificates`: how near a certificate is to its end, and
-- the form that issues one for the domains typed in.
pub mod Laws
pub mod Screen
pub mod Messages
pub mod Horizon
pub mod Page
mod Tests
use senix.Prelude.{
  ℕ, ◌+◌, ◌*◌, Bool, true, false, not, String, str_eq, Text, codes, List, [], ◌∷◌, ◌++◌, Option,
  none, some, leb, ◌==◌, ◌&&◌, ◌||◌, if◌then◌else◌,
}
use senix.Locale.{Entry, text, notice}
use senix.Console.Api.{
  Answer, answered, failed, ApiError, error_message, code_is, Tone, good, warn, bad, muted,
}

pub record Certificate : Type 0 where
  pub certificate_id : String
  pub domains : List Text
  pub active : Bool
  pub not_before_ms : ℕ
  pub not_after_ms : ℕ

abbrev pub thirty_days : ℕ
thirty_days = 30 * 24 * 60 * 60 * 1000

-- The label and the tone; the remaining time is `not_after_ms - now`.
unfoldable pub certificate_state : (now : ℕ) → Certificate → Text × Tone
certificate_state now item =
    if not item.active
    then (codes "历史版本", muted)
    else if leb item.not_after_ms now
    then (codes "已过期", bad)
    else if leb item.not_after_ms (now + thirty_days)
    then (codes "即将到期", warn)
    else (codes "使用中", good)

-- \s, as code units.
abbrev pub is_space : ℕ → Bool
is_space c =
    (leb 9 c && leb c 13)
    || c == 32
    || c == 160
    || c == 5760
    || (leb 8192 c && leb c 8202)
    || c == 8232
    || c == 8233
    || c == 8239
    || c == 8287
    || c == 12288
    || c == 65279

-- [\s,]
abbrev pub is_separator : ℕ → Bool
is_separator c = is_space c || c == b','

abbrev pub emit : Text → List Text → List Text
emit [] domains = domains
emit (c ∷ word) domains = (c ∷ word) ∷ domains

-- `split(/[\s,]+/)`, `trim` and `filter(Boolean)`: the pieces between separators that are not
-- empty. A piece has no space to trim. The first argument is the piece read so far.
unfoldable pub split_domains : Text → Text → List Text
split_domains word [] = emit word []
split_domains word (c ∷ s) =
    let next = emit word (split_domains [] s) in
    let longer = split_domains (word ++ c ∷ []) s in if is_separator c then next else longer

-- The state of the component. `busy` is the text of the operation in progress, or empty.
pub record Panel : Type 0 where
  pub is_open : Bool
  pub busy : String
  pub error : Entry

pub data Effect : Type 0 where
  issue : List Text → Effect
  notify : Entry → Effect
  reload : Effect

-- `issueDomains`, up to the answer.
unfoldable pub issue_domains : List Text → String → Panel → Panel × List Effect
issue_domains [] operation p = (record p { error = text (codes "至少填写一个域名。") }, [])
issue_domains (domain ∷ more) operation p =
    (record p { busy = operation; error = text [] }, issue (domain ∷ more) ∷ [])

-- `issue`, with the value of the field.
unfoldable pub issue_form : Text → Panel → Panel × List Effect
unfolding split_domains issue_domains
issue_form domains p = issue_domains (split_domains [] domains) "issue" p

unfoldable pub renew : Certificate → Panel → Panel × List Effect
unfolding issue_domains
renew item p = issue_domains item.domains item.certificate_id p

module _ (show : ℕ → Text) where
  -- What `issueDomains` does with the answer; a good one gives the generation.
  unfoldable pub on_answer : String → Answer ℕ → Panel → Panel × List Effect
  on_answer operation (answered generation) p = (
    record p { is_open = if str_eq operation "issue" then false else p.is_open },
    notify (
          notice (some (codes "证书已签发并切换到 TLS generation {generation}"))
            (some ((codes "generation", show generation) ∷ [])))
        ∷ reload
        ∷ [],
  )
  on_answer operation (failed e) p = (
    record p {
      busy = "";
      error =
          if code_is "ACME_DISABLED" e
          then text (codes "服务端尚未配置 ACME 目录、联系人和条款确认。")
          else error_message show e;
    },
    [],
  )

-- The lists are loaded again.
abbrev pub on_reloaded : Panel → Panel
on_reloaded p = record p { busy = "" }
