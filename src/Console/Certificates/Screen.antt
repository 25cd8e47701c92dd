-- ===== src/Console/Certificates/Screen.antt =====
-- web/src/main.jsx, what `CertificateRow` and `Certificates` show.
use senix.Prelude.{
  ℕ, ◌+◌, ◌-◌, ◌*◌, ◌/◌, Bool, true, false, not, String, str_eq, Text, codes, List, [], ◌∷◌, some,
  min, max, ◌&&◌, if◌then◌else◌,
}
use senix.Decimal.{decimal}
use senix.Locale.{Entry, text}
use senix.Console.Screen.{
  I18n, Item, plain, toned, message, hint, entry, button, input, when, either, each, concat,
}
use senix.Console.Certificates.{Certificate, certificate_state, Panel}

pub data Event : Type 0 where
  open_form close_form : Event
  type_in : Text → Event
  issue : (domains : Text) → Event
  renew : Certificate → Event

-- Math.round(elapsed), where elapsed is the share of the lifetime that is over, in percent, from 0
-- to 100. The lifetime is 1 at least.
abbrev pub lifetime : Certificate → ℕ
lifetime item = max 1 (item.not_after_ms - item.not_before_ms)

unfoldable pub elapsed : (now : ℕ) → Certificate → ℕ
elapsed now item =
    min 100 (((now - item.not_before_ms) * 200 + lifetime item) / (2 * lifetime item))

abbrev pub names : List Text → List (Item Event)
names [] = []
names (domain ∷ domains) = plain domain ∷ each (λ d. plain d ∷ []) domains

abbrev pub horizon : I18n → ℕ → Certificate → List (Item Event)
horizon i18n now item =
    hint "证书有效期进度" []
    ∷ plain (decimal (elapsed now item))
    ∷ message "签发 " []
    ∷ plain (i18n.format_time (some item.not_before_ms))
    ∷ message "到期 " []
    ∷ plain (i18n.format_time (some item.not_after_ms))
    ∷ []

abbrev pub state_label : ℕ → Certificate → List (Item Event)
state_label now item =
    toned (certificate_state now item).1 [] ∷ entry (text (certificate_state now item).0) ∷ []

abbrev pub renew_button : Bool → Certificate → List (Item Event)
renew_button busy item = button (not busy) (if busy then "续期中…" else "续期") [] (renew item) ∷ []

abbrev pub row_parts : I18n → ℕ → Bool → Certificate → List (List (Item Event))
row_parts i18n now busy item =
    names item.domains
    ∷ horizon i18n now item
    ∷ state_label now item
    ∷ when item.active (renew_button busy item)
    ∷ []

-- `CertificateRow`
abbrev pub row : I18n → ℕ → String → Certificate → List (Item Event)
row i18n now busy item = concat (row_parts i18n now (str_eq busy item.certificate_id) item)

abbrev pub disabled_page : List (Item Event)
disabled_page =
    plain (codes "Encrypted storage required")
    ∷ message "证书存储尚未启用" []
    ∷ message "先在服务端配置 " []
    ∷ plain (codes "--secret-key-file")
    ∷ message "。主密钥只放在外部文件，数据库只保存密文。" []
    ∷ []

abbrev pub page_head : List (Item Event)
page_head = message "TLS 证书" [] ∷ message "查看当前与历史版本。签发由用户或脚本触发，Senix 不会自行安排续期。" [] ∷ []

abbrev pub open_button : List (Item Event)
open_button = button true "签发证书" [] open_form ∷ []

abbrev pub issue_part : Panel → List (Item Event)
issue_part p =
    plain (codes "HTTP-01")
    ∷ message "签发并热切换" []
    ∷ message "域名必须先解析到这台网关的 HTTP 入口；每行一个域名，不支持通配符。" []
    ∷ message "域名" []
    ∷ input [] type_in
    ∷ entry p.error
    ∷ button true "取消" [] close_form
    ∷ button (str_eq p.busy "") (if str_eq p.busy "issue" then "正在验证并签发…" else "开始签发") [] (issue [])
    ∷ []

-- A notice that is not the empty text.
abbrev pub is_error : Entry → Bool
is_error (text []) = false
is_error _ = true

abbrev pub no_certificates : List (Item Event)
no_certificates = message "还没有托管证书。配置 ACME 后可在这里手动签发。" [] ∷ []

abbrev pub rows : I18n → ℕ → String → List Certificate → List (Item Event)
rows i18n now busy [] = no_certificates
rows i18n now busy (item ∷ items) = each (row i18n now busy) (item ∷ items)

abbrev pub page_parts : I18n → ℕ → List Certificate → Panel → List (List (Item Event))
page_parts i18n now items p =
    page_head
    ∷ when (not p.is_open) open_button
    ∷ when p.is_open (issue_part p)
    ∷ when (not p.is_open && is_error p.error) (entry p.error ∷ [])
    ∷ rows i18n now p.busy items
    ∷ []

-- `Certificates`
unfoldable pub certificates_screen : I18n → ℕ → Bool → List Certificate → Panel → List (Item Event)
certificates_screen i18n now enabled items p =
    either enabled (concat (page_parts i18n now items p)) disabled_page
