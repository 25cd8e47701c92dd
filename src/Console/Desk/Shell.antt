-- ===== src/Console/Desk/Shell.antt =====
-- web/src/main.jsx, `Sidebar` and the keyboard and the head of `ControlDesk`.
pub mod Messages
pub mod Keyboard
use senix.Prelude.{
  ℕ, zero, suc, ◌-◌, Bool, true, false, String, Text, codes, List, [], ◌∷◌, ◌++◌, Option, none,
  some, map, any, ◌==◌, if◌then◌else◌,
}
use senix.Console.Api.{one_of}
use senix.Console.Screen.{Item, plain, marked, message, hint, button, concat, text_is, either}

pub data Page : Type 0 where
  overview changes diagnostics credentials certificates audit : Page

abbrev pub same_page : Page → Page → Bool
same_page overview overview = true
same_page changes changes = true
same_page diagnostics diagnostics = true
same_page credentials credentials = true
same_page certificates certificates = true
same_page audit audit = true
same_page _ _ = false

-- The pages in the order of the keyboard's digits.
abbrev pub pages : List Page
pages = overview ∷ changes ∷ diagnostics ∷ credentials ∷ certificates ∷ audit ∷ []

-- `["INPUT", "SELECT", "TEXTAREA"].includes(document.activeElement?.tagName)`
abbrev pub is_field : Option String → Bool
is_field none = false
is_field (some tag) = one_of ("INPUT" ∷ "SELECT" ∷ "TEXTAREA" ∷ []) tag

abbrev pub is_page_key : Text → Bool
is_page_key key = any (text_is key) ("1" ∷ "2" ∷ "3" ∷ "4" ∷ "5" ∷ "6" ∷ [])

-- `Number(key)` for a digit.
abbrev pub digit : Text → ℕ
digit [] = 0
digit (c ∷ _) = c - b'0'

-- `list[i]`, or else the page that is open.
abbrev pub page_at : List Page → ℕ → Page → Page
page_at [] i page = page
page_at (p ∷ ps) zero page = p
page_at (p ∷ ps) (suc i) page = page_at ps i page

-- `keyboard`, with the tag of the active element and the key.
unfoldable pub keyboard : Option String → Text → Page → Page
keyboard tag key page =
    if is_field tag
    then page
    else if is_page_key key
    then page_at pages (digit key - 1) page
    else page

-- A button of the sidebar: the page, its label, the short label and the key. A short label that is
-- the same in all languages is given as a text.
pub record NavItem : Type 0 where
  pub page : Page
  pub label : String
  pub short : Option String
  pub key : Text

abbrev pub nav : List NavItem
nav =
    record { page = overview; label = "流量状态"; short = some "状态"; key = codes "1" }
    ∷ record { page = changes; label = "配置变更"; short = some "变更"; key = codes "2" }
    ∷ record { page = diagnostics; label = "请求诊断"; short = some "诊断"; key = codes "3" }
    ∷ record { page = credentials; label = "访问 Key"; short = none; key = codes "4" }
    ∷ record { page = certificates; label = "TLS 证书"; short = some "证书"; key = codes "5" }
    ∷ record { page = audit; label = "审计记录"; short = some "审计"; key = codes "6" }
    ∷ []

pub data Event : Type 0 where
  open_page : Page → Event
  choose_language : Text → Event
  refresh log_out : Event

abbrev pub short_label : Option String → List (Item Event)
short_label none = plain (codes "Key") ∷ []
short_label (some label) = hint label [] ∷ []

abbrev pub nav_button : Page → NavItem → List (Item Event)
nav_button page n =
    marked (same_page page n.page) []
    ∷ hint n.label []
    ∷ (short_label n.short ++ button true n.label [] (open_page n.page) ∷ plain n.key ∷ [])

abbrev pub nav_buttons : Page → List NavItem → List (Item Event)
nav_buttons page [] = []
nav_buttons page (n ∷ ns) = nav_button page n ++ nav_buttons page ns

abbrev pub sidebar_head : List (Item Event)
sidebar_head = plain (codes "Senix") ∷ plain (codes "Control desk") ∷ hint "控制台导航" [] ∷ []

abbrev pub sidebar_foot : Text → List (Item Event)
sidebar_foot owner = plain owner ∷ message "管理会话" [] ∷ button true "退出" [] log_out ∷ []

unfoldable pub sidebar : Text → Page → List (Item Event)
sidebar owner page = sidebar_head ++ (nav_buttons page nav ++ sidebar_foot owner)

-- `labels[page]`
abbrev pub labels : Page → String × String
labels overview = ("Live traffic", "流量状态")
labels changes = ("Approval queue", "配置变更")
labels diagnostics = ("Routing evidence", "请求诊断")
labels credentials = ("Access boundary", "访问 Key")
labels certificates = ("Certificate horizon", "TLS 证书")
labels audit = ("Recorded actions", "审计记录")

abbrev pub top_title : Page → List (Item Event)
top_title page = plain (codes (labels page).0) ∷ message (labels page).1 [] ∷ []

-- When the lists were loaded, as a text.
abbrev pub freshness : Option Text → List (Item Event)
freshness none = message "尚未刷新" [] ∷ []
freshness (some time) = message "更新于 {time}" ((codes "time", time) ∷ []) ∷ []

abbrev pub refresh_button : List (Item Event)
refresh_button = button true "刷新" [] refresh ∷ []
