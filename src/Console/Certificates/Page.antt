-- ===== src/Console/Certificates/Page.antt =====
-- web/src/main.jsx, `Certificates`: the page over all its events. A handler waits for the server's
-- answer and then for the lists, and others may begin in between.
pub mod Laws
use senix.Prelude.{
  ℕ, suc, zero, ◌+◌, ◌-◌, Bool, true, false, not, String, str_eq, Text, List, [], ◌∷◌, ◌++◌, Option,
  none, some, get_elem?, remove, ltb, ◌&&◌, if◌then◌else◌,
}
use senix.Decimal.{decimal}
use senix.Locale.{text}
use senix.Console.Api.{Answer, answered, failed}
use senix.Console.Certificates.{
  Certificate, Panel, Effect, split_domains, issue_domains, on_answer, on_reloaded,
}
use senix.Console.Certificates.Screen.{Event, open_form, close_form, type_in, issue, renew}

-- The panel, the operations that wait for their answers, and how many wait for the lists.
pub record Page : Type 0 where
  pub panel : Panel
  pub waiting : List String
  pub loading : ℕ

abbrev pub first_page : Page
first_page = record {
  panel = record { is_open = false; busy = ""; error = text [] };
  waiting = [];
  loading = 0;
}

pub data Happening : Type 0 where
  click : Event → Happening
  answer : (k : ℕ) → Answer ℕ → Happening
  reloaded : Happening

-- `issueDomains` up to its request, which is not made without domains.
abbrev pub issue_all : List Text → String → Page → Page × List Effect
issue_all [] operation page =
    let (panel, effects) = issue_domains [] operation page.panel in
    (record page { panel = panel }, effects)
issue_all (domain ∷ more) operation page =
    let (panel, effects) = issue_domains (domain ∷ more) operation page.panel in
    (record page { panel = panel; waiting = page.waiting ++ operation ∷ [] }, effects)

-- A button that is not shown, or is disabled, does nothing.
abbrev pub on_click : Event → Page → Page × List Effect
on_click open_form page = (record page { panel = record page.panel { is_open = true } }, [])
on_click close_form page =
    (record page { panel = record page.panel { is_open = false; error = text [] } }, [])
on_click (type_in s) page = (page, [])
on_click (issue domains) page =
    if page.panel.is_open && str_eq page.panel.busy ""
    then issue_all (split_domains [] domains) "issue" page
    else (page, [])
on_click (renew item) page =
    if item.active && not (str_eq page.panel.busy item.certificate_id)
    then issue_all item.domains item.certificate_id page
    else (page, [])

-- Behind the request: after a good answer the lists are loaded.
abbrev pub reloads : Answer ℕ → ℕ
reloads (answered generation) = 1
reloads (failed e) = 0

abbrev pub settle : ℕ → Answer ℕ → Option String → Page → Page × List Effect
settle k a none page = (page, [])
settle k a (some operation) page =
    let (panel, effects) = on_answer decimal operation a page.panel in
    (
      record { panel = panel; waiting = remove k page.waiting; loading = page.loading + reloads a },
      effects,
    )

unfoldable pub step : Page → Happening → Page × List Effect
unfolding split_domains issue_domains on_answer
step page (click e) = on_click e page
step page (answer k a) = settle k a (get_elem? page.waiting k) page
step page reloaded =
    if ltb 0 page.loading
    then (record page { panel = on_reloaded page.panel; loading = page.loading - 1 }, [])
    else (page, [])

unfoldable pub run : Page → List Happening → Page × List Effect
unfolding step
run page [] = (page, [])
run page (h ∷ later) =
    let (page', effects) = step page h in
    let (page'', more) = run page' later in (page'', effects ++ more)
