-- ===== src/Console/Certificates/Page/Laws.antt =====
-- When the page of the certificates comes to rest.
use senix.Prelude.{
  ℕ, suc, ◌+◌, ◌-◌, ◌≤◌, true, false, not, String, str_eq, Text, List, [], ◌∷◌, ◌++◌, some,
  get_elem?, length, length-append, length-remove, ltb, ◌&&◌, if◌then◌else◌, ◌≡◌, ◌⊎◌, inl, inr,
  refl, arith, Option-cases,
}
use senix.Console.Api.{Answer, answered, failed}
use senix.Console.Certificates.{
  Certificate, Panel, Effect, notify, reload, split_domains, issue_domains, on_answer, on_reloaded,
}
use senix.Console.Certificates
use senix.Console.Certificates.Screen.{Event, open_form, close_form, type_in, issue, renew}
use senix.Console.Certificates.Page.{
  Page, first_page, Happening, click, answer, reloaded, issue_all, on_click, settle, step, run,
}

-- How many requests are sent, and for no empty list of domains.
abbrev pub is_request : Effect → ℕ
is_request (Certificates.issue []) = 2
is_request (Certificates.issue (domain ∷ more)) = 1
is_request _ = 0

abbrev pub requests : List Effect → ℕ
requests [] = 0
requests (e ∷ effects) = is_request e + requests effects

-- Nothing is shown as busy, or something is awaited.
abbrev pub IsFree : Page → Type 0
IsFree page = (str_eq page.panel.busy "" ≡ true) ⊎ (1 ≤ length page.waiting + page.loading)

-- How many requests were answered, of those that wait.
abbrev pub answers : List Happening → ℕ
answers [] = 0
answers (answer k a ∷ later) = suc (answers later)
answers (_ ∷ later) = answers later

abbrev Keeps : Page → Happening → Page × List Effect → Type 0
Keeps page h r =
    IsFree r.0 × (requests r.1 + length page.waiting ≤ length r.0.waiting + answers (h ∷ []))

issue_all-Keeps :
    (domains : List Text) (operation : String) (page : Page) (e : Event)
    → IsFree page
    → Keeps page (click e) (issue_all domains operation page)
unfolding issue_domains
issue_all-Keeps [] operation page e h = (h, omega arith)
issue_all-Keeps (domain ∷ more) operation page e h =
    let longer = length-append page.waiting (operation ∷ []) in
    (inr (omega (arith, longer)), omega (arith, longer))

click-Keeps : (e : Event) (page : Page) → IsFree page → Keeps page (click e) (on_click e page)
click-Keeps open_form page h = (h, omega arith)
click-Keeps close_form page h = (h, omega arith)
click-Keeps (type_in s) page h = (h, omega arith)
click-Keeps (issue domains) page h =
    elim (page.panel.is_open && str_eq page.panel.busy "")
      as (λ b.
        Keeps page (click (issue domains))
          (if b then issue_all (split_domains [] domains) "issue" page else (page, []))) [
            | true ↦ issue_all-Keeps (split_domains [] domains) "issue" page (issue domains) h
            | false ↦ (h, omega arith)
          ]
click-Keeps (renew item) page h =
    elim (item.active && not (str_eq page.panel.busy item.certificate_id))
      as (λ b.
        Keeps page (click (renew item))
          (if b then issue_all item.domains item.certificate_id page else (page, []))) [
            | true ↦ issue_all-Keeps item.domains item.certificate_id page (renew item) h
            | false ↦ (h, omega arith)
          ]

found-Keeps :
    (k : ℕ) (a : Answer ℕ) (operation : String) (page : Page)
    → get_elem? page.waiting k ≡ some operation
    → Keeps page (answer k a) (settle k a (some operation) page)
unfolding on_answer
found-Keeps k (answered generation) operation page found =
    (inr (omega arith), omega (arith, length-remove k page.waiting found))
found-Keeps k (failed e) operation page found =
    (inl refl, omega (arith, length-remove k page.waiting found))

settle-Keeps :
    (k : ℕ) (a : Answer ℕ) (page : Page)
    → IsFree page
    → Keeps page (answer k a) (settle k a (get_elem? page.waiting k) page)
settle-Keeps k a page h = elim (Option-cases (get_elem? page.waiting k)) [
  | inl nobody ↦ rw nobody (h, omega arith)
  | inr (operation, found) ↦ rw found (found-Keeps k a operation page found)
]

step-Keeps : (page : Page) (h : Happening) → IsFree page → Keeps page h (step page h)
unfolding step
step-Keeps page (click e) free = click-Keeps e page free
step-Keeps page (answer k a) free = settle-Keeps k a page free
step-Keeps page reloaded free =
    elim (ltb 0 page.loading)
      as (λ b. Keeps page reloaded (
        if b
        then (record page { panel = on_reloaded page.panel; loading = page.loading - 1 }, [])
        else (page, []))) [ true ↦ (inl refl, omega arith) | false ↦ (free, omega arith) ]

requests-append : (xs ys : List Effect) → requests (xs ++ ys) ≡ requests xs + requests ys
requests-append [] ys = omega arith
requests-append (e ∷ xs) ys = omega (arith, requests-append xs ys)

answers-cons :
    (h : Happening) (later : List Happening)
    → answers (h ∷ later) ≡ answers (h ∷ []) + answers later
answers-cons (click e) later = omega arith
answers-cons (answer k a) later = omega arith
answers-cons reloaded later = omega arith

run-Keeps :
    (page : Page) (later : List Happening)
    → IsFree page
    → IsFree (run page later).0
      × (requests (run page later).1 + length page.waiting
          ≤ length (run page later).0.waiting + answers later)
unfolding run
run-Keeps page [] free = (free, omega arith)
run-Keeps page (h ∷ later) free =
    let (kept, one) = step-Keeps page h free in
    let page' = (step page h).0 in
    let (free', more) = run-Keeps page' later kept in
    (
      free',
      omega (arith, requests-append (step page h).1 (run page' later).1, answers-cons h later),
    )

-- Whatever is clicked, answered and loaded, and even if several renewals overlap: where no request
-- and no load is awaited the page is not busy, so that its buttons can be pressed; and every request
-- that was sent, none of them without domains, is awaited or answered.
pub run-first_page-IsFree :
    (later : List Happening)
    → IsFree (run first_page later).0
      × (requests (run first_page later).1
          ≤ length (run first_page later).0.waiting + answers later)
run-first_page-IsFree later =
    let (free, sent) = run-Keeps first_page later (inl refl) in (free, omega (arith, sent))
