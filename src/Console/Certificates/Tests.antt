-- ===== src/Console/Certificates/Tests.antt =====
-- One certificate, and one text of domains.
use senix.Prelude.{true, Text, codes, List, [], ◌∷◌, ◌≡◌, ◌↔◌, ◌≤◌, ◌<◌, ◌+◌, refl, arith, All}
use senix.Console.Api.{bad, warn}
use senix.Console.Certificates.{Certificate, certificate_state, split_domains, thirty_days}
use senix.Console.Certificates.Laws.{
  severity, certificate_state-later, IsDomain, lines, split_domains-lines-IsDomain,
}
use senix.Prelude.{length}
use senix.Console.Api.{answered}
use senix.Console.Certificates.{issue_domains}
use senix.Console.Certificates.Screen.{renew}
use senix.Console.Certificates.Page.{Happening, click, answer, reloaded, first_page, step, run}
use senix.Console.Certificates.Page.Laws.{IsFree, requests, answers, run-first_page-IsFree}

abbrev hosts : List Text
hosts = codes "api.example.com" ∷ codes "www.example.com" ∷ []

abbrev certificate : Certificate
certificate = record {
  certificate_id = "c";
  domains = hosts;
  active = true;
  not_before_ms = 0;
  not_after_ms = 5000;
}

abbrev other : Certificate
other = record certificate { certificate_id = "d" }

certificate_state-later_example :
    (severity (certificate_state 10 certificate).1
      ≤ severity (certificate_state 5000 certificate).1)
    × (((certificate_state 10 certificate).1 ≡ bad) ↔ ((true ≡ true) × (5000 ≤ 10)))
    × (((certificate_state 10 certificate).1 ≡ warn)
        ↔ ((true ≡ true) × (10 < 5000) × (5000 ≤ 10 + thirty_days)))
certificate_state-later_example = certificate_state-later certificate 10 5000 (omega arith)

split_domains-lines-IsDomain_example :
    All IsDomain (split_domains [] (codes " a.b,, c.d\n"))
    × (split_domains [] (lines hosts) ≡ hosts)
split_domains-lines-IsDomain_example =
    split_domains-lines-IsDomain (codes " a.b,, c.d\n") hosts ((cc, refl), ((cc, refl), tt))

-- A second certificate is renewed while the renewal of the first is on its way.
abbrev overlapping : List Happening
overlapping =
    click (renew certificate) ∷ click (renew other) ∷ answer 0 (answered 7) ∷ reloaded ∷ []

run-first_page-IsFree_example :
    IsFree (run first_page overlapping).0
    × (requests (run first_page overlapping).1
        ≤ length (run first_page overlapping).0.waiting + answers overlapping)
run-first_page-IsFree_example = run-first_page-IsFree overlapping

-- Then the button of the first certificate can be pressed again at once, and its renewal is asked
-- for twice at the same time.
asked_twice :
    (run first_page
      (click (renew certificate) ∷ click (renew other) ∷ click (renew certificate) ∷ [])).0.waiting
    ≡ "c" ∷ "d" ∷ "c" ∷ []
unfolding run step issue_domains
asked_twice = refl
