-- ===== src/Gateway/Routes/Tests.antt =====
-- Patterns of hosts, matched with hosts.
use senix.Prelude.{ℕ, true, false, codes, length, some, none, ◌⊎◌, ◌↔◌, ◌≡◌, refl}
use senix.Gateway.Routes.{host_specificity, eq_ignore_ascii_case}
use senix.Gateway.Routes.Hosts.{IsStarred, host_specificity_lem}

host_specificity_lem_example :
    (host_specificity (codes "*.Example") (codes "shop.example") ≡ some (1, 7)) ↔ (
      ((eq_ignore_ascii_case (codes "*.Example") (codes "shop.example") ≡ true)
        × ◌≡◌ {A = ℕ} 1 2
        × (7 ≡ length (codes "*.Example")))
      ⊎ ((eq_ignore_ascii_case (codes "*.Example") (codes "shop.example") ≡ false)
          × IsStarred (codes "*.Example") (codes "shop.example") 1 7))
host_specificity_lem_example = host_specificity_lem (codes "*.Example") (codes "shop.example") 1 7

one_label : host_specificity (codes "*.Example") (codes "shop.example") ≡ some (1, 7)
unfolding host_specificity
one_label = refl

two_labels : host_specificity (codes "*.Example") (codes "a.shop.example") ≡ none
unfolding host_specificity
two_labels = refl
