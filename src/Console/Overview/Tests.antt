-- ===== src/Console/Overview/Tests.antt =====
-- Two instances, one of them draining.
use senix.Prelude.{true, false, List, [], ◌∷◌, ◌≡◌, refl}
use senix.Console.Maintenance.{Instance}
use senix.Console.Overview.{toggle, step, serving, attention}

abbrev instances : List Instance
instances =
    record {
      id = "a";
      traffic = "SERVING";
      weight = 100;
      generation = 1;
      health = "UNHEALTHY";
      health_override = true;
    }
    ∷ record {
      id = "b";
      traffic = "DRAINING";
      weight = 100;
      generation = 2;
      health = "HEALTHY";
      health_override = false;
    }
    ∷ []

counts : (serving instances ≡ 1) × (attention instances ≡ 2)
counts = (refl, refl)

opens : step "b" (toggle "a") ≡ "a"
unfolding step
opens = refl

closes : step "a" (toggle "a") ≡ ""
unfolding step
closes = refl
