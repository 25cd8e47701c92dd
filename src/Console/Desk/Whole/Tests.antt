-- ===== src/Console/Desk/Whole/Tests.antt =====
-- The console with one instance, on its first page and on the others; the keyboard, the notices and
-- the session.
use senix.Prelude.{◌+◌, true, false, codes, List, [], ◌∷◌, some, ltb, if◌then◌else◌, ◌≡◌, refl}
use senix.Decimal.{decimal}
use senix.Locale.{text}
use senix.Console.Api.{answered, failed, plain_error, null}
use senix.Console.Number.{nan, Doubles}
use senix.Console.Screen.{I18n}
use senix.Console.Maintenance.{Instance, mount}
use senix.Console.Changes.{blank_queue}
use senix.Console.Diagnostics.{blank_diagnosis}
use senix.Console.Keys.{blank}
use senix.Console.Certificates.{Certificate}
use senix.Console.Secret.{closed}
use senix.Console.Secret
use senix.Console.Desk.{signed_in}
use senix.Console.Desk.Shell.{changes, overview, audit, keyboard}
use senix.Console.Desk.Toast.{notify, elapse, no_toast, run}
use senix.Console.Desk.Toast.Laws.{run-notify-elapse}
use senix.Console.Desk.Session.{Event, session, press_logout, logged_out, login, unknown_desk}
use senix.Console.Desk.Session
use senix.Console.Desk.Session.Laws.{IsGranted, run-signed_in-IsGranted}
use senix.Console.Desk.Whole.{Pages, Browser}

abbrev doubles : Doubles
doubles = record { of_text = λ t. nan; to_text = decimal; times_1000 = λ x. x }

abbrev browser : Browser
browser = record {
  doubles = doubles;
  upper = λ s. s;
  pretty = λ v. codes "{}";
  id_of = λ t. "custom";
}

abbrev i18n : I18n
i18n = record { locale = "en"; format_time = λ t. codes "-" }

abbrev instance_a : Instance
instance_a = record {
  id = "a";
  traffic = "SERVING";
  weight = 100;
  generation = 1;
  health = "HEALTHY";
  health_override = false;
}

abbrev pages : Pages
pages = record {
  page = overview;
  updated = some (codes "12:00");
  notice = text [];
  instances = instance_a ∷ [];
  opened = "a";
  open_panels = λ item. mount doubles item;
  change_list = [];
  queue = blank_queue;
  diagnosis = blank_diagnosis;
  credential_list = [];
  is_key_form_open = true;
  form = blank;
  certificate_list = [];
  store_enabled = false;
  certificate_panel = record { is_open = false; busy = ""; error = text [] };
  audit_events = [];
  dialog = closed;
}

abbrev expiring : Certificate
expiring = record {
  certificate_id = "c1";
  domains = codes "shop.example" ∷ [];
  active = true;
  not_before_ms = 0;
  not_after_ms = 9;
}

opens_audit : keyboard (some "BUTTON") (codes "6") changes ≡ audit
unfolding keyboard
opens_audit = refl

-- The timer of the first notice would come due at 2600.
run-notify-elapse_example :
    (run no_toast
      (notify 0 (text (codes "a")) ∷ notify 1000 (text (codes "b")) ∷ elapse 3000 ∷ [])).notice
    ≡ (if ltb 3000 (1000 + 2600) then text (codes "b") else text [])
run-notify-elapse_example =
    run-notify-elapse (notify 0 (text (codes "a")) ∷ []) 1000 3000 (text (codes "b"))

abbrev visits : List Event
visits =
    session (failed (plain_error (codes "offline")))
    ∷ login (codes "root")
    ∷ press_logout
    ∷ logged_out (answered null)
    ∷ login (codes "root")
    ∷ []

signed_in_again : (Session.run decimal unknown_desk visits).owner ≡ signed_in (codes "root")
unfolding Session.run Session.step
signed_in_again = refl

run-signed_in-IsGranted_example : IsGranted decimal (codes "root") visits
run-signed_in-IsGranted_example =
    run-signed_in-IsGranted decimal visits (codes "root") signed_in_again
