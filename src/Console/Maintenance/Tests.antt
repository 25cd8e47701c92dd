-- ===== src/Console/Maintenance/Tests.antt =====
-- The maintenance panel, run with one kind of double.
use senix.Prelude.{
  ℕ, ◌+◌, ◌*◌, ◌≤◌, Bool, true, false, Text, codes, List, [], ◌∷◌, none, some, ◌≡◌, refl, arith,
  All,
}
use senix.Decimal.{decimal, read_number, read_number-decimal}
use senix.Console.Api.{answered, failed, plain_error, Items}
use senix.Console.Number.{
  Number, nan, finite, infinite, is_finite, is_below, is_above, Doubles, AreIeee,
}
use senix.Console.Maintenance.{Instance, Operation, drain, disable, idle, calling, View, mount}
use senix.Console.Maintenance.Forms.{submit, begin_drain, start}
use senix.Console.Maintenance.Events.{
  Event, press, respond, reloaded, tick, polled, step, run, set_operation, on_tick,
}
use senix.Console.Maintenance.Requests.{IsFitEffect, submit-IsFit}
use senix.Console.Maintenance.Busy.{busy_of, sends, responses, run-mount-one_at_a_time}
use senix.Console.Maintenance.Settling.{after, ending, ShowsFailure, run_settles}
use senix.Console.Maintenance.Polling.{watch, polled_once}
use senix.Prelude.{◌++◌}
use senix.Console.Screen.{I18n}
use senix.Sse.Reader.Faithful.{IsCharacter}
use senix.Console.Uri.{encode_uri_component, encode_from, percents}
use senix.Console.Maintenance.{disable_now}
use senix.Console.Maintenance.Paths.{path_of}
use senix.Console.Maintenance.Paths.Laws.{SameKind, slashes, path_of_injective}

-- Unsigned integers, which is what the tests type.
abbrev number_of : ℕ × Text → Number
number_of (n, []) = finite false n 0
number_of (n, _ ∷ _) = nan

abbrev of_digits : Text → Number
of_digits s = number_of (read_number 0 s)

abbrev thousandfold : Number → Number
thousandfold nan = nan
thousandfold (infinite s) = infinite s
thousandfold (finite s m k) = finite s (m * 1000) k

abbrev doubles : Doubles
doubles = record { of_text = of_digits; to_text = decimal; times_1000 = thousandfold }

thousandfold-finite : (x : Number) → is_finite x ≡ true → is_finite (thousandfold x) ≡ true
thousandfold-finite nan h = h
thousandfold-finite (infinite s) h = h
thousandfold-finite (finite s m k) h = refl

thousandfold-low :
    (x : Number)
    → is_finite x ≡ true
    → is_below x 1 ≡ false
    → is_below (thousandfold x) 1000 ≡ false
thousandfold-low nan f h = refl
thousandfold-low (infinite s) f h = cc
thousandfold-low (finite true m k) f h = ground arith
thousandfold-low (finite false m k) f h = ground arith

thousandfold-high :
    (x : Number)
    → is_finite x ≡ true
    → is_above x 86400 ≡ false
    → is_above (thousandfold x) 86400000 ≡ false
thousandfold-high nan f h = refl
thousandfold-high (infinite s) f h = cc
thousandfold-high (finite true m k) f h = refl
thousandfold-high (finite false m k) f h = ground arith

doubles-AreIeee : AreIeee doubles
doubles-AreIeee = record {
  reads = λ n h. rw (read_number-decimal n) refl;
  product_finite = λ x f l h. thousandfold-finite x f;
  product_low = λ x f l h. thousandfold-low x f l;
  product_high = λ x f l h. thousandfold-high x f h;
}

abbrev joins : Items → Text
joins items = []

abbrev never : Text → Text → Bool
never s t = false

abbrev serving : Instance
serving = record {
  id = "a";
  traffic = "SERVING";
  weight = 100;
  generation = 3;
  health = "HEALTHY";
  health_override = false;
}

submit-IsFit_example :
    All
      (IsFitEffect (mount doubles serving))
      (submit doubles decimal drain (mount doubles serving)).1
submit-IsFit_example = submit-IsFit doubles decimal drain (mount doubles serving) doubles-AreIeee

abbrev draining : Operation
draining = record {
  operation_id = "op";
  status = "DRAINING";
  ordinary_in_flight = 2;
  long_lived_in_flight = 0;
  deadline_at_ms = some 9;
}

abbrev drained : Operation
drained = record {
  operation_id = "op";
  status = "DRAINED";
  ordinary_in_flight = 2;
  long_lived_in_flight = 0;
  deadline_at_ms = some 9;
}

-- The operator presses twice; the server answers, and the panel polls.
abbrev events : List Event
events =
    press drain
    ∷ press drain
    ∷ respond (answered (some draining))
    ∷ reloaded
    ∷ tick
    ∷ polled 1 (answered drained)
    ∷ []

run-mount-one_at_a_time_example :
    let (v, effects) = run doubles decimal joins never (mount doubles serving) events in
    (v.panel.busy ≡ busy_of v.phase) × (sends effects ≤ responses events + 1)
run-mount-one_at_a_time_example = run-mount-one_at_a_time doubles decimal joins never serving events

abbrev asked : View
asked = (run doubles decimal joins never (mount doubles serving) (press drain ∷ [])).0

asked-calling : asked.phase ≡ calling drain
unfolding run step submit begin_drain start mount read_number
asked-calling = refl

run_settles_example :
    let offline = failed (plain_error (codes "offline")) in
    let w =
      after doubles decimal joins never serving
        (ending ((press drain ∷ []) ++ press disable ∷ tick ∷ []) offline []) in
    let v =
      after doubles decimal joins never serving ((press drain ∷ []) ++ press disable ∷ tick ∷ []) in
    (v.panel.busy ≡ some drain)
    × (w.phase ≡ idle)
    × (w.panel.busy ≡ none)
    × ShowsFailure doubles decimal joins never offline w
run_settles_example =
    run_settles doubles decimal joins never serving (press drain ∷ []) (press disable ∷ tick ∷ [])
      [] drain (failed (plain_error (codes "offline"))) asked-calling refl refl

abbrev watching : View
watching = set_operation (mount doubles serving) (some draining)

watching-draining : watch watching.panel.operation ≡ some ("op", "DRAINING")
unfolding set_operation
watching-draining = refl

still_current :
    (run doubles decimal joins never watching (tick ∷ tick ∷ [])).0.epoch ≡ watching.epoch
unfolding run step on_tick set_operation
still_current = refl

polled_once_example :
    let u = (run doubles decimal joins never watching (tick ∷ tick ∷ [])).0 in
    let ended = (step doubles decimal joins never u (polled watching.epoch (answered drained))).0 in
    let w = (run doubles decimal joins never ended (press disable ∷ [])).0 in
    step doubles decimal joins never w (polled watching.epoch (answered drained)) ≡ (w, [])
polled_once_example =
    polled_once doubles decimal joins never watching (tick ∷ tick ∷ []) (press disable ∷ []) "op"
      drained (answered drained) watching-draining (cc) still_current

abbrev english_times : I18n
english_times = record { locale = "en"; format_time = λ t. codes "-" }

-- An id that would leave its segment if it were not encoded.
abbrev disable_path : Text
disable_path = codes "/api/v1/instances/a%2Fdisable/disable"

disable_path_of : path_of "a/disable" disable_now ≡ some disable_path
unfolding path_of encode_uri_component encode_from percents
disable_path_of = refl

disable_id : All IsCharacter (codes "a/disable")
disable_id = (
  omega arith,
  (
    omega arith,
    (
      omega arith,
      (omega arith, (omega arith, (omega arith, (omega arith, (omega arith, (omega arith, tt)))))),
    ),
  ),
)

path_of_injective_example :
    (slashes disable_path ≡ 5)
    × (codes "a/disable" ≡ codes "a/disable")
    × SameKind disable_now disable_now
path_of_injective_example =
    path_of_injective "a/disable" "a/disable" disable_now disable_now disable_path disable_id
      disable_id disable_path_of disable_path_of
