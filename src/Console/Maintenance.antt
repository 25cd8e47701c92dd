-- ===== src/Console/Maintenance.antt =====
-- web/src/main.jsx, `MaintenancePanel`: the forms by which an operator drains, weights, rejoins or
-- disables one instance. A handler runs up to its `await`, and goes on when the server has answered
-- and when the lists have been loaded again; the operator may act in between.
pub mod Forms
pub mod Events
pub mod Requests
pub mod Busy
pub mod Settling
pub mod Polling
pub mod Screen
pub mod Paths
mod Tests
use senix.Prelude.{
  ℕ, ◌+◌, Bool, true, false, String, Text, codes, List, [], Option, none, some, ◌==◌, if◌then◌else◌,
}
use senix.Locale.{Entry, text}
use senix.Console.Number.{Number, Doubles}

pub record Instance : Type 0 where
  pub id : String
  pub traffic : String
  pub weight : ℕ
  pub generation : ℕ
  pub health : String
  pub health_override : Bool

-- The answer to a drain request and to a poll.
pub record Operation : Type 0 where
  pub operation_id : String
  pub status : String
  pub ordinary_in_flight : ℕ
  pub long_lived_in_flight : ℕ
  pub deadline_at_ms : Option ℕ

-- The names that `busy` takes, but for the empty text.
pub data Action : Type 0 where
  drain weight rejoin disable : Action

-- The state of the component.
pub record Panel : Type 0 where
  pub weight : Text
  pub timeout_seconds : Text
  pub force_drain : Bool
  pub generation : Text
  pub rejoin_weight : Text
  pub force_rejoin : Bool
  pub confirm_disable : Bool
  pub operation : Option Operation
  pub busy : Option Action
  pub error : Entry

-- The requests of the forms, each a change of the instance with this id. Each is sent with an
-- idempotency key of its own.
pub data Change : Type 0 where
  drain_within : (timeout_ms : Number) (force : Bool) → Change
  set_weight : Number → Change
  rejoin_as : (generation weight : Number) (force : Bool) → Change
  disable_now : Change

pub data Effect : Type 0 where
  send : (id : String) → Change → Effect
  poll : (operation_id : String) → (epoch : ℕ) → Effect
  reload : Effect
  notify : Entry → Effect

-- Where `run` stands: it has asked the server, or waits for the lists after a good answer. `none` is
-- an answer that is falsy.
pub data Phase : Type 0 where
  idle : Phase
  calling : Action → Phase
  reloading : Action → Option Operation → Phase

-- The component with its instance. The polling effect is set up anew whenever the operation's id or
-- status changes; `epoch` counts that.
pub record View : Type 0 where
  pub instance_ : Instance
  pub panel : Panel
  pub phase : Phase
  pub epoch : ℕ

-- `instance.weight || 100`
abbrev pub weight_or_100 : ℕ → ℕ
weight_or_100 w = if w == 0 then 100 else w

module _ (d : Doubles) where
  -- The initial state.
  unfoldable pub mount : Instance → View
  mount i = record {
    instance_ = i;
    panel = record {
      weight = d.to_text i.weight;
      timeout_seconds = codes "60";
      force_drain = false;
      generation = d.to_text (i.generation + 1);
      rejoin_weight = d.to_text (weight_or_100 i.weight);
      force_rejoin = false;
      confirm_disable = false;
      operation = none;
      busy = none;
      error = text [];
    };
    phase = idle;
    epoch = 0;
  }
