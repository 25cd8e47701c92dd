-- ===== src/Console/Desk/Toast.antt =====
-- web/src/main.jsx, `notify` of `ControlDesk`: a notice is shown, and removed by a timer. The timers
-- of the browser are those that were set and neither cleared nor run, with their times.
pub mod Laws
use senix.Prelude.{
  ℕ, ◌+◌, Bool, true, false, not, Text, List, [], ◌∷◌, ◌++◌, Option, none, some, leb, ◌==◌,
  if◌then◌else◌,
}
use senix.Locale.{Entry, text}

pub record Toast : Type 0 where
  pub notice : Entry  -- the state `toast`
  pub timer : Option ℕ  -- `notify.timer`
  pub pending : List (ℕ × ℕ)  -- the browser's timers, the time behind the id
  pub next : ℕ  -- the browser's next id

abbrev pub no_toast : Toast
no_toast = record { notice = text []; timer = none; pending = []; next = 1 }

-- `clearTimeout`
abbrev pub clear : ℕ → List (ℕ × ℕ) → List (ℕ × ℕ)
clear id [] = []
clear id ((other, time) ∷ timers) =
    let rest = clear id timers in if other == id then rest else (other, time) ∷ rest

abbrev pub clear_timeout : Option ℕ → List (ℕ × ℕ) → List (ℕ × ℕ)
clear_timeout none timers = timers
clear_timeout (some id) timers = clear id timers

-- The times at which a notice comes, and the browser runs the timers that are due.
pub data Event : Type 0 where
  notify : (now : ℕ) → Entry → Event
  elapse : (now : ℕ) → Event

abbrev pub is_due : ℕ → List (ℕ × ℕ) → Bool
is_due now [] = false
is_due now ((id, time) ∷ timers) =
    let rest = is_due now timers in if leb time now then true else rest

abbrev pub still_pending : ℕ → List (ℕ × ℕ) → List (ℕ × ℕ)
still_pending now [] = []
still_pending now ((id, time) ∷ timers) =
    let rest = still_pending now timers in if leb time now then rest else (id, time) ∷ rest

unfoldable pub step : Toast → Event → Toast
step t (notify now e) = record {
  notice = e;
  timer = some t.next;
  pending = (t.next, now + 2600) ∷ clear_timeout t.timer t.pending;
  next = t.next + 1;
}
step t (elapse now) = record t {
  notice = if is_due now t.pending then text [] else t.notice;
  pending = still_pending now t.pending;
}

unfoldable pub run : Toast → List Event → Toast
unfolding step
run t [] = t
run t (e ∷ later) = run (step t e) later
