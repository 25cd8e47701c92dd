-- ===== src/Console/Desk/Toast/Laws.antt =====
-- How long a notice stays.
use senix.Prelude.{
  ℕ, ◌+◌, List, [], ◌∷◌, ◌++◌, Option, none, some, ltb, if◌then◌else◌, ◌≡◌, refl, arith, ap, ◌∙◌,
}
use senix.Locale.{Entry, text}
use senix.Console.Desk.Toast.{
  Toast, no_toast, clear_timeout, Event, notify, elapse, still_pending, step, run,
}

-- Nothing is pending but the timer that `notify` would clear.
abbrev IsAlone : Option ℕ → List (ℕ × ℕ) → Type 0
IsAlone timer pending = clear_timeout timer pending ≡ []

clear-still_pending :
    (timer : Option ℕ) (now : ℕ) (pending : List (ℕ × ℕ))
    → IsAlone timer pending
    → IsAlone timer (still_pending now pending)
clear-still_pending none now pending h = rw h refl
clear-still_pending (some id) now [] h = refl
clear-still_pending (some id) now ((other, time) ∷ timers) h =
    ground (arith, clear-still_pending (some id) now timers)

step-IsAlone :
    (t : Toast) (e : Event)
    → IsAlone t.timer t.pending
    → IsAlone (step t e).timer (step t e).pending
unfolding step
step-IsAlone t (notify now e) h = ground (arith, h)
step-IsAlone t (elapse now) h = clear-still_pending t.timer now t.pending h

run-IsAlone :
    (t : Toast) (events : List Event)
    → IsAlone t.timer t.pending
    → IsAlone (run t events).timer (run t events).pending
unfolding run
run-IsAlone t [] h = h
run-IsAlone t (e ∷ events) h = run-IsAlone (step t e) events (step-IsAlone t e h)

run-append : (t : Toast) (xs ys : List Event) → run t (xs ++ ys) ≡ run (run t xs) ys
unfolding run
run-append t [] ys = refl
run-append t (x ∷ xs) ys = run-append (step t x) xs ys

notice-elapse :
    (t : Toast) (start now : ℕ) (e : Entry)
    → IsAlone t.timer t.pending
    → (step (step t (notify start e)) (elapse now)).notice
      ≡ (if ltb now (start + 2600) then e else text [])
unfolding step
notice-elapse t start now e h = rw h (ground arith)

-- Whatever notices and timers came before: a notice that comes at a time is shown at a later time if
-- less than 2600 milliseconds have gone by, and else nothing is shown.
pub run-notify-elapse :
    (history : List Event) (start now : ℕ) (e : Entry)
    → (run no_toast (history ++ notify start e ∷ elapse now ∷ [])).notice
      ≡ (if ltb now (start + 2600) then e else text [])
unfolding run
run-notify-elapse history start now e =
    ap (λ (t : Toast). t.notice) (run-append no_toast history (notify start e ∷ elapse now ∷ []))
    ∙ notice-elapse (run no_toast history) start now e (run-IsAlone no_toast history refl)
