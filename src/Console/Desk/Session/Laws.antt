-- ===== src/Console/Desk/Session/Laws.antt =====
-- When an owner counts as signed in.
use senix.Prelude.{
  ℕ, Bool, true, false, any, ◌||◌, Text, List, [], ◌∷◌, ◌++◌, Option, none, some, ◌≡◌, ◌⊎◌, inl,
  inr, refl, ap, arith, Bool-cases,
}
use senix.Console.Api.{Answer, answered, failed}
use senix.Console.Desk.{
  unknown, signed_out, signed_in, Desk, Pending, nothing_yet, gather, complete, commit, finish_load,
  is_unauthorized, load_all,
}
use senix.Console.Desk.Session.{
  Event, session, login, press_logout, logged_out, loaded, unknown_desk, step, run,
}

-- The server has given a session with this name.
abbrev pub Grants : Text → Event → Type 0
Grants name (session (answered given)) = given ≡ name
Grants name (login given) = given ≡ name
Grants name _ = ⊥

abbrev expired : Answer Pending → Bool
expired (answered p) = false
expired (failed e) = is_unauthorized e

-- The owner has left, or the server has told that the session is over.
unfoldable pub ends : Event → Bool
unfolding gather
ends (session (failed e)) = true
ends (logged_out answer) = true
ends (loaded settled) = expired (gather nothing_yet settled)
ends _ = false

signed_in_injective : {a b : Text} → signed_in a ≡ signed_in b → a ≡ b
signed_in_injective h = ground arith

-- What a signed in owner owes to the event before.
abbrev Reason : Text → Desk → Event → Type 0
Reason name d e = Grants name e ⊎ ((d.owner ≡ signed_in name) × (ends e ≡ false))

finish_load-owner :
    (show : ℕ → Text) (a : Answer Pending) (d : Desk) (name : Text)
    → (finish_load show a d).owner ≡ signed_in name
    → (d.owner ≡ signed_in name) × (expired a ≡ false)
finish_load-owner show (answered p) d name h = (commit-owner (complete p) h, refl)
  where
    commit-owner :
        (o : Option _) → (commit show o d).owner ≡ signed_in name → d.owner ≡ signed_in name
    commit-owner none k = k
    commit-owner (some lists) k = k
finish_load-owner show (failed e) d name h = elim (Bool-cases (is_unauthorized e)) [
  | inl gone ↦ absurd (signed_out_ne (rw gone at h))
  | inr other ↦ (rw other at h, other)
]
  where
    signed_out_ne : signed_out ≡ signed_in name → ⊥
    signed_out_ne = cc

module _ (show : ℕ → Text) where
  step-Reason :
      (d : Desk) (e : Event) (name : Text)
      → (step show d e).0.owner ≡ signed_in name
      → Reason name d e
  unfolding step ends load_all
  step-Reason d (session (answered given)) name h = inl (signed_in_injective h)
  step-Reason d (session (failed e)) name h = cc
  step-Reason d (login given) name h = inl (signed_in_injective h)
  step-Reason d press_logout name h = inr (h, refl)
  step-Reason d (logged_out answer) name h = cc
  step-Reason d (loaded settled) name h =
      inr (finish_load-owner show (gather nothing_yet settled) d name h)

  -- The server's word, and what came before and after it.
  pub record IsGranted (name : Text) (events : List Event) : Type 0 where
    pub before : List Event
    pub word : Event
    pub after : List Event
    pub parts : events ≡ before ++ word ∷ after
    pub grant : Grants name word
    pub not_ended : any ends after ≡ false

  or_false : (a b : Bool) → a ≡ false → b ≡ false → (a || b) ≡ false
  or_false a b h k = ground arith

  run-Reason :
      (d : Desk) (events : List Event) (name : Text)
      → (run show d events).owner ≡ signed_in name
      → ((d.owner ≡ signed_in name) × (any ends events ≡ false)) ⊎ IsGranted name events
  unfolding run
  run-Reason d [] name h = inl (h, refl)
  run-Reason d (e ∷ events) name h = elim (run-Reason (step show d e).0 events name h) [
    | inl (owner, quiet) ↦ elim (step-Reason d e name owner) [
      | inl grant ↦ inr (record {
        before = [];
        word = e;
        after = events;
        parts = refl;
        grant = grant;
        not_ended = quiet;
      })
      | inr (earlier, lasting) ↦ inl (earlier, or_false (ends e) (any ends events) lasting quiet)
    ]
    | inr later ↦ inr (record {
      before = e ∷ later.before;
      word = later.word;
      after = later.after;
      parts = ap (e ∷◌) later.parts;
      grant = later.grant;
      not_ended = later.not_ended;
    })
  ]

  -- Whatever has happened since the console was opened: if an owner is shown as signed in, then the
  -- server has given a session with this name, at the start or at a login, and since then no request
  -- to log out was answered, no load has ended with status 401, and no request for the session has
  -- failed.
  pub run-signed_in-IsGranted :
      (events : List Event) (name : Text)
      → (run show unknown_desk events).owner ≡ signed_in name
      → IsGranted name events
  run-signed_in-IsGranted events name h = elim (run-Reason unknown_desk events name h) [
    | inl (owner, quiet) ↦ absurd (unknown_ne owner)
    | inr granted ↦ granted
  ]
    where
      unknown_ne : unknown ≡ signed_in name → ⊥
      unknown_ne = cc
