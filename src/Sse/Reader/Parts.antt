-- ===== src/Sse/Reader/Parts.antt =====
-- The parts of a stream that returns: what each test that was passed says of the text.
use senix.Prelude.{
  ℕ, Bool, true, false, Text, codes, text_eq, eq_of_text_eq, starts_with, List, [], ◌∷◌, ◌++◌,
  Option, none, some, ◌≡◌, ◌≢◌, refl, sym, ap, ◌∙◌, arith, length, drop, all, append_assoc,
  append-nil, ◌==◌, ◌&&◌, and-true,
}
use senix.Decimal.{decimal}
use senix.Sse.Reader.{
  Outcome, returned, thrown, ◌>>=◌, ◌>>◌, Failure, event_framing, demand, require, split_lines,
  framed, is_number, is_text, is_padding,
}

pub join_lines : List Text → Text
join_lines [] = []
join_lines (line ∷ []) = line
join_lines (line ∷ more ∷ lines) = line ++ (b'\n' ∷ join_lines (more ∷ lines))

pub split_lines-ne-nil : (line s : Text) → split_lines line s ≢ []
unfolding split_lines
split_lines-ne-nil line [] = cc
split_lines-ne-nil line (c ∷ s) = ground (arith, split_lines-ne-nil (line ++ c ∷ []) s)

pub join_lines-cons :
    (line : Text) (lines : List Text)
    → lines ≢ []
    → join_lines (line ∷ lines) ≡ line ++ (b'\n' ∷ join_lines lines)
unfolding join_lines
join_lines-cons line [] h = absurd (h refl)
join_lines-cons line (more ∷ lines) h = refl

pub join_lines-split_lines : (line s : Text) → join_lines (split_lines line s) ≡ line ++ s
unfolding split_lines join_lines
join_lines-split_lines line [] = sym (append-nil line)
join_lines-split_lines line (c ∷ s) =
    let longer = join_lines-split_lines (line ++ c ∷ []) s ∙ append_assoc line (c ∷ []) s in
    let next = join_lines-cons line (split_lines [] s) (split_lines-ne-nil [] s) in
    let rest = join_lines-split_lines [] s in ground (arith, longer, next, rest)

pub drop-prefix : (s t : Text) → starts_with s t ≡ true → s ≡ t ++ drop (length t) s
drop-prefix s [] h = refl
drop-prefix [] (c ∷ t) h = cc
drop-prefix (d ∷ s) (c ∷ t) h = ground (arith, drop-prefix s t)

-- A whole that returns has parts that return.
pub >>=-eq-returned {κ μ} :
    {B : Type κ} {C : Type μ} (part : Outcome B) (rest : B → Outcome C) {c : C}
    → (part >>= rest) ≡ returned c
    → (b : B) × (part ≡ returned b) × (rest b ≡ returned c)
>>=-eq-returned (thrown why) rest e = cc
>>=-eq-returned (returned b) rest e = (b, refl, e)

pub demand-eq-returned :
    (test : Bool) (why : Failure) {u : Unit {0}} → demand test why ≡ returned u → test ≡ true
demand-eq-returned false why e = cc
demand-eq-returned true why e = refl

-- The event with number `count` and this data, as it is sent.
abbrev pub sent_event : ℕ → Text → Text
sent_event count text = (codes "id: " ++ decimal count) ++ (b'\n' ∷ (codes "data: " ++ text))

pub lines-framed :
    (count : ℕ) (lines : List Text) (text : Text)
    → framed count lines ≡ returned text
    → join_lines lines ≡ sent_event count text
unfolding join_lines
lines-framed count [] text h = cc
lines-framed count (id ∷ []) text h = cc
lines-framed count (id ∷ line ∷ more ∷ lines) text h = cc
lines-framed count (id ∷ line ∷ []) text h =
    let test = text_eq id (codes "id: " ++ decimal count) && starts_with line (codes "data: ") in
    let (u, passed, same) =
      >>=-eq-returned (demand test event_framing) (λ _. returned (drop 6 line)) h in
    let (first, second) = and-true _ _ (demand-eq-returned test event_framing passed) in
    let named = eq_of_text_eq id (codes "id: " ++ decimal count) first in
    let prefix = drop-prefix line (codes "data: ") second in
    let rest : drop 6 line ≡ text = ground arith in rw (named, prefix, rest) refl

pub framed-eq-returned :
    (count : ℕ) (event : Text) (text : Text)
    → framed count (split_lines [] event) ≡ returned text
    → event ≡ sent_event count text
framed-eq-returned count event text h =
    sym (join_lines-split_lines [] event) ∙ lines-framed count (split_lines [] event) text h

pub number-eq_some : (o : Option ℕ) (n : ℕ) → is_number o n ≡ true → o ≡ some n
number-eq_some none n h = cc
number-eq_some (some m) n h = ground arith

pub text-eq_some : (o : Option Text) (t : Text) → is_text o t ≡ true → o ≡ some t
text-eq_some none t h = cc
text-eq_some (some s) t h = ap some (eq_of_text_eq s t h)

pub padding-eq_some :
    (o : Option Text)
    → is_padding o ≡ true
    → (s : Text) × (o ≡ some s) × (all (λ c. c == b'x') s ≡ true)
padding-eq_some none h = cc
padding-eq_some (some s) h = (s, refl, h)

-- The value that is returned, or a default.
pub returned_or {ℓ} : {A : Type ℓ} → A → Outcome A → A
returned_or d (returned a) = a
returned_or d (thrown e) = d

pub returned_injective {ℓ} : {A : Type ℓ} {a b : A} → returned a ≡ returned b → a ≡ b
unfolding returned_or
returned_injective {a} h = ap (returned_or a) h

pub demand-then {ℓ} :
    {A : Type ℓ} (b : Bool) (e : Failure) (a : A) {c : A}
    → (demand b e >> returned a) ≡ returned c
    → (b ≡ true) × (a ≡ c)
demand-then true e a h = (refl, returned_injective h)
demand-then false e a h = cc

pub require-eq-returned {ℓ} :
    {A : Type ℓ} (o : Option A) (e : Failure) {a : A} → require o e ≡ returned a → o ≡ some a
require-eq-returned none e h = cc
require-eq-returned (some b) e h = ground arith
