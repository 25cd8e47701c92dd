-- ===== src/Console/Diagnostics/Laws.antt =====
-- What a diagnosis is asked for with.
use senix.Prelude.{
  ℕ, true, false, Text, codes, starts_with, [], ◌∷◌, ◌++◌, Option, none, some, all, All, and-true,
  ◌≡◌, refl, ap, ◌∙◌, if◌then◌else◌, Bool-cases, inl, inr,
}
use senix.Locale.{is_nonempty}
use senix.Console.Certificates.{is_space}
use senix.Console.Effects.{Effect, call}
use senix.Console.Diagnostics.{
  Diagnosis, Report, Event, edit_host, edit_path, diagnose, copy_report, respond, copied, current,
  trim_start, keep_end, trim_end, trim, diagnosis_request, is_asked, start, copy_of, step,
}

-- `t` is the text without the spaces around it.
pub record IsTrimmed (s t : Text) : Type 0 where
  pub before : Text
  pub after : Text
  pub parts : s ≡ before ++ (t ++ after)
  pub spaces_before : all is_space before ≡ true
  pub spaces_after : all is_space after ≡ true
  pub stays : trim t ≡ t

abbrev StartSplit : Text → Type 0
StartSplit s = (pre : Text) × (s ≡ pre ++ trim_start s) × (all is_space pre ≡ true)

trim_start-split : (s : Text) → StartSplit s
unfolding trim_start
trim_start-split [] = ([], refl, refl)
trim_start-split (c ∷ s) = elim (Bool-cases (is_space c)) [
  | inl space ↦
      let (pre, parts, blank) = trim_start-split s in
      rw space (c ∷ pre, ap (c ∷◌) parts, rw space blank)
  | inr other ↦ rw other ([], refl, refl)
]

abbrev EndSplit : Text → Type 0
EndSplit s = (post : Text) × (s ≡ trim_end s ++ post) × (all is_space post ≡ true)

keep_end-split :
    (c : ℕ) (s rest post : Text)
    → s ≡ rest ++ post
    → all is_space post ≡ true
    → (last : Text) × (c ∷ s ≡ keep_end c rest ++ last) × (all is_space last ≡ true)
keep_end-split c s [] post parts blank = elim (Bool-cases (is_space c)) [
  | inl space ↦ rw space (c ∷ post, ap (c ∷◌) parts, rw space blank)
  | inr other ↦ rw other (post, ap (c ∷◌) parts, blank)
]
keep_end-split c s (d ∷ rest) post parts blank = (post, ap (c ∷◌) parts, blank)

trim_end-split : (s : Text) → EndSplit s
unfolding trim_end
trim_end-split [] = ([], refl, refl)
trim_end-split (c ∷ s) =
    let (post, parts, blank) = trim_end-split s in keep_end-split c s (trim_end s) post parts blank

trim_end-keep_end : (c : ℕ) (r : Text) → trim_end r ≡ r → trim_end (keep_end c r) ≡ keep_end c r
unfolding trim_end
trim_end-keep_end c [] h = elim (Bool-cases (is_space c)) [
  | inl space ↦ rw space refl
  | inr other ↦ rw other (rw other refl)
]
trim_end-keep_end c (d ∷ r) h = ap (keep_end c) h

trim_end_idempotent : (s : Text) → trim_end (trim_end s) ≡ trim_end s
unfolding trim_end
trim_end_idempotent [] = refl
trim_end_idempotent (c ∷ s) = trim_end-keep_end c (trim_end s) (trim_end_idempotent s)

-- Dropping spaces at the end leaves a first character that is no space.
trim_start-keep_end :
    (c : ℕ) (r : Text) → is_space c ≡ false → trim_start (keep_end c r) ≡ keep_end c r
unfolding trim_start
trim_start-keep_end c [] h = rw h (rw h refl)
trim_start-keep_end c (d ∷ r) h = rw h refl

trim_start-trim_end : (s : Text) → trim_start (trim_end (trim_start s)) ≡ trim_end (trim_start s)
unfolding trim_start trim_end
trim_start-trim_end [] = refl
trim_start-trim_end (c ∷ s) = elim (Bool-cases (is_space c)) [
  | inl space ↦ rw space (trim_start-trim_end s)
  | inr other ↦ rw other (trim_start-keep_end c (trim_end s) other)
]

trim_stays : (s : Text) → trim (trim s) ≡ trim s
unfolding trim
trim_stays s = ap trim_end (trim_start-trim_end s) ∙ trim_end_idempotent (trim_start s)

trim-IsTrimmed : (s : Text) → IsTrimmed s (trim s)
trim-IsTrimmed s =
    let (pre, parts, blank) = trim_start-split s in
    let (post, more, blank_end) = trim_end-split (trim_start s) in
    record {
      before = pre;
      after = post;
      parts = unfold trim in parts ∙ ap (pre ++◌) more;
      spaces_before = blank;
      spaces_after = blank_end;
      stays = trim_stays s;
    }

-- What is asked for is the typed host, which is not empty, and the typed path, which begins with a
-- slash, both without the spaces around them.
pub record IsFit (d : Diagnosis) (effect : Effect) : Type 0 where
  pub host : Text
  pub path : Text
  pub of_host : IsTrimmed d.host host
  pub of_path : IsTrimmed d.path path
  pub request : effect ≡ diagnosis_request host path
  pub has_host : is_nonempty host ≡ true
  pub is_rooted : starts_with path (codes "/") ≡ true

abbrev pub IsSound : Diagnosis → Effect → Type 0
IsSound d (call path method body) = IsFit d (call path method body)
IsSound d _ = Unit

start-IsSound : (d : Diagnosis) → All (IsSound d) (start d).1
start-IsSound d = elim (Bool-cases (is_asked d)) [
  | inl asked ↦
      let (has_host, is_rooted) = and-true (is_nonempty (trim d.host)) _ asked in
      rw asked (
        record {
          host = trim d.host;
          path = trim d.path;
          of_host = trim-IsTrimmed d.host;
          of_path = trim-IsTrimmed d.path;
          request = refl;
          has_host = has_host;
          is_rooted = is_rooted;
        },
        tt,
      )
  | inr other ↦ rw other tt
]

copy_of-IsSound : (d : Diagnosis) (report : Option Report) → All (IsSound d) (copy_of report)
copy_of-IsSound d none = tt
copy_of-IsSound d (some report) = (tt, tt)

-- Whatever happens to the diagnostics, a request that they send is for a host that is not empty and
-- a path that begins with a slash; these are the texts of the two fields without the spaces at both
-- ends, and have no more spaces there.
pub step-IsSound : (d : Diagnosis) (e : Event) → All (IsSound d) (step d e).1
unfolding step
step-IsSound d (edit_host s) = tt
step-IsSound d (edit_path s) = tt
step-IsSound d diagnose = elim d.busy as (λ b. All (IsSound d) (if b then (d, []) else start d).1) [
  | true ↦ tt
  | false ↦ start-IsSound d
]
step-IsSound d copy_report = copy_of-IsSound d d.report
step-IsSound d (respond answer) = tt
step-IsSound d (copied ok) = (tt, tt)
step-IsSound d (current route) = tt
