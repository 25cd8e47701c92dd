-- ===== src/Locale/Coverage.antt =====
-- The dictionary as a whole: what `web/src/locale.test.js` asks of each entry, for every entry.
use senix.Prelude.{
  Bool, true, String, Text, text_eq, text_eq_iff, get_own, List, [], ◌∷◌, ◌++◌, none, some, ◌≡◌,
  ◌⊎◌, ◌↔◌, ap, refl, arith, All, all, any, ◌&&◌, Bool-cases, Option-cases, and-true, inl, inr,
  str_eq, if◌then◌else◌,
}
use senix.Locale.{
  Piece, literal, field, text, Values, replacement, render, interpolate, scan, english, template_of,
  translate,
}
use senix.Locale.Templates.{fields}

abbrev pub fields_of : Text → List Text
fields_of t = fields (scan none t)

abbrev contains : List Text → Text → Bool
contains names name = any (text_eq name) names

abbrev same_fields : Text → Text → Bool
same_fields s t =
    all (contains (fields_of s)) (fields_of t) && all (contains (fields_of t)) (fields_of s)

abbrev agree : List (Text × Text) → Bool
agree = all (λ e. same_fields e.0 e.1)

english_agrees : agree english ≡ true
unfolding scan fields
english_agrees = refl

agree-get_own :
    (entries : List (Text × Text)) (source : Text) {t : Text}
    → agree entries ≡ true
    → get_own source entries ≡ some t
    → same_fields source t ≡ true
agree-get_own [] source a e = cc
agree-get_own ((k, v) ∷ entries) source {t} a e =
    let (here, later) = and-true _ (agree entries) a in
    elim (Bool-cases (text_eq k source)) [
      | inl found ↦
          let key : k ≡ source = (text_eq_iff k source).0 found in
          let value : v ≡ t = ground arith in rw (← key, ← value) here
      | inr other ↦ agree-get_own entries source later (ground arith)
    ]

module _ (P : Text → Type 0) where
  All-contains :
      (names : List Text) (name : Text) → All P names → contains names name ≡ true → P name
  All-contains [] name h c = cc
  All-contains (n ∷ names) name (p, h) c = elim (Bool-cases (text_eq name n)) [
    | inl same ↦ rw ((text_eq_iff name n).0 same) p
    | inr other ↦ All-contains names name h (ground arith)
  ]

  All-subset :
      (names more : List Text) → All P names → all (contains names) more ≡ true → All P more
  All-subset names [] h c = tt
  All-subset names (m ∷ more) h c =
      let (here, later) = and-true (contains names m) (all (contains names) more) c in
      (All-contains names m h here, All-subset names more h later)

abbrev SameFields : Text → Text → Type 0
SameFields s t = (s ≡ t) ⊎ (same_fields s t ≡ true)

chosen-SameFields :
    (locale : String) (source t : Text)
    → same_fields source t ≡ true
    → SameFields source (if str_eq locale "en" then t else source)
chosen-SameFields locale source t h = elim (Bool-cases (str_eq locale "en")) [
  | inl english ↦ rw english (inr h)
  | inr other ↦ rw other (inl refl)
]

template_of-SameFields :
    (locale : String) (source : Text) → SameFields source (template_of locale source)
unfolding template_of
template_of-SameFields locale source = elim (Option-cases (get_own source english)) [
  | inl absent ↦ rw (template_of, absent) (inl refl)
  | inr (t, found) ↦
      rw (template_of, found)
        (chosen-SameFields locale source t (agree-get_own english source english_agrees found))
]

-- Whatever holds of every field of the source message holds of every field of the template that
-- `translate` chooses for it in any language, and the other way round.
pub template_of-fields :
    (locale : String) (source : Text) (P : Text → Type 0)
    → All P (fields_of source) ↔ All P (fields_of (template_of locale source))
template_of-fields locale source P = elim (template_of-SameFields locale source) [
  | inl same ↦ rw (← same) (λ h. h, λ h. h)
  | inr agreed ↦
      let (to, from) = and-true _ _ agreed in
      (
        λ h. All-subset P (fields_of source) (fields_of (template_of locale source)) h to,
        λ h. All-subset P (fields_of (template_of locale source)) (fields_of source) h from,
      )
]

abbrev pub IsGiven : Values → Text → Type 0
IsGiven values name = (v : Text) × (get_own name values ≡ some v)

-- The value of a field, or what `default` makes of its name.
abbrev pub value_or : (Text → Text) → Values → Text → Text
value_or default values name = elim (get_own name values) [ none ↦ default name | some v ↦ v ]

render-given :
    (default : Text → Text) (values : Values) (ps : List Piece)
    → All (IsGiven values) (fields ps)
    → render (replacement values) ps ≡ render (value_or default values) ps
unfolding render fields
render-given default values [] h = refl
render-given default values (literal c ∷ ps) h = ap (◌∷◌ c) (render-given default values ps h)
render-given default values (field name ∷ ps) ((v, found), h) =
    rw (replacement, value_or, found) (ap (λ (t : Text). v ++ t) (render-given default values ps h))

-- If every field of the Chinese source message is given a value, then the message in any language
-- is its template with each field replaced by its value: what stands for a field with no value
-- (`default`) does not show.
pub translate_covered :
    (locale : String) (source : Text) (values : Values) (default : Text → Text)
    → All (IsGiven values) (fields_of source)
    → translate locale (text source) values
      ≡ render (value_or default values) (scan none (template_of locale source))
unfolding translate interpolate
translate_covered locale source values default h =
    render-given default values (scan none (template_of locale source))
      ((template_of-fields locale source (IsGiven values)).0 h)
