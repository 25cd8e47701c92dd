-- ===== src/Console/Api/Laws.antt =====
-- What every request carries, what becomes of every reply, and with what text an error is shown.
use senix.Prelude.{
  ℕ, Bool, true, false, not, String, str_eq, str_eq_iff, Text, codes, text_eq, get_own, List, [],
  ◌∷◌, Option, none, some, ◌≡◌, ◌≢◌, ◌↔◌, refl, ap, arith, Bool-cases, Option-cases, inl, inr,
  if◌then◌else◌, all, and-true, ◌&&◌, All,
}
use senix.Locale.{
  Entry, text, notice, english, template_of, translate, interpolate, scan, render, is_nonempty,
  Piece, literal, field,
}
use senix.Locale.Templates.{IsMissing, fields, interpolate_missing}
use senix.Console.Api.{
  Value, null, Items, Options, get_header, set_header, is_safe, method_of, with_content_type,
  request_of, Reply, response, rejected, ApiError, Answer, answered, failed, parse_body, settle,
  answer_of, error_message,
}

get_header-set_header :
    (name value : String) (headers : List (String × String)) (other : String)
    → get_header other (set_header name value headers)
      ≡ (if str_eq name other then some value else get_header other headers)
unfolding get_header set_header
get_header-set_header name value [] other = refl
get_header-set_header name value ((key, old) ∷ headers) other = ground (
  arith,
  get_header-set_header name value headers other,
  str_eq_iff key name,
  str_eq_iff key other,
  str_eq_iff name other,
)

-- The header with this name, as the caller gave it.
abbrev given : Options → String → Option String
given options name = get_header name options.headers

get_header-with_content_type :
    (body : Option Value) (headers : List (String × String)) (name : String)
    → get_header name (with_content_type body headers) ≡ (
        if str_eq "Content-Type" name
        then elim body [ none ↦ get_header name headers | some _ ↦ some "application/json" ]
        else get_header name headers)
get_header-with_content_type none headers name = ground arith
get_header-with_content_type (some body) headers name =
    get_header-set_header "Content-Type" "application/json" headers name

-- Every request carries the CSRF header just if its method is neither GET nor HEAD (unless the
-- caller sets it), a JSON content type just if it has a body (unless the caller sets it), and every
-- other header as the caller gave it.
pub request_of-headers :
    (path : String) (options : Options) (name : String)
    → get_header name (request_of path options).headers ≡ (
        if str_eq "X-Senix-CSRF" name && not (is_safe (method_of options.method))
        then some "1"
        else if str_eq "Content-Type" name
        then elim options.body [ none ↦ given options name | some _ ↦ some "application/json" ]
        else given options name)
unfolding request_of
request_of-headers path options name =
    let typed = with_content_type options.body options.headers in
    let content = get_header-with_content_type options.body options.headers name in
    let marked = get_header-set_header "X-Senix-CSRF" "1" typed name in
    elim (Bool-cases (is_safe (method_of options.method))) [
      | inl safe ↦ rw safe (ground (arith, content))
      | inr unsafe ↦ rw unsafe (ground (arith, content, marked))
    ]

module _ (parse : Text → Option Value) (syntax_error : Text → Text) (join : Items → Text) where
  -- The value of a body: an empty one counts as null.
  abbrev pub body_value : Text → Option Value
  body_value [] = some null
  body_value (c ∷ body) = parse (c ∷ body)

  parse_body-eq-answered :
      (body : Text) (value : Value)
      → parse_body parse syntax_error join body ≡ answered value ↔ body_value body ≡ some value
  parse_body-eq-answered [] value = (λ h. ground arith, λ h. ground arith)
  parse_body-eq-answered (c ∷ body) value = elim (Option-cases (parse (c ∷ body))) [
    | inl absent ↦ rw absent (λ h. ground arith, λ h. ground arith)
    | inr (v, found) ↦ rw found (λ h. ground arith, λ h. ground arith)
  ]

  settle-eq-answered :
      (ok : Bool) (status : ℕ) (answer : Answer Value) (value : Value)
      → settle parse syntax_error join ok status answer ≡ answered value
        ↔ (ok ≡ true) × (answer ≡ answered value)
  settle-eq-answered ok status (failed e) value = (λ h. cc, λ h. cc)
  settle-eq-answered true status (answered v) value = (λ h. (refl, h), λ h. h.1)
  settle-eq-answered false status (answered v) value = (λ h. cc, λ h. cc)

  -- A call gives a value just if the server replied with success and a body that is empty, for
  -- null, or the JSON text of the value. In all other cases it fails.
  pub answer_of-eq-answered :
      (reply : Reply) (value : Value)
      → answer_of parse syntax_error join reply ≡ answered value ↔ (
          (status : ℕ) × (body : Text) × (reply ≡ response true status body)
          × (body_value body ≡ some value))
  unfolding answer_of
  answer_of-eq-answered (rejected message) value = (λ h. cc, λ (s, b, same, _). cc)
  answer_of-eq-answered (response ok status body) value =
      let (to, from) =
        settle-eq-answered ok status (parse_body parse syntax_error join body) value in
      let (to', from') = parse_body-eq-answered body value in
      (
        λ h. (status, body, ap (λ (b : Bool). response b status body) (to h).0, to' (to h).1),
        λ (s, b, same, v).
            let good : ok ≡ true = ground arith in
            let whole : body ≡ b = ground arith in from (good, from' (rw whole v)),
      )

abbrev all_shown : List (Text × Text) → Bool
all_shown = all (λ e. is_nonempty e.1)

english_shown : all_shown english ≡ true
english_shown = refl

get_own-shown :
    (entries : List (Text × Text)) (source : Text) {t : Text}
    → all_shown entries ≡ true
    → get_own source entries ≡ some t
    → is_nonempty t ≡ true
get_own-shown [] source a e = cc
get_own-shown ((k, v) ∷ entries) source {t} a e =
    let (here, later) = and-true (is_nonempty v) (all_shown entries) a in
    elim (Bool-cases (text_eq k source)) [
      | inl found ↦ let value : v ≡ t = ground arith in rw (← value) here
      | inr other ↦ get_own-shown entries source later (ground arith)
    ]

chosen_shown :
    (locale : String) (source t : Text)
    → is_nonempty source ≡ true
    → is_nonempty t ≡ true
    → is_nonempty (if str_eq locale "en" then t else source) ≡ true
chosen_shown locale source t h k = elim (Bool-cases (str_eq locale "en")) [
  | inl english ↦ rw english k
  | inr other ↦ rw other h
]

template_of-shown :
    (locale : String) (source : Text)
    → is_nonempty source ≡ true
    → is_nonempty (template_of locale source) ≡ true
unfolding template_of
template_of-shown locale source h = elim (Option-cases (get_own source english)) [
  | inl absent ↦ rw (template_of, absent) h
  | inr (t, found) ↦
      let shown = get_own-shown english source english_shown found in
      rw (template_of, found) (chosen_shown locale source t h shown)
]

none_given : (ps : List Piece) → All (IsMissing []) (fields ps)
unfolding fields
none_given [] = tt
none_given (literal c ∷ ps) = none_given ps
none_given (field name ∷ ps) = (refl, none_given ps)

ne_nil : (t : Text) → is_nonempty t ≡ true → t ≢ []
ne_nil [] h = cc
ne_nil (c ∷ t) h = cc

shown_text :
    (locale : String) (source : Text)
    → is_nonempty source ≡ true
    → is_nonempty (translate locale (text source) []) ≡ true
unfolding translate
shown_text locale source h =
    let template = template_of locale source in
    rw (interpolate_missing [] template (none_given (scan none template)))
      (template_of-shown locale source h)

-- The message for a reply with no text of its own.
abbrev unnamed : Text → Entry
unnamed status = notice (some (codes "请求失败（{status}）")) (some ((codes "status", status) ∷ []))

shown_unnamed :
    (locale : String) (status : Text) → is_nonempty (translate locale (unnamed status) []) ≡ true
unfolding translate template_of interpolate scan render
shown_unnamed locale status = elim (Bool-cases (str_eq locale "en")) [
  | inl english ↦ rw english refl
  | inr other ↦ rw other refl
]

-- No error is shown as an empty text, in any language, whatever message the server gave.
pub translate-error_message-ne-nil :
    (locale : String) (show : ℕ → Text) (e : ApiError)
    → translate locale (error_message show e) [] ≢ []
unfolding error_message
translate-error_message-ne-nil locale show e =
    elim e.message
      as (λ m.
        translate locale
          (elim m [
            | [] ↦ unnamed (elim e.status [ none ↦ codes "?" | some n ↦ show n ])
            | c ∷ rest ↦ text (c ∷ rest)
          ])
          []
        ≢ []) [
          | [] ↦
              ne_nil _ (shown_unnamed locale (elim e.status [ none ↦ codes "?" | some n ↦ show n ]))
          | c ∷ rest ↦ ne_nil _ (shown_text locale (c ∷ rest) refl)
        ]
