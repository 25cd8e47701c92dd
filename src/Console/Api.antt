-- ===== src/Console/Api.antt =====
-- web/src/main.jsx, `api` and `errorMessage`: the request that is made of a call, and what becomes
-- of the server's reply. `JSON.parse` is a parameter.
pub mod Laws
mod Tests
use senix.Prelude.{
  ℕ, Bool, true, false, not, String, str_eq, Text, codes, List, [], ◌∷◌, ◌++◌, Option, none, some,
  any, ◌||◌, if◌then◌else◌, text_eq,
}
use senix.Locale.{Entry, text, notice}

-- A JSON value; a number is given by its text in JavaScript.
mutual
  pub data Value : Type 0 where
    null : Value
    boolean : Bool → Value
    number : Text → Value
    string : Text → Value
    array : Items → Value
    object : Fields → Value

  pub data Items : Type 0 where
    nil : Items
    cons : Value → Items → Items

  pub data Fields : Type 0 where
    end : Fields
    field : String → Value → Fields → Fields

abbrev pub member_of : String → Fields → Option Value
member_of name end = none
member_of name (field key value fields) =
    let rest = member_of name fields in if str_eq key name then some value else rest

-- `value?.name`, for a value that is no string and no array
abbrev pub member : String → Value → Option Value
member name (object fields) = member_of name fields
member name _ = none

abbrev pub is_truthy : Value → Bool
is_truthy null = false
is_truthy (boolean b) = b
is_truthy (number n) = not (text_eq n (codes "0"))
is_truthy (string []) = false
is_truthy (string (_ ∷ _)) = true
is_truthy _ = true

-- `String(value)`; the text of an array is a parameter.
abbrev pub to_text : (Items → Text) → Value → Text
to_text join null = codes "null"
to_text join (boolean true) = codes "true"
to_text join (boolean false) = codes "false"
to_text join (number n) = n
to_text join (string s) = s
to_text join (array items) = join items
to_text join (object fields) = codes "[object Object]"

-- What a caller hands to `api`.
pub record Options : Type 0 where
  pub method : Option String
  pub headers : List (String × String)
  pub body : Option Value

pub record Request : Type 0 where
  pub path : String
  pub method : String
  pub headers : List (String × String)
  pub body : Option Value

unfoldable pub get_header : String → List (String × String) → Option String
get_header name [] = none
get_header name ((key, value) ∷ headers) =
    let rest = get_header name headers in if str_eq key name then some value else rest

-- `headers[name] = value`
unfoldable pub set_header : String → String → List (String × String) → List (String × String)
set_header name value [] = (name, value) ∷ []
set_header name value ((key, old) ∷ headers) =
    let rest = set_header name value headers in
    if str_eq key name then (name, value) ∷ headers else (key, old) ∷ rest

abbrev pub is_safe : String → Bool
is_safe method = str_eq method "GET" || str_eq method "HEAD"

-- `options.method || "GET"`
abbrev pub method_of : Option String → String
method_of none = "GET"
method_of (some method) = if str_eq method "" then "GET" else method

abbrev pub with_content_type : Option Value → List (String × String) → List (String × String)
with_content_type none headers = headers
with_content_type (some _) headers = set_header "Content-Type" "application/json" headers

unfoldable pub request_of : String → Options → Request
request_of path options =
    let method = method_of options.method in
    let typed = with_content_type options.body options.headers in
    record {
      path = path;
      method = method;
      headers = if is_safe method then typed else set_header "X-Senix-CSRF" "1" typed;
      body = options.body;
    }

-- What `fetch` comes to: a response with its whole text, or a rejection with a message.
pub data Reply : Type 0 where
  response : (ok : Bool) (status : ℕ) (body : Text) → Reply
  rejected : Text → Reply

pub record ApiError : Type 0 where
  pub message : Text
  pub code : Option Value
  pub evidence : Option Value
  pub status : Option ℕ

pub data Answer {ℓ} (A : Type ℓ) : Type ℓ where
  answered : A → Answer A
  failed : ApiError → Answer A

-- An error that is thrown by the platform, and has only a message.
abbrev pub plain_error : Text → ApiError
plain_error message = record { message = message; code = none; evidence = none; status = none }

-- `new Error(data?.message || "")`
abbrev pub error_text : (Items → Text) → Option Value → Text
error_text join none = []
error_text join (some value) = if is_truthy value then to_text join value else []

module _ (parse : Text → Option Value) (syntax_error : Text → Text) (join : Items → Text) where
  abbrev pub parse_body : Text → Answer Value
  parse_body [] = answered null
  parse_body (c ∷ body) = elim (parse (c ∷ body)) [
    | none ↦ failed (plain_error (syntax_error (c ∷ body)))
    | some value ↦ answered value
  ]

  abbrev pub settle : Bool → ℕ → Answer Value → Answer Value
  settle ok status (failed e) = failed e
  settle true status (answered value) = answered value
  settle false status (answered value) = failed (record {
    message = error_text join (member "message" value);
    code = member "code" value;
    evidence = member "evidence" value;
    status = some status;
  })

  -- The rest of `api`, behind `fetch`.
  unfoldable pub answer_of : Reply → Answer Value
  answer_of (rejected message) = failed (plain_error message)
  answer_of (response ok status body) = settle ok status (parse_body body)

-- `errorMessage`; the status is given as its text.
unfoldable pub error_message : (ℕ → Text) → ApiError → Entry
error_message show e = elim e.message [
  | [] ↦
      notice (some (codes "请求失败（{status}）"))
        (some ((codes "status", elim e.status [ none ↦ codes "?" | some n ↦ show n ]) ∷ []))
  | c ∷ rest ↦ text (c ∷ rest)
]

abbrev pub code_is : String → ApiError → Bool
code_is code e = elim e.code [
  | none ↦ false
  | some value ↦ elim value [ string s ↦ text_eq s (codes code) | _ ↦ false ]
]

abbrev pub one_of : List String → String → Bool
one_of names name = any (str_eq name) names

pub data Tone : Type 0 where
  good warn bad muted : Tone

unfoldable pub state_tone : String → Tone
state_tone value =
    if one_of ("SERVING" ∷ "HEALTHY" ∷ "SUCCEEDED" ∷ "READY" ∷ "PASSED" ∷ "DRAINED" ∷ []) value
    then good
    else if one_of ("DRAINING" ∷ "UNKNOWN" ∷ "BLOCKED" ∷ []) value
    then warn
    else bad
