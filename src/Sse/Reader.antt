-- ===== src/Sse/Reader.antt =====
-- benchmarks/sse-load.mjs, `oneStream`: one response is read chunk by chunk, cut into events, and
-- each event is checked. What the platform gives is a parameter: `StringDecoder`, `JSON.parse`, and
-- the clock.
pub mod Cut
pub mod Faithful
pub mod Frames
pub mod Accepts
pub mod Parts
pub mod Drain
pub mod Sound
use senix.Prelude.{
  ℕ, zero, suc, ◌+◌, ◌*◌, ◌≡◌, Bool, true, false, not, String, str_eq, Text, codes, text_eq,
  starts_with, List, [], ◌∷◌, ◌++◌, Option, none, some, ltb, leb, length, drop, all, ◌==◌, ◌&&◌,
  ◌||◌, if◌then◌else◌, Bool-cases, get_elem?,
}
use senix.Decimal.{decimal}
use senix.Sse.Frame.{byte_length, token, payload, utf8}

-- A `StringDecoder`: `write` takes the bytes of a chunk and gives the text that they complete.
pub record Decoder : Type 1 where
  pub State : Type 0
  pub start : State
  pub write : State → List ℕ → Text × State
  pub end : State → Text

-- The own properties of the parsed data that the code looks at: a number, and two texts. `none` is
-- a property that is missing or of another type.
pub record Message : Type 0 where
  pub seq : Option ℕ
  pub token : Option Text
  pub padding : Option Text

pub record Platform : Type 1 where
  pub decoder : Decoder
  -- `JSON.parse`; `none` where it throws, or where the result has no properties to read
  pub parse : Text → Option Message
  pub Time : Type 0
  -- Math.round((later - earlier) * 1000)
  pub micros : Time → Time → ℕ
  -- the reading of `performance.now()` at the check of an event
  pub clock : ℕ → Time

pub record Parameters : Type 0 where
  pub events : ℕ
  pub data_bytes : ℕ

-- Why a stream fails: the `throw`s of the function, in the order of the code, and a `JSON.parse`
-- that throws.
pub data Failure : Type 0 where
  invalid_response event_framing malformed_json event_payload unexpected_size truncated : Failure

pub data Outcome {κ} (B : Type κ) : Type κ where
  returned : B → Outcome B
  thrown : Failure → Outcome B

-- What comes after a part of the function that may throw.
infixl 5 ◌>>=◌ ◌>>◌
abbrev pub ◌>>=◌ {κ μ} : {B : Type κ} {C : Type μ} → Outcome B → (B → Outcome C) → Outcome C
thrown why >>= rest = thrown why
returned b >>= rest = rest b

-- `if (!test) throw new Error(…)`
abbrev pub demand : Bool → Failure → Outcome (Unit {0})
demand false why = thrown why
demand true _ = returned tt

abbrev pub ◌>>◌ {κ} : {C : Type κ} → Outcome (Unit {0}) → Outcome C → Outcome C
test >> rest = test >>= λ _. rest

abbrev pub prepend : ℕ → Option (Text × Text) → Option (Text × Text)
prepend c none = none
prepend c (some (event, rest)) = some (c ∷ event, rest)

-- `buffer.indexOf('\n\n')`, with the two slices around the match.
unfoldable pub cut : Text → Option (Text × Text)
cut [] = none
cut (c ∷ s) =
    let later = prepend c (cut s) in
    if starts_with (c ∷ s) (codes "\n\n") then some ([], drop 1 s) else later

-- `event.split('\n')`; the first argument is the line read so far.
unfoldable pub split_lines : Text → Text → List Text
split_lines line [] = line ∷ []
split_lines line (c ∷ s) =
    let more = split_lines (line ++ c ∷ []) s in
    let next = line ∷ split_lines [] s in if c == b'\n' then next else more

abbrev pub is_number : Option ℕ → ℕ → Bool
is_number none n = false
is_number (some m) n = m == n

abbrev pub is_text : Option Text → Text → Bool
is_text none t = false
is_text (some s) t = text_eq s t

-- `typeof padding === 'string' && /^x*$/.test(padding)`
abbrev pub is_padding : Option Text → Bool
is_padding none = false
is_padding (some s) = all (λ c. c == b'x') s

abbrev pub require {ℓ} : {A : Type ℓ} → Option A → Failure → Outcome A
require none why = thrown why
require (some a) why = returned a

-- The two lines of an event; any other number of lines is refused.
abbrev pub framed : ℕ → List Text → Outcome Text
framed count (id ∷ line ∷ []) =
    demand (text_eq id (codes "id: " ++ decimal count) && starts_with line (codes "data: "))
      event_framing
    >> returned (drop 6 line)
framed count _ = thrown event_framing

abbrev pub first_or : Option ℕ → ℕ → Option ℕ
first_or none t = some t
first_or (some u) t = some u

module _ (platform : Platform) (parameters : Parameters) where
  open platform use {decoder, parse, Time, micros, clock}
  open parameters use {events, data_bytes}

  -- The local variables of the loop.
  pub record Progress : Type 0 where
    pub buffer : Text
    pub count : ℕ
    pub bytes : ℕ
    pub batches : ℕ
    pub first : Option ℕ
    pub previous : Option Time
    pub gaps : List ℕ

  abbrev pub initial : Progress
  initial = record {
    buffer = [];
    count = 0;
    bytes = 0;
    batches = 0;
    first = none;
    previous = none;
    gaps = [];
  }

  abbrev pub checked : ℕ → Text → Message → Outcome (Unit {0})
  checked count text message =
      demand
        (byte_length text == data_bytes
          && is_number message.seq count
          && is_text message.token token
          && is_padding message.padding)
        event_payload

  abbrev pub since : Option Time → Time → List ℕ → List ℕ
  since none now gaps = gaps
  since (some previous) now gaps = gaps ++ micros previous now ∷ []

  -- The rest of the loop's body, after the checks.
  unfoldable pub record_event : Time → Progress → Progress
  record_event started p = record p {
    first = first_or p.first (micros started (clock p.count));
    gaps = since p.previous (clock p.count) p.gaps;
    previous = some (clock p.count);
    count = p.count + 1;
  }

  unfoldable pub take_event : Time → Progress → Text → Outcome Progress
  take_event started p event = do
    text ← framed p.count (split_lines [] event)
    message ← require (parse text) malformed_json
    checked p.count text message
    returned (record_event started p)

  -- The inner loop. The buffer gets shorter in each round, so its length is fuel enough.
  unfoldable pub drain : ℕ → Time → Progress → Bool → Outcome (Progress × Bool)
  drain zero started p delivered = returned (p, delivered)
  drain (suc fuel) started p delivered = elim (cut p.buffer) [
    | none ↦ returned (p, delivered)
    | some (event, rest) ↦
        take_event started (record p { buffer = rest }) event >>= λ q. drain fuel started q true
  ]

  abbrev pub counted : Bool → Progress → Progress
  counted true p = record p { batches = p.batches + 1 }
  counted false p = p

  abbrev pub is_within : Progress → Bool
  is_within p = leb (length p.buffer) (data_bytes * 2 + 1024) && leb p.count events

  -- The body of the outer loop, over a chunk.
  unfoldable pub take_chunk :
      Time → Progress → decoder.State → List ℕ → Outcome (Progress × decoder.State)
  take_chunk started p s chunk = do
    let (text, s') = decoder.write s chunk
    let buffer = p.buffer ++ text
    (q, delivered) ←
        drain (length buffer) started (record p { bytes = p.bytes + length chunk; buffer = buffer })
          false
    demand (is_within (counted delivered q)) unexpected_size
    returned (counted delivered q, s')

  unfoldable pub take_chunks : Time → Progress → decoder.State → List (List ℕ) → Outcome Progress
  take_chunks started p s [] = returned (record p { buffer = p.buffer ++ decoder.end s })
  take_chunks started p s (chunk ∷ chunks) = do
    (q, s') ← take_chunk started p s chunk
    take_chunks started q s' chunks

  abbrev pub is_complete : Progress → Bool
  is_complete p = text_eq p.buffer [] && p.count == events

  -- `oneStream` on a response: its status, its content type and the chunks of its body.
  unfoldable pub one_stream : Time → ℕ → String → List (List ℕ) → Outcome Progress
  one_stream started status type chunks = do
    demand (status == 200 && str_eq type "text/event-stream") invalid_response
    p ← take_chunks started initial decoder.start chunks
    demand (is_complete p) truncated
    returned p
