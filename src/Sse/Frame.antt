-- ===== src/Sse/Frame.antt =====
-- benchmarks/sse-backend.mjs: the frames that the fixture server prepares, and their size in UTF-8.
pub mod Laws
use senix.Decimal.{decimal}
use senix.Prelude.{
  ℕ, zero, suc, ◌+◌, ◌-◌, ◌/◌, ◌%◌, ◌*◌, Bool, Text, codes, List, [], ◌∷◌, ◌++◌, ltb, leb, false,
  ◌&&◌, replicate, if◌then◌else◌,
}

-- The UTF-8 encoding of a code unit that is no surrogate.
abbrev pub encode : ℕ → List ℕ
encode c =
    if ltb c 128
    then c ∷ []
    else if ltb c 2048
    then (192 + c / 64) ∷ (128 + c % 64) ∷ []
    else (224 + c / 4096) ∷ (128 + c / 64 % 64) ∷ (128 + c % 64) ∷ []

abbrev is_high_surrogate : ℕ → Bool
is_high_surrogate c = leb 55296 c && ltb c 56320

abbrev is_low_surrogate : ℕ → Bool
is_low_surrogate c = leb 56320 c && ltb c 57344

-- The character beyond U+FFFF of a pair of surrogates.
abbrev pair_value : ℕ → ℕ → ℕ
pair_value high low = 65536 + (high - 55296) * 1024 + (low - 56320)

abbrev pair_bytes : ℕ → List ℕ
pair_bytes p =
    (240 + p / 262144) ∷ (128 + p / 4096 % 64) ∷ (128 + p / 64 % 64) ∷ (128 + p % 64) ∷ []

-- A high surrogate: its pair is written at once, and U+FFFD if it is on its own.
abbrev encode_high : ℕ → Text → List ℕ
encode_high c [] = encode 65533
encode_high c (d ∷ s) = if is_low_surrogate d then pair_bytes (pair_value c d) else encode 65533

-- A code unit, with whether a high surrogate is in front of it, and what follows.
abbrev encode_unit : Bool → ℕ → Text → List ℕ
encode_unit paired c s =
    if is_high_surrogate c
    then encode_high c s
    else if is_low_surrogate c
    then if paired then [] else encode 65533
    else encode c

unfoldable utf8_from : Bool → Text → List ℕ
utf8_from paired [] = []
utf8_from paired (c ∷ s) = encode_unit paired c s ++ utf8_from (is_high_surrogate c) s

-- `Buffer.from`
unfoldable pub utf8 : Text → List ℕ
unfolding utf8_from
utf8 s = utf8_from false s

-- A surrogate on its own is written as U+FFFD, which takes three bytes too.
abbrev unit_bytes : ℕ → ℕ
unit_bytes c = if ltb c 128 then 1 else if ltb c 2048 then 2 else 3

-- The bytes from a code unit on, and whether the one before is a high surrogate, counted with three
-- bytes: the low surrogate that completes the pair adds one, so that a pair takes four.
unfoldable bytes_from : Bool → Text → ℕ
bytes_from high [] = 0
bytes_from high (c ∷ s) =
    (if high && is_low_surrogate c then 1 else unit_bytes c) + bytes_from (is_high_surrogate c) s

-- `Buffer.byteLength`
unfoldable pub byte_length : Text → ℕ
unfolding bytes_from
byte_length s = bytes_from false s

abbrev pub token : Text
token = codes "你好"

-- `JSON.stringify({ seq, token: '你好', padding })`, for a padding with nothing to escape.
unfoldable pub payload : ℕ → Text → Text
payload seq padding =
    codes "{\"seq\":"
    ++ (decimal seq ++ (codes ",\"token\":\"你好\",\"padding\":\"" ++ (padding ++ codes "\"}")))

unfoldable pub padding_of : ℕ → ℕ → Text
padding_of data_bytes seq = replicate (data_bytes - byte_length (payload seq [])) b'x'

-- The two lines of a frame, of the text `id: ${seq}\ndata: ${data}\n\n`.
unfoldable pub id_line : ℕ → Text
id_line seq = codes "id: " ++ decimal seq

unfoldable pub data_line : ℕ → ℕ → Text
data_line data_bytes seq = codes "data: " ++ payload seq (padding_of data_bytes seq)

abbrev pub event_text : ℕ → ℕ → Text
event_text data_bytes seq = id_line seq ++ (b'\n' ∷ data_line data_bytes seq)

unfoldable pub frame : ℕ → ℕ → Text
frame data_bytes seq = event_text data_bytes seq ++ (b'\n' ∷ b'\n' ∷ [])

-- `Array.from({ length: events }, …)`, from the frame with number `seq` on, as a response body
-- holds the frames: one behind the other.
unfoldable pub body_text : ℕ → ℕ → ℕ → Text
body_text data_bytes seq zero = []
body_text data_bytes seq (suc events) =
    frame data_bytes seq ++ body_text data_bytes (seq + 1) events
