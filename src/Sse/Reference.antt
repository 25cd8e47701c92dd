-- ===== src/Sse/Reference.antt =====
-- A platform that meets what the benchmark relies on: an incremental UTF-8 decoder for characters
-- of one, two and three bytes, and a reader of the one JSON object that the fixture server writes.
use senix.Prelude.{
  ℕ, zero, suc, ◌+◌, ◌-◌, ◌*◌, true, false, Text, codes, text_eq, starts_with, List, [], ◌∷◌, ◌++◌,
  Option, none, some, ◌≡◌, refl, sym, ap, ◌∙◌, arith, All, drop, length, replicate, ltb,
  if◌then◌else◌, append_assoc,
}
use senix.Decimal.{decimal, read_number, read_number-digits}
use senix.Sse.Frame.{encode, utf8, token, payload}
use senix.Sse.Frame.Laws.{utf8-cons}
use senix.Sse.Reader.{Decoder, Message, Platform}
use senix.Sse.Reader.Faithful.{decoded, state_after, joined, IsCharacter, IsFaithful}

-- The bytes of a character that is not complete yet.
abbrev pub feed_byte : List ℕ → ℕ → Text × List ℕ
feed_byte [] b = if ltb b 128 then (b ∷ [], []) else ([], b ∷ [])
feed_byte (a ∷ []) b =
    if ltb a 224 then (((a - 192) * 64 + (b - 128)) ∷ [], []) else ([], a ∷ b ∷ [])
feed_byte (a ∷ m ∷ _) b = (((a - 224) * 4096 + (m - 128) * 64 + (b - 128)) ∷ [], [])

unfoldable pub feed : List ℕ → List ℕ → Text × List ℕ
feed s [] = ([], s)
feed s (b ∷ bytes) =
    let (text, s') = feed_byte s b in let (more, s'') = feed s' bytes in (text ++ more, s'')

-- Bytes left over at the end are shown as a replacement character.
abbrev pub left_over : List ℕ → Text
left_over [] = []
left_over (_ ∷ _) = 65533 ∷ []

abbrev pub utf8_decoder : Decoder
utf8_decoder = record { State = List ℕ; start = []; write = feed; end = left_over }

feed-append :
    (s x y : List ℕ)
    → feed s (x ++ y) ≡ ((feed s x).0 ++ (feed (feed s x).1 y).0, (feed (feed s x).1 y).1)
unfolding feed
feed-append s [] y = refl
feed-append s (b ∷ x) y =
    let ih = feed-append (feed_byte s b).1 x y in
    rw ih (
      ap (λ (t : Text). (t, (feed (feed (feed_byte s b).1 x).1 y).1))
        (sym (append_assoc (feed_byte s b).0 _ _)))

feed-encode : (c : ℕ) → IsCharacter c → feed [] (encode c) ≡ (c ∷ [], [])
unfolding feed
feed-encode c h = ground arith

pub feed-utf8 : (t : Text) → All IsCharacter t → feed [] (utf8 t) ≡ (t, [])
feed-utf8 [] h = unfold feed utf8 in refl
feed-utf8 (c ∷ t) (small, h) =
    ap (feed []) (utf8-cons c t small)
    ∙ feed-append [] (encode c) (utf8 t)
    ∙ rw (feed-encode c small) (rw (feed-utf8 t h) refl)

decoded-feed :
    (s : List ℕ) (chunks : List (List ℕ))
    → (decoded utf8_decoder s chunks ≡ (feed s (joined chunks)).0)
      × (state_after utf8_decoder s chunks ≡ (feed s (joined chunks)).1)
unfolding decoded state_after
decoded-feed s [] = (unfold feed in refl, unfold feed in refl)
decoded-feed s (chunk ∷ chunks) =
    let (text, state) = decoded-feed (feed s chunk).1 chunks in
    let whole = feed-append s chunk (joined chunks) in
    (
      ap (λ (t : Text). (feed s chunk).0 ++ t) text ∙ ap (λ (r : Text × List ℕ). r.0) (sym whole),
      state ∙ ap (λ (r : Text × List ℕ). r.1) (sym whole),
    )

-- `text` without the prefix.
abbrev after_prefix : Text → Text → Option Text
after_prefix text prefix =
    if starts_with text prefix then some (drop (length prefix) text) else none

-- The x's at the head of a text, if the closing of the object is behind them.
unfoldable pub read_padding : Text → Option Text
read_padding [] = none
read_padding (c ∷ s) = elim (text_eq (c ∷ s) (codes "\"}")) [
  | true ↦ some []
  | false ↦ elim (read_padding s) [ none ↦ none | some more ↦ some (c ∷ more) ]
]

read_padding-replicate :
    (n : ℕ) → read_padding (replicate n b'x' ++ codes "\"}") ≡ some (replicate n b'x')
unfolding read_padding
read_padding-replicate zero = refl
read_padding-replicate (suc n) = ground (arith, read_padding-replicate n)

read_object : ℕ → Option Text → Option Message
read_object seq none = none
read_object seq (some text) = elim (read_padding text) [
  | none ↦ none
  | some padding ↦ some (record { seq = some seq; token = some token; padding = some padding })
]

read_rest : ℕ × Text → Option Message
unfolding read_object
read_rest (seq, text) =
    read_object seq (after_prefix text (codes ",\"token\":\"你好\",\"padding\":\""))

read_start : Option Text → Option Message
unfolding read_rest
read_start none = none
read_start (some text) = read_rest (read_number 0 text)

unfoldable pub read_message : Text → Option Message
unfolding read_start
read_message text = read_start (after_prefix text (codes "{\"seq\":"))

read_message-payload :
    (seq n : ℕ)
    → read_message (payload seq (replicate n b'x'))
      ≡ some (record { seq = some seq; token = some token; padding = some (replicate n b'x') })
unfolding payload read_message read_start read_rest read_object
read_message-payload seq n =
    let tail = codes ",\"token\":\"你好\",\"padding\":\"" ++ (replicate n b'x' ++ codes "\"}") in
    let number : read_number 0 (decimal seq ++ tail) ≡ (seq, tail) =
      unfold decimal in
      read_number-digits (suc seq) seq tail (omega arith) ∙ unfold read_number in refl in
    rw number (rw (read_object, read_padding-replicate n) refl)

-- One platform, with the numbers of the events as the times of their checks.
abbrev pub reference : Platform
reference = record {
  decoder = utf8_decoder;
  parse = read_message;
  Time = ℕ;
  micros = λ earlier later. later - earlier;
  clock = λ n. n * 50000;
}

pub reference-IsFaithful : IsFaithful reference
reference-IsFaithful = record {
  decodes = λ t chunks h same.
      (decoded-feed [] chunks).0
      ∙ ap (λ (bytes : List ℕ). (feed [] bytes).0) same
      ∙ ap (λ (r : Text × List ℕ). r.0) (feed-utf8 t h);
  ends = λ t chunks h same. ap left_over (
      (decoded-feed [] chunks).1
      ∙ ap (λ (bytes : List ℕ). (feed [] bytes).1) same
      ∙ ap (λ (r : Text × List ℕ). r.1) (feed-utf8 t h));
  parses = read_message-payload;
}
