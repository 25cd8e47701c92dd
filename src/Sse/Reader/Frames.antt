-- ===== src/Sse/Reader/Frames.antt =====
-- The frames of the fixture server as the reader meets them.
use senix.Prelude.{
  ℕ, zero, suc, ◌+◌, ◌-◌, ◌*◌, ◌^◌, ◌≤◌, ◌<◌, Text, codes, [], ◌∷◌, ◌++◌, none, some, ◌≡◌, refl, ap,
  ◌∙◌, arith, All, All-append, length, length-append, replicate, append_assoc,
}
use native.Mathlib.Decide.{dec_le}
use senix.Sse.Reader.Faithful.{IsCharacter}
use senix.Decimal.{decimal}
use senix.Sse.Frame.{
  byte_length, payload, padding_of, id_line, data_line, event_text, frame, body_text,
}
use senix.Sse.Frame.Laws.{
  InLine, IsAscii, decimal-IsAscii, All-weaken, decimal-InLine, byte_length-decimal-le,
  byte_length-payload-padding_of, length-le-byte_length,
}
use senix.Sse.Reader.{cut, split_lines}
use senix.Sse.Reader.Cut.{cut_two_lines, split_lines_two}

All-replicate : (n c : ℕ) → InLine c → All InLine (replicate n c)
All-replicate zero c h = tt
All-replicate (suc n) c h = (h, All-replicate n c h)

pub id_line-InLine : (seq : ℕ) → All InLine (id_line seq)
unfolding id_line
id_line-InLine seq =
    All-append InLine (codes "id: ") (decimal seq) (omega arith) (decimal-InLine seq)

payload-InLine : (seq : ℕ) (padding : Text) → All InLine padding → All InLine (payload seq padding)
unfolding payload
payload-InLine seq padding h = All-append InLine (codes "{\"seq\":") _ (omega arith) (
    All-append InLine (decimal seq) _ (decimal-InLine seq) (
      All-append InLine (codes ",\"token\":\"你好\",\"padding\":\"") _ (omega arith)
        (All-append InLine padding _ h (omega arith))))

pub padding_of-InLine : (data_bytes seq : ℕ) → All InLine (padding_of data_bytes seq)
unfolding padding_of
padding_of-InLine data_bytes seq = All-replicate _ b'x' (omega arith)

-- The second line, behind its first code unit.
pub data_line-InLine :
    (data_bytes seq : ℕ)
    → (more : Text) × (data_line data_bytes seq ≡ b'd' ∷ more) × All InLine more
unfolding data_line
data_line-InLine data_bytes seq = (
  codes "ata: " ++ payload seq (padding_of data_bytes seq),
  refl,
  All-append InLine (codes "ata: ") _ (omega arith)
      (payload-InLine seq _ (padding_of-InLine data_bytes seq)),
)

-- The first event of a text that begins with a frame is that frame's.
pub cut-frame :
    (data_bytes seq : ℕ) (tail : Text)
    → cut (frame data_bytes seq ++ tail) ≡ some (event_text data_bytes seq, tail)
cut-frame data_bytes seq tail =
    let (more, line, h) = data_line-InLine data_bytes seq in
    unfold frame in
    ap cut (append_assoc (event_text data_bytes seq) (b'\n' ∷ b'\n' ∷ []) tail)
    ∙ rw line (cut_two_lines (id_line seq) b'd' more tail (id_line-InLine seq) (omega arith) h)

-- The lines of a frame's event.
pub split_lines-event_text :
    (data_bytes seq : ℕ)
    → split_lines [] (event_text data_bytes seq) ≡ id_line seq ∷ data_line data_bytes seq ∷ []
split_lines-event_text data_bytes seq =
    let (more, line, h) = data_line-InLine data_bytes seq in
    let whole : All InLine (data_line data_bytes seq) = rw line (omega arith, h) in
    split_lines_two (id_line seq) (data_line data_bytes seq) (id_line-InLine seq) whole

-- A frame is shorter than the limit that the reader sets for its buffer.
pub length-frame :
    (data_bytes seq : ℕ)
    → 64 ≤ data_bytes
    → seq < 10 ^ 16
    → length (frame data_bytes seq) ≤ data_bytes * 2 + 1024
unfolding frame id_line data_line
length-frame data_bytes seq wide small =
    let size = (byte_length-payload-padding_of data_bytes seq wide small).1 in
    omega (
      arith,
      size,
      byte_length-decimal-le seq small,
      length-le-byte_length (decimal seq),
      length-le-byte_length (payload seq (padding_of data_bytes seq)),
      length-append (codes "id: " ++ decimal seq) (b'\n' ∷ data_line data_bytes seq),
      length-append (codes "data: ") (payload seq (padding_of data_bytes seq)),
      length-append (codes "id: ") (decimal seq),
      length-append (event_text data_bytes seq) (b'\n' ∷ b'\n' ∷ []),
    )

-- Of two ways to split a text the one with the longer front extends the other.
longer_front :
    (us vs xs ys : Text) → xs ++ ys ≡ us ++ vs → length us ≤ length xs → (w : Text) × (xs ≡ us ++ w)
longer_front [] vs xs ys e h = (xs, refl)
longer_front (u ∷ us) vs [] ys e h = absurd (omega arith)
longer_front (u ∷ us) vs (x ∷ xs) ys e h =
    let (w, same) = longer_front us vs xs ys (ground arith) (omega arith) in (w, ground arith)

-- A buffer with no event in it is shorter than the next frame.
pub uncut_short :
    (data_bytes seq left : ℕ) (s rest : Text)
    → 64 ≤ data_bytes
    → seq + left ≤ 10 ^ 16
    → cut s ≡ none
    → s ++ rest ≡ body_text data_bytes seq left
    → length s ≤ data_bytes * 2 + 1024
unfolding body_text
uncut_short data_bytes seq zero s rest wide few h e =
    omega (arith, ap length e, length-append s rest)
uncut_short data_bytes seq (suc left) s rest wide few h e =
    elim (dec_le (length (frame data_bytes seq)) (length s)) [
      | yes long ↦
          let tail = body_text data_bytes (seq + 1) left in
          let (w, same) = longer_front (frame data_bytes seq) tail s rest e long in
          let found = ap cut same ∙ cut-frame data_bytes seq w in absurd (ground arith)
      | no short ↦ omega (arith, length-frame data_bytes seq wide)
    ]

decimal-IsCharacter : (n : ℕ) → All IsCharacter (decimal n)
decimal-IsCharacter n =
    All-weaken IsAscii IsCharacter (decimal n) (λ c h. omega arith) (decimal-IsAscii n)

x-IsCharacter : (n : ℕ) → All IsCharacter (replicate n b'x')
x-IsCharacter zero = tt
x-IsCharacter (suc n) = (omega arith, x-IsCharacter n)

payload-IsCharacter :
    (data_bytes seq : ℕ) → All IsCharacter (payload seq (padding_of data_bytes seq))
unfolding payload padding_of
payload-IsCharacter data_bytes seq =
    let n = data_bytes - byte_length (payload seq []) in
    let last : All IsCharacter (codes "\"}") = omega arith in
    All-append IsCharacter (codes "{\"seq\":") _ (omega arith) (
      All-append IsCharacter (decimal seq) _ (decimal-IsCharacter seq) (
        All-append IsCharacter (codes ",\"token\":\"你好\",\"padding\":\"") _ (omega arith)
          (All-append IsCharacter (replicate n b'x') _ (x-IsCharacter n) last)))

frame-IsCharacter : (data_bytes seq : ℕ) → All IsCharacter (frame data_bytes seq)
unfolding frame id_line data_line
frame-IsCharacter data_bytes seq =
    All-append IsCharacter (event_text data_bytes seq) _
      (All-append IsCharacter (id_line seq) _
        (All-append IsCharacter (codes "id: ") _ (omega arith) (decimal-IsCharacter seq))
        (
          omega arith,
          All-append IsCharacter (codes "data: ") _ (omega arith)
              (payload-IsCharacter data_bytes seq),
        ))
      (omega arith)

pub All-IsCharacter-body_text :
    (data_bytes seq left : ℕ) → All IsCharacter (body_text data_bytes seq left)
unfolding body_text
All-IsCharacter-body_text data_bytes seq zero = tt
All-IsCharacter-body_text data_bytes seq (suc left) =
    All-append IsCharacter (frame data_bytes seq) _ (frame-IsCharacter data_bytes seq)
      (All-IsCharacter-body_text data_bytes (seq + 1) left)
