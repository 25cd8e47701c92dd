-- ===== src/Sse/Reader/Faithful.antt =====
-- What the benchmark relies on in the platform that runs it.
use senix.Prelude.{ℕ, ◌<◌, Text, List, [], ◌∷◌, ◌++◌, some, ◌≡◌, All, replicate}
use senix.Sse.Frame.{token, payload, utf8}
use senix.Sse.Reader.{Decoder, Platform}

-- The text that a decoder gives for chunks, and the state that it is left in.
unfoldable pub decoded : (d : Decoder) → d.State → List (List ℕ) → Text
decoded d s [] = []
decoded d s (chunk ∷ chunks) = (d.write s chunk).0 ++ decoded d (d.write s chunk).1 chunks

unfoldable pub state_after : (d : Decoder) → d.State → List (List ℕ) → d.State
state_after d s [] = s
state_after d s (chunk ∷ chunks) = state_after d (d.write s chunk).1 chunks

abbrev pub joined : List (List ℕ) → List ℕ
joined [] = []
joined (chunk ∷ chunks) = chunk ++ joined chunks

-- No surrogate: the code unit is a character.
abbrev pub IsCharacter : ℕ → Type 0
IsCharacter c = c < 55296

-- What the benchmark relies on in the platform. A `StringDecoder` gives back a text from its UTF-8
-- bytes whatever the chunks, with nothing left over at the end; `JSON.parse` reads what
-- `JSON.stringify` wrote.
pub record IsFaithful (platform : Platform) : Type 0 where
  pub decodes :
      (t : Text) (chunks : List (List ℕ))
      → All IsCharacter t
      → joined chunks ≡ utf8 t
      → decoded platform.decoder platform.decoder.start chunks ≡ t
  pub ends :
      (t : Text) (chunks : List (List ℕ))
      → All IsCharacter t
      → joined chunks ≡ utf8 t
      → platform.decoder.end (state_after platform.decoder platform.decoder.start chunks) ≡ []
  pub parses :
      (seq n : ℕ)
      → platform.parse (payload seq (replicate n b'x'))
        ≡ some (record { seq = some seq; token = some token; padding = some (replicate n b'x') })
