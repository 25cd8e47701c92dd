-- ===== src/Sse/Reader/Cut.antt =====
-- Cutting the buffer at the first blank line, and an event into its lines.
use senix.Prelude.{
  ℕ, ◌+◌, ◌≤◌, true, false, Text, codes, starts_with, [], ◌∷◌, ◌++◌, Option, none, some, ◌≡◌, refl,
  sym, ap, ◌∙◌, arith, All, length, length-append, drop, append_assoc, append-nil, Bool-cases, inl,
  inr, Option-cases,
}
use senix.Sse.Frame.Laws.{InLine}
use senix.Sse.Reader.{prepend, cut, split_lines}

abbrev pub blank_line : Text → Text
blank_line rest = b'\n' ∷ b'\n' ∷ rest

starts_with_break :
    (c : ℕ) (s : Text) → starts_with (c ∷ s) (codes "\n\n") ≡ true → c ∷ s ≡ blank_line (drop 1 s)
starts_with_break c [] h = ground arith
starts_with_break c (d ∷ s) h = ground arith

-- The two ways to find a cut in a text with a first code unit `c`.
data Found (c : ℕ) (s event rest : Text) : Type 0 where
  here : c ∷ s ≡ blank_line rest → event ≡ [] → Found c s event rest
  later :
      (e : Text)
      → starts_with (c ∷ s) (codes "\n\n") ≡ false
      → cut s ≡ some (e, rest)
      → event ≡ c ∷ e
      → Found c s event rest

cut-Found : (c : ℕ) (s event rest : Text) → cut (c ∷ s) ≡ some (event, rest) → Found c s event rest
unfolding cut
cut-Found c s event rest h = elim (Bool-cases (starts_with (c ∷ s) (codes "\n\n"))) [
  | inl breaks ↦
      let whole : ◌≡◌ {A = Option (Text × Text)} (some ([], drop 1 s)) (some (event, rest)) =
        rw (breaks, cut) at h in
      here (starts_with_break c s breaks ∙ ap blank_line (cc)) (cc)
  | inr goes_on ↦ elim (Option-cases (cut s)) [
    | inl absent ↦ absurd (ground arith)
    | inr ((e, r), found) ↦ later e goes_on (ground arith) (ground arith)
  ]
]

-- What `cut` gives: the text before and behind a blank line.
pub cut-eq-some :
    (s : Text) {event rest : Text} → cut s ≡ some (event, rest) → s ≡ event ++ blank_line rest
cut-eq-some [] h = unfold cut in cc
cut-eq-some (c ∷ s) {event} {rest} h = elim (cut-Found c s event rest h) [
  | here whole first ↦ rw first whole
  | later e _ found same ↦ rw same (ap (◌∷◌ c) (cut-eq-some s found))
]

cut-later :
    (c : ℕ) (s : Text)
    → starts_with (c ∷ s) (codes "\n\n") ≡ false
    → cut (c ∷ s) ≡ prepend c (cut s)
unfolding cut
cut-later c s h = rw h refl

pub cut-blank_line : (rest : Text) → cut (blank_line rest) ≡ some ([], rest)
unfolding cut
cut-blank_line rest = refl

starts_with_extend :
    (c : ℕ) (s t : Text) {found : Text × Text}
    → cut s ≡ some found
    → starts_with (c ∷ (s ++ t)) (codes "\n\n") ≡ starts_with (c ∷ s) (codes "\n\n")
starts_with_extend c [] t h = unfold cut in cc
starts_with_extend c (d ∷ s) t h = refl

-- A cut that is found is found at the same place when more text follows.
pub cut_extend :
    (s t event rest : Text) → cut s ≡ some (event, rest) → cut (s ++ t) ≡ some (event, rest ++ t)
cut_extend [] t event rest h = unfold cut in cc
cut_extend (c ∷ s) t event rest h = elim (cut-Found c s event rest h) [
  | here whole first ↦
      ap (λ (w : Text). cut (w ++ t)) whole
      ∙ cut-blank_line (rest ++ t)
      ∙ ap (λ (e : Text). some (e, rest ++ t)) (sym first)
  | later e goes_on found same ↦
      cut-later c (s ++ t) (starts_with_extend c s t found ∙ goes_on)
      ∙ ap (prepend c) (cut_extend s t e rest found)
      ∙ ap (λ (e : Text). some (e, rest ++ t)) (sym same)
]

starts_with-InLine : (c : ℕ) (s : Text) → InLine c → starts_with (c ∷ s) (codes "\n\n") ≡ false
starts_with-InLine c s h = ground arith

-- Code units that do not end a line are passed over.
pub cut-InLine :
    (line s event rest : Text)
    → All InLine line
    → cut s ≡ some (event, rest)
    → cut (line ++ s) ≡ some (line ++ event, rest)
cut-InLine [] s event rest h e = e
cut-InLine (c ∷ line) s event rest (p, h) e =
    cut-later c (line ++ s) (starts_with-InLine c (line ++ s) p)
    ∙ ap (prepend c) (cut-InLine line s event rest h e)

-- So is a single line break.
pub cut_line_break :
    (c : ℕ) (s event rest : Text)
    → InLine c
    → cut (c ∷ s) ≡ some (event, rest)
    → cut (b'\n' ∷ c ∷ s) ≡ some (b'\n' ∷ event, rest)
cut_line_break c s event rest h e = cut-later b'\n' (c ∷ s) (ground arith) ∙ ap (prepend b'\n') e

split_lines-InLine :
    (read line s : Text)
    → All InLine line
    → split_lines read (line ++ s) ≡ split_lines (read ++ line) s
unfolding split_lines
split_lines-InLine read [] s h = rw (append-nil read)
split_lines-InLine read (c ∷ line) s (p, h) =
    let joined = append_assoc read (c ∷ []) line in
    ground (arith, joined, split_lines-InLine (read ++ c ∷ []) line s h)

-- An event of two lines is split into them.
pub split_lines_two :
    (line more : Text)
    → All InLine line
    → All InLine more
    → split_lines [] (line ++ (b'\n' ∷ more)) ≡ line ∷ more ∷ []
unfolding split_lines
split_lines_two line more h k =
    split_lines-InLine [] line (b'\n' ∷ more) h ∙ ap (◌∷◌ line) (last_line more k)
  where
    last_line : (text : Text) → All InLine text → split_lines [] text ≡ text ∷ []
    last_line text t = ap (split_lines []) (sym (append-nil text)) ∙ split_lines-InLine [] text [] t

-- A text that begins with two lines and a blank line is cut behind them.
pub cut_two_lines :
    (line : Text) (c : ℕ) (more rest : Text)
    → All InLine line
    → InLine c
    → All InLine more
    → cut ((line ++ (b'\n' ∷ c ∷ more)) ++ blank_line rest)
      ≡ some (line ++ (b'\n' ∷ c ∷ more), rest)
cut_two_lines line c more rest h p k =
    let last = cut-InLine (c ∷ more) (blank_line rest) [] rest (p, k) (cut-blank_line rest) in
    let both = cut_line_break c (more ++ blank_line rest) _ rest p last in
    let whole = cut-InLine line (b'\n' ∷ c ∷ (more ++ blank_line rest)) _ rest h both in
    ap cut (append_assoc line (b'\n' ∷ c ∷ more) (blank_line rest))
    ∙ whole
    ∙ ap (λ (s : Text). some (line ++ (b'\n' ∷ c ∷ s), rest)) (append-nil more)

pub cut-empty : (s : Text) → length s ≤ 0 → cut s ≡ none
unfolding cut
cut-empty [] h = refl
cut-empty (c ∷ s) h = absurd (omega arith)

pub length-cut : (s : Text) {event r : Text} → cut s ≡ some (event, r) → length r + 2 ≤ length s
length-cut s {event} {r} h =
    omega (arith, ap length (cut-eq-some s h), length-append event (blank_line r))

pub nothing_left : (s rest : Text) {event r : Text} → cut s ≡ some (event, r) → s ++ rest ≡ [] → ⊥
nothing_left s rest h e = omega (arith, length-cut s h, ap length e, length-append s rest)
