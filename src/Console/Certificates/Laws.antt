-- ===== src/Console/Certificates/Laws.antt =====
-- The state of a certificate over time, and the domains that are read from the form.
use senix.Prelude.{
  ℕ, ◌+◌, ◌≤◌, ◌<◌, true, false, not, Text, List, [], ◌∷◌, ◌++◌, ◌≡◌, ◌≢◌, ◌↔◌, refl, sym, ap, ◌∙◌,
  arith, All, all, Bool-cases, inl, inr, append_assoc, append-nil, and-true,
}
use senix.Console.Api.{Tone, good, warn, bad, muted}
use senix.Console.Certificates.{
  Certificate, certificate_state, is_separator, emit, split_domains, thirty_days,
}

abbrev pub severity : Tone → ℕ
severity muted = 0
severity good = 1
severity warn = 2
severity bad = 3

-- As time goes on the tone of a certificate only gets more severe. It is bad just from the end of
-- an active certificate on, and warns at most 30 days ahead.
pub certificate_state-later :
    (item : Certificate) (now later : ℕ)
    → now ≤ later
    → (severity (certificate_state now item).1 ≤ severity (certificate_state later item).1)
      × (((certificate_state now item).1 ≡ bad)
          ↔ ((item.active ≡ true) × (item.not_after_ms ≤ now)))
      × (((certificate_state now item).1 ≡ warn) ↔ (
          (item.active ≡ true)
          × (now < item.not_after_ms)
          × (item.not_after_ms ≤ now + thirty_days)))
unfolding certificate_state
certificate_state-later item now later h =
    (ground arith, (λ e. ground arith, λ e. ground arith), (λ e. ground arith, λ e. ground arith))

-- A domain that the form can give: not empty, and with no separator in it.
abbrev pub IsDomain : Text → Type 0
IsDomain d = (d ≢ []) × (all (λ c. not (is_separator c)) d ≡ true)

-- The domains, one per line.
abbrev pub lines : List Text → Text
lines [] = []
lines (d ∷ domains) = d ++ (b'\n' ∷ lines domains)

emit-IsDomain :
    (word : Text) (domains : List Text)
    → all (λ c. not (is_separator c)) word ≡ true
    → All IsDomain domains
    → All IsDomain (emit word domains)
emit-IsDomain [] domains w h = h
emit-IsDomain (c ∷ word) domains w h = ((cc, w), h)

all-snoc :
    (word : Text) (c : ℕ)
    → all (λ c. not (is_separator c)) word ≡ true
    → is_separator c ≡ false
    → all (λ c. not (is_separator c)) (word ++ c ∷ []) ≡ true
all-snoc [] c w h = rw h refl
all-snoc (d ∷ word) c w h =
    let (here, later) = and-true (not (is_separator d)) _ w in rw here (all-snoc word c later h)

-- Each text that is read from the form is a domain.
split_domains-IsDomain :
    (word s : Text)
    → all (λ c. not (is_separator c)) word ≡ true
    → All IsDomain (split_domains word s)
unfolding split_domains
split_domains-IsDomain word [] w = emit-IsDomain word [] w tt
split_domains-IsDomain word (c ∷ s) w = elim (Bool-cases (is_separator c)) [
  | inl cut_here ↦
      rw cut_here (emit-IsDomain word (split_domains [] s) w (split_domains-IsDomain [] s refl))
  | inr inside ↦ rw inside (split_domains-IsDomain (word ++ c ∷ []) s (all-snoc word c w inside))
]

split_domains-word :
    (word d rest : Text)
    → all (λ c. not (is_separator c)) d ≡ true
    → split_domains word (d ++ (b'\n' ∷ rest)) ≡ emit (word ++ d) (split_domains [] rest)
unfolding split_domains
split_domains-word word [] rest h =
    ap (λ (w : Text). emit w (split_domains [] rest)) (sym (append-nil word))
split_domains-word word (c ∷ d) rest h =
    let (here, later) = and-true (not (is_separator c)) _ h in
    let inside : is_separator c ≡ false = ground arith in
    rw inside (
      split_domains-word (word ++ c ∷ []) d rest later
      ∙ ap (λ (w : Text). emit w (split_domains [] rest)) (append_assoc word (c ∷ []) d))

emit-IsDomain-cons : (d : Text) (domains : List Text) → d ≢ [] → emit d domains ≡ d ∷ domains
emit-IsDomain-cons [] domains h = absurd (h refl)
emit-IsDomain-cons (c ∷ d) domains h = refl

-- Domains that are typed one per line are read back as they are.
split_domains-lines :
    (domains : List Text) → All IsDomain domains → split_domains [] (lines domains) ≡ domains
unfolding split_domains
split_domains-lines [] h = refl
split_domains-lines (d ∷ domains) ((some_code, plain), h) =
    split_domains-word [] d (lines domains) plain
    ∙ emit-IsDomain-cons d (split_domains [] (lines domains)) some_code
    ∙ ap (◌∷◌ d) (split_domains-lines domains h)

-- The texts read from the form are not empty and have no separator in them; and domains of this
-- kind, typed one per line, are read as they are.
pub split_domains-lines-IsDomain :
    (s : Text) (domains : List Text)
    → All IsDomain domains
    → All IsDomain (split_domains [] s) × (split_domains [] (lines domains) ≡ domains)
split_domains-lines-IsDomain s domains h =
    (split_domains-IsDomain [] s refl, split_domains-lines domains h)
