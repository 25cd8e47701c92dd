-- ===== src/Console/Maintenance/Paths/Laws.antt =====
-- web/src/main.jsx, `MaintenancePanel`: what the path of a request tells of the request.
use senix.Prelude.{
  ℕ, ◌+◌, String, Text, codes, List, [], ◌∷◌, ◌++◌, Option, none, some, some_injective, All, ◌≡◌,
  ◌≢◌, refl, sym, ap, ◌∙◌, if◌then◌else◌, ◌==◌, arith, subst,
}
use senix.Sse.Reader.Faithful.{IsCharacter}
use senix.Console.Uri.{encode_uri_component}
use senix.Console.Uri.RoundTrip.{encode_uri_component_injective}
use senix.Console.Uri.Segment.{IsPlain, encode_uri_component-IsPlain}
use senix.Console.Maintenance.{Change, drain_within, set_weight, rejoin_as, disable_now}
use senix.Console.Maintenance.Paths.{segment_of, instance_path, path_of}

uncons {ℓ} :
    {A : Type ℓ} {a b : A} {s t : List A} → ◌≡◌ {A = List A} (a ∷ s) (b ∷ t) → (a ≡ b) × (s ≡ t)
uncons h = (ground arith, ground arith)

append_cancel : (p s t : Text) → p ++ s ≡ p ++ t → s ≡ t
append_cancel [] s t h = h
append_cancel (c ∷ p) s t h = append_cancel p s t (uncons h).1

plain_no_slash : (c : ℕ) → IsPlain c → c ≢ b'/'
plain_no_slash c h = ground arith

-- A segment ends at the first slash.
first_slash :
    (s t u v : Text)
    → All IsPlain s
    → All IsPlain t
    → s ++ b'/' ∷ u ≡ t ++ b'/' ∷ v
    → (s ≡ t) × (u ≡ v)
first_slash [] [] u v h k e = (refl, (uncons e).1)
first_slash [] (c ∷ t) u v h (plain, k) e = absurd (plain_no_slash c plain (sym (uncons e).0))
first_slash (c ∷ s) [] u v (plain, h) k e = absurd (plain_no_slash c plain (uncons e).0)
first_slash (c ∷ s) (d ∷ t) u v (_, h) (_, k) e =
    let (here, later) = uncons e in
    let (same, rest) = first_slash s t u v h k later in
    (subst (λ (x : ℕ). ◌≡◌ {A = Text} (c ∷ s) (x ∷ t)) here (ap (c ∷◌) same), rest)

path-segment :
    (last p : Text) (o : Option Text)
    → instance_path last o ≡ some p
    → (t : Text) × (o ≡ some t) × (p ≡ codes "/api/v1/instances/" ++ (t ++ b'/' ∷ last))
path-segment last p none h = cc
path-segment last p (some t) h = (t, refl, sym (some_injective h))

abbrev pub SameKind : Change → Change → Type 0
SameKind (drain_within _ _) (drain_within _ _) = Unit
SameKind (set_weight _) (set_weight _) = Unit
SameKind (rejoin_as _ _ _) (rejoin_as _ _ _) = Unit
SameKind disable_now disable_now = Unit
SameKind _ _ = ⊥

-- The first characters of the segments are different.
segment-SameKind : (c d : Change) → segment_of c ≡ segment_of d → SameKind c d
segment-SameKind (drain_within _ _) (drain_within _ _) h = tt
segment-SameKind (set_weight _) (set_weight _) h = tt
segment-SameKind (rejoin_as _ _ _) (rejoin_as _ _ _) h = tt
segment-SameKind disable_now disable_now h = tt
segment-SameKind (drain_within _ _) (set_weight _) h = ground arith
segment-SameKind (drain_within _ _) (rejoin_as _ _ _) h = ground arith
segment-SameKind (drain_within _ _) disable_now h = ground arith
segment-SameKind (set_weight _) (drain_within _ _) h = ground arith
segment-SameKind (set_weight _) (rejoin_as _ _ _) h = ground arith
segment-SameKind (set_weight _) disable_now h = ground arith
segment-SameKind (rejoin_as _ _ _) (drain_within _ _) h = ground arith
segment-SameKind (rejoin_as _ _ _) (set_weight _) h = ground arith
segment-SameKind (rejoin_as _ _ _) disable_now h = ground arith
segment-SameKind disable_now (drain_within _ _) h = ground arith
segment-SameKind disable_now (set_weight _) h = ground arith
segment-SameKind disable_now (rejoin_as _ _ _) h = ground arith

abbrev pub slashes : Text → ℕ
slashes [] = 0
slashes (c ∷ s) = (if c == b'/' then 1 else 0) + slashes s

slashes-append : (s t : Text) → slashes (s ++ t) ≡ slashes s + slashes t
slashes-append [] t = omega arith
slashes-append (c ∷ s) t = omega (arith, slashes-append s t)

slashes-plain : (s : Text) → All IsPlain s → slashes s ≡ 0
slashes-plain [] h = refl
slashes-plain (c ∷ s) (plain, h) = ground (arith, plain_no_slash c plain, slashes-plain s h)

slashes-segment_of : (c : Change) → slashes (segment_of c) ≡ 0
slashes-segment_of (drain_within _ _) = refl
slashes-segment_of (set_weight _) = refl
slashes-segment_of (rejoin_as _ _ _) = refl
slashes-segment_of disable_now = refl

slashes-path :
    (t last : Text)
    → All IsPlain t
    → slashes last ≡ 0
    → slashes (codes "/api/v1/instances/" ++ (t ++ b'/' ∷ last)) ≡ 5
slashes-path t last h k = omega (arith, slashes-append t (b'/' ∷ last), slashes-plain t h, k)

-- For ids whose code units are all below U+D800: the id adds no segment to the path of a request of
-- the maintenance panel, and two requests with the same path are for the same instance and ask for
-- the same kind of change.
pub path_of_injective :
    (i j : String) (c d : Change) (p : Text)
    → All IsCharacter (codes i)
    → All IsCharacter (codes j)
    → path_of i c ≡ some p
    → path_of j d ≡ some p
    → (slashes p ≡ 5) × (codes i ≡ codes j) × SameKind c d
unfolding path_of
path_of_injective i j c d p h k e f =
    let (s, run, parts) = path-segment (segment_of c) p (encode_uri_component (codes i)) e in
    let (t, run2, parts2) = path-segment (segment_of d) p (encode_uri_component (codes j)) f in
    let plain = encode_uri_component-IsPlain (codes i) s h run in
    let (same, last) =
      first_slash s t (segment_of c) (segment_of d) plain
        (encode_uri_component-IsPlain (codes j) t k run2)
        (append_cancel (codes "/api/v1/instances/") _ _ (sym parts ∙ parts2)) in
    (
      ap slashes parts ∙ slashes-path s (segment_of c) plain (slashes-segment_of c),
      encode_uri_component_injective (codes i) (codes j) t h k (run ∙ ap some same) run2,
      segment-SameKind c d last,
    )
