-- ===== src/Gateway/Routes/Hosts.antt =====
-- Which hosts a pattern covers.
use senix.Prelude.{
  ℕ, zero, suc, ◌+◌, ◌-◌, ◌<◌, Bool, true, false, not, [], ◌∷◌, ◌++◌, map, Option, none, some,
  some_injective, Text, text_eq, length, length-append, take, drop, any, ltb, leb, Bool-cases,
  if◌then◌else◌, ◌&&◌, ◌≡◌, refl, sym, subst, ap, ◌∙◌, ◌⊎◌, ◌↔◌, inl, inr, arith,
}
use senix.Gateway.Routes.{
  eq_ignore_ascii_case, to_ascii_lowercase, starts_character, is_dot, separated, match_suffix,
  strip_star, match_wildcard, host_specificity,
}

text_eq-length : (s t : Text) → text_eq s t ≡ true → length s ≡ length t
text_eq-length [] [] h = refl
text_eq-length [] (b ∷ t) h = absurd cc
text_eq-length (a ∷ s) [] h = absurd cc
text_eq-length (a ∷ s) (b ∷ t) h = ap suc (text_eq-length s t (ground (arith, h)))

length-map : (f : ℕ → ℕ) (s : Text) → length (map f s) ≡ length s
length-map f [] = refl
length-map f (b ∷ s) = ap suc (length-map f s)

take-append : (s t : Text) → take (length s) (s ++ t) ≡ s
take-append [] t = refl
take-append (b ∷ s) t = ap (λ (r : Text). b ∷ r) (take-append s t)

drop-append : (s t : Text) → drop (length s) (s ++ t) ≡ t
drop-append [] t = refl
drop-append (b ∷ s) t = drop-append s t

take-drop : (n : ℕ) (s : Text) → take n s ++ drop n s ≡ s
take-drop zero s = refl
take-drop (suc n) [] = refl
take-drop (suc n) (b ∷ s) = ap (λ (r : Text). b ∷ r) (take-drop n s)

-- One label more than the suffix: with no dot in it, and not empty.
pub record IsBelow (suffix host : Text) : Type 0 where
  pub label : Text
  pub domain : Text
  pub is : host ≡ label ++ (46 ∷ domain)
  pub some_label : 0 < length label
  pub no_dot : any is_dot label ≡ false
  pub same : eq_ignore_ascii_case domain suffix ≡ true

then_some :
    {A : Type 0} (b : Bool) (v r : A) → (if b then some v else none) ≡ some r → (b ≡ true) × (r ≡ v)
then_some true v r h = (refl, some_injective (sym h))
then_some false v r h = absurd cc

then_of :
    {A : Type 0} (b : Bool) (o : Option A) (r : A)
    → (if b then o else none) ≡ some r
    → (b ≡ true) × (o ≡ some r)
then_of true o r h = (refl, h)
then_of false o r h = absurd cc

separated-IsBelow :
    (suffix prefix rest host : Text) (r : ℕ × ℕ)
    → prefix ++ rest ≡ host
    → separated suffix prefix rest ≡ some r
    → IsBelow suffix host × (r ≡ (1, length suffix))
separated-IsBelow suffix prefix [] host r whole h = absurd cc
separated-IsBelow suffix prefix (b ∷ domain) host r whole h =
    let c =
      then_some
        (is_dot b
          && eq_ignore_ascii_case domain suffix
          && ltb 0 (length prefix)
          && not (any is_dot prefix))
        (1, length suffix) r h in
    let dot : b ≡ 46 = ground (arith, c.0) in
    (
      record {
        label = prefix;
        domain = domain;
        is = sym whole ∙ ap (λ (a : ℕ). prefix ++ (a ∷ domain)) dot;
        some_label = ground (arith, c.0);
        no_dot = ground (arith, c.0);
        same = ground (arith, c.0);
      },
      c.1,
    )

match_suffix-IsBelow :
    (suffix host : Text) (r : ℕ × ℕ)
    → match_suffix suffix host ≡ some r
    → IsBelow suffix host × (r ≡ (1, length suffix))
match_suffix-IsBelow suffix host r h =
    let cut : ℕ = length host - (length suffix + 1) in
    separated-IsBelow suffix (take cut host) (drop cut host) host r (take-drop cut host)
      (then_of (leb (length suffix + 1) (length host) && starts_character (drop cut host))
        (separated suffix (take cut host) (drop cut host)) r h).1

module _ (suffix : Text) (label domain : Text) (some_label : 0 < length label)
    (no_dot : any is_dot label ≡ false) (same : eq_ignore_ascii_case domain suffix ≡ true) where
  abbrev extended : Text
  extended = label ++ (46 ∷ domain)

  as_long : length domain ≡ length suffix
  as_long =
      sym (length-map to_ascii_lowercase domain)
      ∙ text_eq-length (map to_ascii_lowercase domain) (map to_ascii_lowercase suffix) same
      ∙ length-map to_ascii_lowercase suffix

  cut_there :
      (if leb (length suffix + 1) (length extended)
          && starts_character (drop (length label) extended)
        then separated suffix (take (length label) extended) (drop (length label) extended)
        else none)
      ≡ some (1, length suffix)
  cut_there =
      let at = drop-append label (46 ∷ domain) in
      let long : leb (length suffix + 1) (length extended) ≡ true =
        ground (arith, length-append label (46 ∷ domain), as_long) in
      rw (long, at, take-append label (46 ∷ domain)) (ground (arith, some_label, no_dot, same))

  below-match_suffix : match_suffix suffix extended ≡ some (1, length suffix)
  below-match_suffix =
      let cut : length extended - (length suffix + 1) ≡ length label =
        omega (arith, length-append label (46 ∷ domain), as_long) in
      subst
        (λ (n : ℕ).
          (if leb (length suffix + 1) (length extended) && starts_character (drop n extended)
            then separated suffix (take n extended) (drop n extended)
            else none)
          ≡ some (1, length suffix))
        (sym cut) cut_there

IsBelow-match_suffix :
    (suffix host : Text) → IsBelow suffix host → match_suffix suffix host ≡ some (1, length suffix)
IsBelow-match_suffix suffix host h =
    subst (λ (t : Text). match_suffix suffix t ≡ some (1, length suffix)) (sym h.is)
      (below-match_suffix suffix h.label h.domain h.some_label h.no_dot h.same)

strip_star-eq : (t suffix : Text) → strip_star t ≡ some suffix → t ≡ 42 ∷ 46 ∷ suffix
strip_star-eq [] suffix h = absurd cc
strip_star-eq (a ∷ []) suffix h = absurd cc
strip_star-eq (a ∷ b ∷ rest) suffix h = ground (arith, h)

-- The match of a pattern that is not the host itself.
pub record IsStarred (pattern_ host : Text) (kind n : ℕ) : Type 0 where
  pub suffix : Text
  pub starred : pattern_ ≡ 42 ∷ 46 ∷ suffix
  pub kind_one : kind ≡ 1
  pub counts : n ≡ length suffix
  pub below : IsBelow suffix host

match_wildcard-IsStarred :
    (pattern_ host : Text) (o : Option Text) (kind n : ℕ)
    → strip_star pattern_ ≡ o
    → match_wildcard o host ≡ some (kind, n)
    → IsStarred pattern_ host kind n
match_wildcard-IsStarred pattern_ host none kind n e h = absurd cc
match_wildcard-IsStarred pattern_ host (some suffix) kind n e h =
    let (below, is) = match_suffix-IsBelow suffix host (kind, n) h in
    record {
      suffix = suffix;
      starred = strip_star-eq pattern_ suffix e;
      kind_one = ap (λ (p : ℕ × ℕ). p.0) is;
      counts = ap (λ (p : ℕ × ℕ). p.1) is;
      below = below;
    }

abbrev specificity_by : Text → Text → Bool → Option (ℕ × ℕ)
specificity_by pattern_ host same =
    if same then some (2, length pattern_) else match_wildcard (strip_star pattern_) host

IsStarred-match_wildcard :
    (host suffix : Text)
    → IsBelow suffix host
    → match_wildcard (strip_star (42 ∷ 46 ∷ suffix)) host ≡ some (1, length suffix)
IsStarred-match_wildcard host suffix h = IsBelow-match_suffix suffix host h

-- A pattern that is the host itself, in any case, matches it with kind 2 and its own length.
-- Of the others only those of a star, a dot and a suffix match, with kind 1 and the length of the
-- suffix, and just the hosts that are the suffix, in any case, with one label more in front of it, which is not empty.
pub host_specificity_lem :
    (pattern_ host : Text) (kind n : ℕ)
    → (host_specificity pattern_ host ≡ some (kind, n)) ↔ (
        ((eq_ignore_ascii_case pattern_ host ≡ true) × (kind ≡ 2) × (n ≡ length pattern_))
        ⊎ ((eq_ignore_ascii_case pattern_ host ≡ false) × IsStarred pattern_ host kind n))
unfolding host_specificity
host_specificity_lem pattern_ host kind n = (
  elim (Bool-cases (eq_ignore_ascii_case pattern_ host)) [
    | inl same ↦ λ h.
        let is : ◌≡◌ {A = ℕ × ℕ} (2, length pattern_) (kind, n) = some_injective (by_same same h) in
        inl (same, sym (ap (λ (p : ℕ × ℕ). p.0) is), sym (ap (λ (p : ℕ × ℕ). p.1) is))
    | inr other ↦ λ h. inr (
      other,
      match_wildcard-IsStarred pattern_ host (strip_star pattern_) kind n refl (by_other other h),
    )
  ],
  back,
)
  where
    by_same :
        eq_ignore_ascii_case pattern_ host ≡ true
        → specificity_by pattern_ host (eq_ignore_ascii_case pattern_ host) ≡ some (kind, n)
        → ◌≡◌ {A = Option (ℕ × ℕ)} (some (2, length pattern_)) (some (kind, n))
    by_same e h = subst (λ b. specificity_by pattern_ host b ≡ some (kind, n)) e h

    by_other :
        eq_ignore_ascii_case pattern_ host ≡ false
        → specificity_by pattern_ host (eq_ignore_ascii_case pattern_ host) ≡ some (kind, n)
        → match_wildcard (strip_star pattern_) host ≡ some (kind, n)
    by_other e h = subst (λ b. specificity_by pattern_ host b ≡ some (kind, n)) e h

    back :
        ((eq_ignore_ascii_case pattern_ host ≡ true) × (kind ≡ 2) × (n ≡ length pattern_))
          ⊎ ((eq_ignore_ascii_case pattern_ host ≡ false) × IsStarred pattern_ host kind n)
        → specificity_by pattern_ host (eq_ignore_ascii_case pattern_ host) ≡ some (kind, n)
    back (inl (same, two, long)) =
        subst (λ b. specificity_by pattern_ host b ≡ some (kind, n)) (sym same) (cc (two, long))
    back (inr (other, s)) =
        subst (λ b. specificity_by pattern_ host b ≡ some (kind, n)) (sym other)
          (ap (λ (t : Text). match_wildcard (strip_star t) host) s.starred
            ∙ IsStarred-match_wildcard host s.suffix s.below
            ∙ cc (s.kind_one, s.counts))
