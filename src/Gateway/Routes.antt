-- ===== src/Gateway/Routes.antt =====
-- crates/senix-core/src/runtime.rs, the match of a request with the routes. Hosts and paths are given
-- by their bytes in UTF-8.
pub mod Hosts
pub mod Tests
use senix.Prelude.{
  ℕ, ◌+◌, ◌-◌, Bool, true, false, not, [], ◌∷◌, Option, none, some, Text, text_eq, starts_with,
  length, take, drop, any, map, ltb, leb, ◌==◌, if◌then◌else◌, ◌&&◌, ◌||◌,
}

-- A byte of an ASCII capital is that of its small letter.
abbrev pub to_ascii_lowercase : ℕ → ℕ
to_ascii_lowercase b = if leb 65 b && leb b 90 then b + 32 else b

abbrev pub eq_ignore_ascii_case : Text → Text → Bool
eq_ignore_ascii_case s t = text_eq (map to_ascii_lowercase s) (map to_ascii_lowercase t)

-- Whether a text can be cut there: the byte does not continue a character.
abbrev pub starts_character : Text → Bool
starts_character [] = true
starts_character (b ∷ rest) = ltb b 128 || leb 192 b

abbrev pub is_dot : ℕ → Bool
is_dot b = b == 46

abbrev pub separated : Text → Text → Text → Option (ℕ × ℕ)
separated suffix prefix [] = none
separated suffix prefix (b ∷ domain) =
    if is_dot b
      && eq_ignore_ascii_case domain suffix
      && ltb 0 (length prefix)
      && not (any is_dot prefix)
    then some (1, length suffix)
    else none

abbrev pub match_suffix : Text → Text → Option (ℕ × ℕ)
match_suffix suffix host =
    let cut = length host - (length suffix + 1) in
    if leb (length suffix + 1) (length host) && starts_character (drop cut host)
    then separated suffix (take cut host) (drop cut host)
    else none

-- `strip_prefix("*.")`
abbrev pub strip_star : Text → Option Text
strip_star (b ∷ c ∷ suffix) = if b == 42 && c == 46 then some suffix else none
strip_star _ = none

abbrev pub match_wildcard : Option Text → Text → Option (ℕ × ℕ)
match_wildcard none host = none
match_wildcard (some suffix) host = match_suffix suffix host

unfoldable pub host_specificity : Text → Text → Option (ℕ × ℕ)
host_specificity pattern_ host =
    if eq_ignore_ascii_case pattern_ host
    then some (2, length pattern_)
    else match_wildcard (strip_star pattern_) host

abbrev ends_with_slash : Text → Bool
ends_with_slash [] = false
ends_with_slash (b ∷ []) = b == 47
ends_with_slash (b ∷ c ∷ rest) = ends_with_slash (c ∷ rest)

abbrev begins_segment : Text → Bool
begins_segment [] = false
begins_segment (b ∷ rest) = b == 47

unfoldable pub path_matches : Text → Text → Bool
path_matches prefix path =
    starts_with path prefix
    && (text_eq prefix (47 ∷ [])
        || ends_with_slash prefix
        || length path == length prefix
        || begins_segment (drop (length prefix) path))

-- The length of the prefix, the kind of the match of the host, and its length.
pub record Score : Type 0 where
  pub prefix_length : ℕ
  pub host_kind : ℕ
  pub host_length : ℕ

abbrev pub score_path : Text → Text → Option (ℕ × ℕ) → Option Score
score_path prefix path none = none
score_path prefix path (some (kind, host_length)) =
    if path_matches prefix path
    then some
        (record { prefix_length = length prefix; host_kind = kind; host_length = host_length })
    else none

unfoldable pub route_match_score : Text → Text → Text → Text → Option Score
unfolding host_specificity path_matches
route_match_score pattern_ prefix host path =
    score_path prefix path (host_specificity pattern_ host)

-- The order of the tuples: a score that is not less than another.
abbrev pub not_less : Score → Score → Bool
not_less a b =
    if a.prefix_length == b.prefix_length
    then if a.host_kind == b.host_kind
      then leb b.host_length a.host_length
      else ltb b.host_kind a.host_kind
    else ltb b.prefix_length a.prefix_length
