-- ===== src/Console/Screen/Coverage.antt =====
-- Whether the messages of a screen are in the dictionary, with a value for each field.
use senix.Prelude.{
  Bool, true, false, String, Text, codes, List, [], ◌∷◌, ◌++◌, none, some, all, All, and-true, ◌∙◌,
  get_own, ◌≡◌, refl, arith, ◌&&◌, if◌then◌else◌,
}
use senix.Locale.{Values, english}
use senix.Locale.Coverage.{fields_of}
use senix.Console.Screen.{
  Item, plain, toned, marked, message, hint, entry, button, input, checkbox, when, either, concat,
  each, relay, nested,
}

abbrev pub has_own {ℓ} : {V : Type ℓ} → Text → List (Text × V) → Bool
has_own key dictionary = elim (get_own key dictionary) [ none ↦ false | some _ ↦ true ]

-- The dictionary has the message, and the values have each of its fields.
unfoldable pub is_translated : String → Values → Bool
is_translated key values =
    has_own (codes key) english && all (λ name. has_own name values) (fields_of (codes key))

-- The messages whose keys are written in the markup. An `entry` shows a text of the state.
abbrev pub is_covered {ℓ} : {E : Type ℓ} → Item E → Bool
is_covered (message key values) = is_translated key values
is_covered (hint key values) = is_translated key values
is_covered (button enabled key values e) = is_translated key values
is_covered _ = true

-- Every message whose key is written in the markup is in the dictionary, with its fields.
pub record IsCovered {ℓ} {E : Type ℓ} (items : List (Item E)) : Type 0 where
  pub covered : all is_covered items ≡ true

and_both : (a b : Bool) → a ≡ true → b ≡ true → (a && b) ≡ true
and_both a b h k = ground arith

all-append {ℓ} :
    {A : Type ℓ} (p : A → Bool) (xs ys : List A)
    → all p xs ≡ true
    → all p ys ≡ true
    → all p (xs ++ ys) ≡ true
all-append p [] ys h k = k
all-append p (x ∷ xs) ys h k =
    let (here, later) = and-true (p x) (all p xs) h in
    and_both (p x) (all p (xs ++ ys)) here (all-append p xs ys later k)

module _ {ℓ} {E : Type ℓ} where
  pub append-IsCovered :
      (xs ys : List (Item E)) → IsCovered xs → IsCovered ys → IsCovered (xs ++ ys)
  append-IsCovered xs ys h k = record { covered = all-append is_covered xs ys h.covered k.covered }

  pub when-IsCovered : (b : Bool) (xs : List (Item E)) → IsCovered xs → IsCovered (when b xs)
  when-IsCovered true xs h = h
  when-IsCovered false xs h = record { covered = refl }

  pub either-IsCovered :
      (b : Bool) (xs ys : List (Item E)) → IsCovered xs → IsCovered ys → IsCovered (either b xs ys)
  either-IsCovered true xs ys h k = h
  either-IsCovered false xs ys h k = k

  -- A page is covered if its parts are.
  pub concat-IsCovered :
      (parts : List (List (Item E))) → All IsCovered parts → IsCovered (concat parts)
  concat-IsCovered [] h = record { covered = refl }
  concat-IsCovered (part ∷ parts) (here, later) =
      append-IsCovered part (concat parts) here (concat-IsCovered parts later)

  pub each-IsCovered {κ} :
      {A : Type κ} (f : A → List (Item E)) (list : List A)
      → ((a : A) → IsCovered (f a))
      → IsCovered (each f list)
  each-IsCovered f [] h = record { covered = refl }
  each-IsCovered f (a ∷ more) h =
      append-IsCovered (f a) (each f more) (h a) (each-IsCovered f more h)

is_covered-relay {ℓ κ} :
    {E : Type ℓ} {F : Type κ} (f : E → F) (item : Item E)
    → is_covered (relay f item) ≡ is_covered item
is_covered-relay f (plain t) = refl
is_covered-relay f (toned tone t) = refl
is_covered-relay f (marked on t) = refl
is_covered-relay f (message key values) = refl
is_covered-relay f (hint key values) = refl
is_covered-relay f (entry e) = refl
is_covered-relay f (button enabled key values e) = refl
is_covered-relay f (input t g) = refl
is_covered-relay f (checkbox enabled checked g) = refl

pub nested-IsCovered {ℓ κ} :
    {E : Type ℓ} {F : Type κ} (f : E → F) (items : List (Item E))
    → IsCovered items
    → IsCovered (nested f items)
nested-IsCovered f [] h = record { covered = refl }
nested-IsCovered f (item ∷ items) h =
    let (here, later) = and-true (is_covered item) (all is_covered items) h.covered in
    let rest = nested-IsCovered f items (record { covered = later }) in
    record {
      covered =
          and_both (is_covered (relay f item)) _ (is_covered-relay f item ∙ here) rest.covered;
    }

-- A page whose messages are all written out.
pub all-IsCovered {ℓ} :
    {E : Type ℓ} {items : List (Item E)} → all is_covered items ≡ true → IsCovered items
all-IsCovered h = record { covered = h }

-- A message that is chosen by a test.
pub is_translated-if :
    (b : Bool) (key other : String) (values : Values)
    → is_translated key values ≡ true
    → is_translated other values ≡ true
    → is_translated (if b then key else other) values ≡ true
is_translated-if true key other values h k = h
is_translated-if false key other values h k = k
