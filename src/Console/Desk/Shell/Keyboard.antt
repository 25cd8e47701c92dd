-- ===== src/Console/Desk/Shell/Keyboard.antt =====
-- Which page a key opens.
use senix.Prelude.{
  ◌-◌, ap, String, Text, text_eq, codes, eq_of_text_eq, List, [], ◌∷◌, Option, ◌≡◌, refl,
  if◌then◌else◌, Bool-cases, inl, inr,
}
use senix.Console.Screen.{text_is}
use senix.Console.Desk.Shell.{
  Page, is_field, is_page_key, digit, page_at, pages, keyboard, NavItem, nav,
}

-- The page of the button with this key, or else the page that is open.
abbrev pub page_with : Text → List NavItem → Page → Page
page_with key [] page = page
page_with key (n ∷ ns) page =
    let rest = page_with key ns page in if text_eq key n.key then n.page else rest

module _ (key : Text) (page : Page) where
  -- The two sides agree on the key.
  abbrev Agrees : Type 0
  Agrees =
      (if is_page_key key then page_at pages (digit key - 1) page else page)
      ≡ page_with key nav page

  agrees : Agrees
  agrees = elim (Bool-cases (text_is key "1")) [
    | inl e ↦ rw (eq_of_text_eq key (codes "1") e) refl
    | inr n1 ↦ elim (Bool-cases (text_is key "2")) [
      | inl e ↦ rw (eq_of_text_eq key (codes "2") e) refl
      | inr n2 ↦ elim (Bool-cases (text_is key "3")) [
        | inl e ↦ rw (eq_of_text_eq key (codes "3") e) refl
        | inr n3 ↦ elim (Bool-cases (text_is key "4")) [
          | inl e ↦ rw (eq_of_text_eq key (codes "4") e) refl
          | inr n4 ↦ elim (Bool-cases (text_is key "5")) [
            | inl e ↦ rw (eq_of_text_eq key (codes "5") e) refl
            | inr n5 ↦ elim (Bool-cases (text_is key "6")) [
              | inl e ↦ rw (eq_of_text_eq key (codes "6") e) refl
              | inr n6 ↦ rw n1 (rw n2 (rw n3 (rw n4 (rw n5 (rw n6 refl)))))
            ]
          ]
        ]
      ]
    ]
  ]

-- Whatever key is pressed: in a field for text or a selection the page stays, and else the page is
-- the one whose button in the sidebar shows the key, or stays if no button does.
pub keyboard-equiv-nav :
    (tag : Option String) (key : Text) (page : Page)
    → keyboard tag key page ≡ (if is_field tag then page else page_with key nav page)
unfolding keyboard
keyboard-equiv-nav tag key page =
    ap (λ (p : Page). if is_field tag then page else p) (agrees key page)
