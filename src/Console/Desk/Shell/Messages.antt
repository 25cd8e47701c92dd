-- ===== src/Console/Desk/Shell/Messages.antt =====
-- Whether the messages around the pages are in the dictionary.
use senix.Prelude.{Text, Option, none, some, refl}
use senix.Locale.{scan}
use senix.Locale.Templates.{fields}
use senix.Console.Screen.Coverage.{IsCovered, is_translated, all-IsCovered, append-IsCovered}
use senix.Console.Desk.Shell.{
  Page, overview, changes, diagnostics, credentials, certificates, audit, nav, nav_buttons,
  sidebar_head, sidebar_foot, sidebar, top_title, freshness, refresh_button,
}

head-IsCovered : IsCovered sidebar_head
unfolding is_translated scan fields
head-IsCovered = all-IsCovered refl

nav-IsCovered : (page : Page) → IsCovered (nav_buttons page nav)
unfolding is_translated scan fields
nav-IsCovered page = all-IsCovered refl

foot-IsCovered : (owner : Text) → IsCovered (sidebar_foot owner)
unfolding is_translated scan fields
foot-IsCovered owner = all-IsCovered refl

pub sidebar-IsCovered : (owner : Text) (page : Page) → IsCovered (sidebar owner page)
unfolding sidebar
sidebar-IsCovered owner page = append-IsCovered sidebar_head _ head-IsCovered (
    append-IsCovered (nav_buttons page nav) (sidebar_foot owner) (nav-IsCovered page)
      (foot-IsCovered owner))

pub top_title-IsCovered : (page : Page) → IsCovered (top_title page)
unfolding is_translated scan fields
top_title-IsCovered overview = all-IsCovered refl
top_title-IsCovered changes = all-IsCovered refl
top_title-IsCovered diagnostics = all-IsCovered refl
top_title-IsCovered credentials = all-IsCovered refl
top_title-IsCovered certificates = all-IsCovered refl
top_title-IsCovered audit = all-IsCovered refl

pub freshness-IsCovered : (updated : Option Text) → IsCovered (freshness updated)
unfolding is_translated scan fields
freshness-IsCovered none = all-IsCovered refl
freshness-IsCovered (some time) = all-IsCovered refl

pub refresh-IsCovered : IsCovered refresh_button
unfolding is_translated scan fields
refresh-IsCovered = all-IsCovered refl
