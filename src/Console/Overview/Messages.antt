-- ===== src/Console/Overview/Messages.antt =====
-- Whether the messages of the instances are in the dictionary, if those of the panels are.
use senix.Prelude.{String, str_eq, List, [], ◌∷◌, refl}
use senix.Locale.{scan}
use senix.Locale.Templates.{fields}
use senix.Console.Screen.{Item}
use senix.Console.Screen.Coverage.{
  IsCovered, is_translated, all-IsCovered, append-IsCovered, when-IsCovered, each-IsCovered,
  nested-IsCovered,
}
use senix.Console.Maintenance.{Instance}
use senix.Console.Maintenance.Screen.{Click}
use senix.Console.Overview.{in_panel, summary, bay, row, no_instances, board, overview_screen}

summary-IsCovered : (instances : List Instance) → IsCovered (summary instances)
unfolding is_translated scan fields
summary-IsCovered instances = all-IsCovered refl

bay-IsCovered : (opened : String) (item : Instance) → IsCovered (bay opened item)
unfolding is_translated scan fields
bay-IsCovered opened item = all-IsCovered refl

module _ (panel : Instance → List (Item Click))
    (h : (item : Instance) → IsCovered (panel item)) where
  row-IsCovered : (opened : String) (item : Instance) → IsCovered (row panel opened item)
  row-IsCovered opened item =
      append-IsCovered (bay opened item) _ (bay-IsCovered opened item)
        (when-IsCovered (str_eq opened item.id) _ (nested-IsCovered in_panel (panel item) (h item)))

  no_instances-IsCovered : IsCovered (no_instances panel)
  unfolding is_translated scan fields
  no_instances-IsCovered = all-IsCovered refl

  board-IsCovered :
      (opened : String) (instances : List Instance) → IsCovered (board panel opened instances)
  board-IsCovered opened [] = no_instances-IsCovered
  board-IsCovered opened (item ∷ items) =
      each-IsCovered (row panel opened) (item ∷ items) (row-IsCovered opened)

  pub overview_screen-IsCovered :
      (opened : String) (instances : List Instance)
      → IsCovered (overview_screen panel opened instances)
  unfolding overview_screen
  overview_screen-IsCovered opened instances =
      append-IsCovered (summary instances) _ (summary-IsCovered instances)
        (board-IsCovered opened instances)
