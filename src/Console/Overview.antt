-- ===== src/Console/Overview.antt =====
-- web/src/main.jsx, `Overview`: the instances, the counts over them, and the one whose maintenance
-- panel is open.
pub mod Laws
mod Tests
pub mod Messages
use senix.Prelude.{
  ℕ, ◌+◌, Bool, true, false, not, String, str_eq, Text, codes, List, [], ◌∷◌, ◌++◌, Option, none,
  some, length, filter, ◌&&◌, ◌||◌, if◌then◌else◌,
}
use senix.Decimal.{decimal}
use senix.Console.Api.{state_tone}
use senix.Console.Screen.{
  I18n, Item, plain, toned, marked, message, hint, button, when, either, each, nested, concat,
}
use senix.Console.Maintenance.{Instance}
use senix.Console.Maintenance.Screen.{Click, act, close_panel}

pub data Event : Type 0 where
  toggle : String → Event
  in_panel : Click → Event

-- `openInstance`; the empty text is none.
abbrev pub toggled : String → String → String
toggled opened id = if str_eq opened id then "" else id

-- What a click does to `openInstance`; the other clicks are the panel's.
unfoldable pub step : String → Event → String
step opened (toggle id) = toggled opened id
step opened (in_panel close_panel) = ""
step opened (in_panel (act e)) = opened

abbrev pub is_in_service : Instance → Bool
is_in_service item = str_eq item.traffic "SERVING"

abbrev pub needs_attention : Instance → Bool
needs_attention item = not (str_eq item.traffic "SERVING") || str_eq item.health "UNHEALTHY"

abbrev pub serving : List Instance → ℕ
serving instances = length (filter is_in_service instances)

abbrev pub attention : List Instance → ℕ
attention instances = length (filter needs_attention instances)

abbrev pub summary : List Instance → List (Item Event)
summary instances =
    message "实例" []
    ∷ plain (decimal (length instances))
    ∷ message "接流中" []
    ∷ plain (decimal (serving instances))
    ∷ message "需处理" []
    ∷ plain (decimal (attention instances))
    ∷ message "实例轨道" []
    ∷ message "流量状态和健康状态分别显示，避免把健康恢复误当成自动回接。" []
    ∷ []

abbrev pub bay : String → Instance → List (Item Event)
bay opened item =
    hint "流量 {traffic}，健康 {health}"
      ((codes "traffic", codes item.traffic) ∷ (codes "health", codes item.health) ∷ [])
    ∷ toned (state_tone item.traffic) []
    ∷ toned (state_tone item.health) []
    ∷ marked (str_eq opened item.id) (codes item.id)
    ∷ plain (
        codes "generation "
        ++ (decimal item.generation
            ++ codes (if item.health_override then " · health override" else "")))
    ∷ message "流量" []
    ∷ toned (state_tone item.traffic) (codes item.traffic)
    ∷ message "健康" []
    ∷ toned (state_tone item.health) (codes item.health)
    ∷ message "权重" []
    ∷ plain (decimal item.weight)
    ∷ button true "维护" [] (toggle item.id)
    ∷ []

-- The panel of an instance is given by its items.
module _ (panel : Instance → List (Item Click)) where
  abbrev pub row : String → Instance → List (Item Event)
  row opened item = bay opened item ++ when (str_eq opened item.id) (nested in_panel (panel item))

  abbrev pub no_instances : List (Item Event)
  no_instances = message "还没有实例。先通过配置快照加入后端实例。" [] ∷ []

  abbrev pub board : String → List Instance → List (Item Event)
  board opened [] = no_instances
  board opened (item ∷ items) = each (row opened) (item ∷ items)

  unfoldable pub overview_screen : String → List Instance → List (Item Event)
  overview_screen opened instances = summary instances ++ board opened instances
