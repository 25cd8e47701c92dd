-- ===== src/Locale/Catalog.antt =====
-- The dictionary `english` of web/src/locale.js: the Chinese source message, which is also the
-- message's key, and its English text.
mod First
mod Second
use senix.Prelude.{String, List, ◌++◌}
use First.{first_messages}
use Second.{second_messages}

abbrev pub catalog : List (String × String)
catalog = first_messages ++ second_messages
