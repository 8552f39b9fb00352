-- ===== src/Log/Severity.antt =====
-- The levels of src/Log/severity_t.h and severity_t.cpp. The names of a level and the level of a name are
-- looked up in both directions of one map. boost's to_upper_copy is an argument. `none` is the exception
-- of a look-up that finds nothing.
mod Names
use lotospp.Base.{ℕ, List, [], ◌∷◌, Option, none, some, if◌then◌else◌, ◌==◌, codes, equals}

pub data SeverityLevel : Type 0 where
  l_trace l_debug l_info l_warning l_error l_fatal : SeverityLevel

abbrev pub Relations : Type 0
Relations = List (SeverityLevel × List ℕ)

-- severityMap.
abbrev pub severity_map : Relations
severity_map =
    (l_trace, codes "TRACE")
    ∷ (l_debug, codes "DEBUG")
    ∷ (l_info, codes "INFO")
    ∷ (l_warning, codes "WARNING")
    ∷ (l_error, codes "ERROR")
    ∷ (l_fatal, codes "FATAL")
    ∷ []

-- The number of a level, as static_cast<int> gives it.
unfoldable pub level_number : SeverityLevel → ℕ
level_number l_trace = 0
level_number l_debug = 1
level_number l_info = 2
level_number l_warning = 3
level_number l_error = 4
level_number l_fatal = 5

unfoldable pub find_right : List ℕ → Relations → Option SeverityLevel
find_right name [] = none
find_right name ((level, text) ∷ rs) = if equals text name then some level else find_right name rs

unfoldable pub find_left : SeverityLevel → Relations → Option (List ℕ)
find_left level [] = none
find_left level ((l, text) ∷ rs) =
    if level_number l == level_number level then some text else find_left level rs

unfoldable pub to_severity : (List ℕ → List ℕ) → List ℕ → Option SeverityLevel
to_severity to_upper_copy name = find_right (to_upper_copy name) severity_map

unfoldable pub to_string : SeverityLevel → Option (List ℕ)
to_string level = find_left level severity_map

-- The level of severity_t's default constructor.
abbrev pub default_level : SeverityLevel
default_level = l_info
