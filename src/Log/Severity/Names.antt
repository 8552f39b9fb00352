-- ===== src/Log/Severity/Names.antt =====
-- The names of the levels of src/Log/severity_t.h, and how severity_t.cpp reads them.
use lotospp.Base.{ℕ, ◌≡◌, refl, ap, sym, some_inj, ◌∙◌, List, some, codes}
use lotospp.Log.Severity.{
  SeverityLevel, l_trace, l_debug, l_info, l_warning, l_error, l_fatal, to_severity, to_string,
  severity_map, level_number, find_left, find_right,
}

to_severity-upper :
    (up : List ℕ → List ℕ) (name : List ℕ)
    → up name ≡ name
    → to_severity up name ≡ find_right name severity_map
unfolding to_severity
to_severity-upper up name e = ap (λ n. find_right n severity_map) e

found :
    (level : SeverityLevel) (name : List ℕ)
    → to_string level ≡ some name
    → find_right name severity_map ≡ some level
unfolding to_string find_left find_right level_number
found l_trace name e = ap (λ n. find_right n severity_map) (sym (some_inj e))
found l_debug name e = ap (λ n. find_right n severity_map) (sym (some_inj e))
found l_info name e = ap (λ n. find_right n severity_map) (sym (some_inj e))
found l_warning name e = ap (λ n. find_right n severity_map) (sym (some_inj e))
found l_error name e = ap (λ n. find_right n severity_map) (sym (some_inj e))
found l_fatal name e = ap (λ n. find_right n severity_map) (sym (some_inj e))

-- A to_upper_copy that leaves the name of a level alone: the name is read as this level.
to_severity-to_string :
    (up : List ℕ → List ℕ) (level : SeverityLevel) (name : List ℕ)
    → to_string level ≡ some name
    → up name ≡ name
    → to_severity up name ≡ some level
to_severity-to_string up level name e h = to_severity-upper up name h ∙ found level name e

-- A name in lower case, under the to_upper_copy that a test gives.
lower_case : to_severity (λ s. codes "ERROR") (codes "error") ≡ some l_error
unfolding to_severity find_right
lower_case = refl
