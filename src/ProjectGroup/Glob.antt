-- ===== src/ProjectGroup/Glob.antt =====
-- The patterns of the mapping file (backend/internal/projectgroup/rules.go): the text of the regular
-- expression that a pattern becomes. Compiling and matching it is Go's.
use bomhort.Base.{ℕ, Text, [], ◌∷◌, ◌++◌, codes, eqb, trim_space, if◌then◌else◌}
use bomhort.ProjectGroup.{Library}

-- What one rune of the pattern writes.
abbrev pub glob_part : Library → ℕ → Text
glob_part lib r =
    if eqb r b'*' then codes ".*" else (if eqb r b'?' then codes "." else lib.quote_meta (r ∷ []))

unfoldable pub glob_parts : Library → Text → Text
glob_parts lib [] = []
glob_parts lib (r ∷ glob) = glob_part lib r ++ glob_parts lib glob

abbrev pub glob_regexp : Library → Text → Text
glob_regexp lib glob = codes "(?i)^" ++ glob_parts lib (trim_space glob) ++ codes "$"
