-- ===== src/Prelude/Texts.antt =====
-- `s.strip(c)` for one character, from either end.
use Prim.Native.Char.{Char, code}
use Prim.Native.String.{String}
use mathlib.Core.Bool.{Bool}
use nightswatch.Prelude.Tests.{◌==◌, if◌then◌else◌}

abbrev is_same : Char → Char → Bool
is_same c d = code c == code d

unfoldable pub strip_left : Char → String → String
strip_left dropped String.[] = String.[]
strip_left dropped (String.◌∷◌ c s) =
    let rest = strip_left dropped s in if is_same c dropped then rest else String.◌∷◌ c s

abbrev keep_or_drop : Char → Char → String → String
keep_or_drop dropped c String.[] = if is_same c dropped then String.[] else String.◌∷◌ c String.[]
keep_or_drop dropped c (String.◌∷◌ d s) = String.◌∷◌ c (String.◌∷◌ d s)

unfoldable pub strip_right : Char → String → String
strip_right dropped String.[] = String.[]
strip_right dropped (String.◌∷◌ c s) = keep_or_drop dropped c (strip_right dropped s)
