-- ===== src/Prelude/Dicts.antt =====
-- Dictionaries of texts, as association lists in the order in which Python keeps the keys.
use native.Mathlib.Omega.{arith}
use Prim.Native.String.{String}
use mathlib.Core.Path.{◌≡◌, refl}
use mathlib.Core.Option.{some}
use mathlib.Core.List.{List, [], ◌∷◌}
use text.Mathlib.Text.{◌==◌ as str_eq}
use text.Mathlib.TextEquality.{eq_iff}
use nightswatch.Prelude.Tests.{if◌then◌else◌}
use nightswatch.Prelude.Lists.{lookup}

-- `d[k] = v`
unfoldable pub assign : String → String → List (String × String) → List (String × String)
assign k v [] = (k, v) ∷ []
assign k v ((j, w) ∷ d) =
    let rest = assign k v d in if str_eq j k then (j, v) ∷ d else (j, w) ∷ rest

-- `lookup` after `assign`, in the one form that serves both keys.
pub lookup-assign :
    (k j v : String) (d : List (String × String))
    → lookup j (assign k v d) ≡ (if str_eq k j then some v else lookup j d)
unfolding assign
lookup-assign k j v [] = refl
lookup-assign k j v ((i, w) ∷ d) =
    ground (arith, eq_iff k j, eq_iff i k, eq_iff i j, lookup-assign k j v d)
