-- ===== src/Queries.antt =====
-- connectors/base.py, connectors/newrelic/queries.py and connectors/prometheus/queries.py: the typed
-- intents of the model, and how they are rendered as query text.
pub mod Quoting
pub mod Nrql
pub mod Promql
use Prim.Native.Char.{Char, code}
use Prim.Native.String as Native
use text.Mathlib.Text.{find?}
use nightswatch.Prelude.{
  ℕ, String, Bool, true, false, Option, none, some, List, [], ◌∷◌, ◌==◌, if◌then◌else◌,
}
use nightswatch.Context.{Millionths}
use nightswatch.Database.{Labels}

-- `inner` of an aggregation may be `None`.
mutual
  pub data QueryIntent : Type 0 where
    rate_over_window : (metric : String) (labels : Labels) (window_seconds : ℕ) → QueryIntent
    aggregation : (op : String) (by : List String) → Inner → QueryIntent
    percentile :
        (p : Millionths) (metric : String) (labels : Labels) (window_seconds : ℕ) → QueryIntent
    change_over_time : (metric : String) (labels : Labels) (window_seconds : ℕ) → QueryIntent
    raw_promql : String → QueryIntent
    raw_nrql : String → QueryIntent

  pub data Inner : Type 0 where
    absent : Inner
    inner : QueryIntent → Inner

-- What is used of Python's `str`, and how numbers are written into a text: an integer, a float, and
-- `p * 100` with `:g`.
pub record PyText : Type 0 where
  pub strip : String → String
  pub upper : String → String
  pub lower : String → String
  pub str : ℕ → String
  pub float : Millionths → String
  pub percent : Millionths → String

-- `needle in s`
abbrev pub occurs : String → String → Bool
occurs needle s = elim (find? s needle) [ none ↦ false | some i ↦ true ]

-- The parts of an f-string, one after the other.
abbrev pub parts : List String → String
parts [] = ""
parts (s ∷ rest) = Native.◌++◌ s (parts rest)

-- `separator.join(items)`
abbrev pub join : String → List String → String
join separator [] = ""
join separator (s ∷ []) = s
join separator (s ∷ t ∷ rest) = Native.◌++◌ s (Native.◌++◌ separator (join separator (t ∷ rest)))

abbrev pub is_char : Char → Char → Bool
is_char a b = code a == code b

-- `s.replace(c, a + b)` and `s.replace(c, "")`, for single characters.
unfoldable pub replace : (c a b : Char) → String → String
replace c a b String.[] = String.[]
replace c a b (String.◌∷◌ d s) =
    let rest = replace c a b s in
    if is_char d c then String.◌∷◌ a (String.◌∷◌ b rest) else String.◌∷◌ d rest

unfoldable pub remove : Char → String → String
remove c String.[] = String.[]
remove c (String.◌∷◌ d s) = let rest = remove c s in if is_char d c then rest else String.◌∷◌ d rest

abbrev pub backslash : Char
backslash = "\\"

-- `escape_string` with the quote `'`, and `_escape` with the quote `"`.
unfoldable pub escape : (quote : Char) → String → String
unfolding replace
escape quote value = replace quote backslash quote (replace backslash backslash backslash value)
