-- ===== src/Tests/Rendering.antt =====
-- Rendered queries.
use Prim.Native.String as Native
use nightswatch.Prelude.{◌≡◌, refl, some, [], ◌∷◌, map}
use nightswatch.Database.{Labels}
use nightswatch.Queries.{escape, join}
use Prim.Native.Char.{Char, code}
use nightswatch.Prelude.{Bool, ◌&&◌, leb, ◌==◌}
use nightswatch.Action.{other, return, raise}
use nightswatch.Queries.{PyText, rate_over_window}
use nightswatch.Queries.Promql.{labels_selector, parse_safe_promql, build}
use nightswatch.Queries.Nrql.{ident, condition, where_clause}
use nightswatch.Queries.Nrql.Conditions.{read_conditions, cleaned, read_conditions-join}

abbrev labels : Labels
labels = ("app", "it's' OR `x") ∷ ("ho`st", "a\\") ∷ []

rendered : where_clause labels ≡ " WHERE `app` = 'it\\'s\\' OR `x' AND `host` = 'a\\\\'"
unfolding where_clause ident escape
rendered = refl

read_conditions-join_example :
    read_conditions 2 (Native.◌++◌ (join " AND " (map condition labels)) " SINCE 300 seconds ago")
    ≡ some (map cleaned labels, " SINCE 300 seconds ago")
read_conditions-join_example = read_conditions-join labels " SINCE 300 seconds ago"

abbrev is_blank : Char → Bool
is_blank c = code c == b' '

abbrev is_letter : Char → Bool
is_letter c = leb b'a' (code c) && leb (code c) b'z'

abbrev pub py : PyText
py = record {
  strip = λ s. s;
  upper = λ s. s;
  lower = λ s. s;
  str = λ n. "300";
  float = λ x. "0.95";
  percent = λ x. "95";
}

-- A bound that stands right behind the parenthesis is seen, one behind a space is not.
bounded : parse_safe_promql is_blank is_letter py "topk(5, up)" ≡ return "topk(5, up)"
unfolding parse_safe_promql
bounded = refl

bounded_behind_space :
    parse_safe_promql is_blank is_letter py "topk( 5, up)" ≡ raise (other "ConnectorError")
unfolding parse_safe_promql
bounded_behind_space = refl

rate :
    build is_blank is_letter py (rate_over_window "http_requests" (("app", "a") ∷ []) 300)
    ≡ return "rate(http_requests{app=\"a\"}[300s])"
unfolding build labels_selector escape
rate = refl
