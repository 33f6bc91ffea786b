-- ===== src/Stages.antt =====
-- core/investigation/stages: what the stages that call the model share, the guard and the reading of
-- the JSON object in a reply. The texts of llm/prompts are fields of `Prompts`.
pub mod Hypotheses
pub mod Validation
pub mod Reporting
use Prim.Native.Char.{Char, code}
use Prim.Native.String as Native
use package.text.Mathlib.Text.{starts_with}
use nightswatch.Prelude.{
  ℕ, suc, zero, ◌*◌, String, Bool, true, false, not, Option, none, some, List, [], ◌∷◌, ◌==◌,
  str_eq, strip_left, strip_right, if◌then◌else◌,
}
use nightswatch.Json.{
  Json, null, bool, integer, float, text, array, object, Items, nil, cons, Fields, end, field,
}
use nightswatch.Action.{Action, lift}
use nightswatch.Budget.{assert_within_wall}
use nightswatch.Context.{Context, Millionths}
use nightswatch.Gateway.{Environment, is_dict}

pub record Prompts : Type 0 where
  pub system : String
  pub hypothesis : String
  pub validation : (hypothesis_statement : String) (initial_confidence : Millionths) → String
  pub report : String
  pub report_version : String

-- What the stages use of `str` and `json`: `show` is what an f-string writes for the value of `get`,
-- with `none` for a missing key, and `dumps` prints such a value, with `none` for the default `{}`.
pub record PyValues : Type 0 where
  pub strip : String → String
  pub lower : String → String
  pub str : Json → String
  pub show : Option Json → String
  pub dumps : Option Json → String
  pub show_float : Millionths → String

-- `if value:`
abbrev pub truthy : Json → Bool
truthy null = false
truthy (bool b) = b
truthy (integer minus n) = not (n == 0)
truthy (float minus n) = not (n == 0)
truthy (text s) = not (str_eq s "")
truthy (array nil) = false
truthy (array (cons x xs)) = true
truthy (object end) = false
truthy (object (field k v fs)) = true

abbrev pub items_of : Items → List Json
items_of nil = []
items_of (cons x xs) = x ∷ items_of xs

abbrev pub keys_of : Fields → List Json
keys_of end = []
keys_of (field k v fs) = text k ∷ keys_of fs

abbrev pub characters : String → List Json
characters String.[] = []
characters (String.◌∷◌ c s) = text (String.◌∷◌ c String.[]) ∷ characters s

-- `float(value) if isinstance(value, (int, float)) else default`; a Boolean is an `int`.
abbrev pub number_or : Millionths → Json → Millionths
number_or default (bool true) = record { minus = false; size = 1000000 }
number_or default (bool false) = record { minus = false; size = 0 }
number_or default (integer minus n) = record { minus = minus; size = n * 1000000 }
number_or default (float minus n) = record { minus = minus; size = n }
number_or default _ = default

abbrev close_with : Char → Option String → Option String
close_with c (some s) = some (String.◌∷◌ c s)
close_with c none = if code c == b'}' then some (String.◌∷◌ c String.[]) else none

-- Up to the last closing brace.
unfoldable pub to_last_brace : String → Option String
to_last_brace String.[] = none
to_last_brace (String.◌∷◌ c s) = close_with c (to_last_brace s)

abbrev open_with : Char → Option String → Option String
open_with c none = none
open_with c (some s) = some (String.◌∷◌ c s)

-- `re.search(r"\{.*\}", text, re.DOTALL)`: from an opening brace to the last closing one.
unfoldable pub search_braces : String → Option String
unfolding to_last_brace
search_braces String.[] = none
search_braces (String.◌∷◌ c s) =
    let rest = search_braces s in if code c == b'{' then open_with c (to_last_brace s) else rest

abbrev tick : Char
tick = "`"

module _ (py : PyValues) where
  unfoldable pub without_fence : String → String
  unfolding strip_left strip_right
  without_fence stripped =
      let bare = strip_right tick (strip_left tick stripped) in
      if starts_with stripped "```"
      then if starts_with (py.lower bare) "json"
        then Native.slice bare 4 (Native.len bare)
        else bare
      else stripped

  module _ (loads : String → Option Json) where
    abbrev load_match : Option String → Option Fields
    load_match none = none
    load_match (some s) = is_dict (loads s)

    -- `_extract_json`, with `none` for `None`; the validation stage has `{}` for it.
    unfoldable pub extract_json : String → Option Fields
    unfolding without_fence search_braces
    extract_json reply =
        let stripped = without_fence (py.strip reply) in
        elim (loads stripped) [
          | none ↦ load_match (search_braces stripped)
          | some value ↦ is_dict (some value)
        ]

module _ {W : Type 0} (env : Environment W) where
  -- `ctx.budget.assert_within_wall()`
  unfoldable pub assert_wall : Action (Context W) Unit
  assert_wall ctx = lift (assert_within_wall (env.monotonic ctx.world) ctx.budget) ctx
