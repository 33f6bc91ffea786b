-- ===== src/Stages/Hypotheses.antt =====
-- core/investigation/stages/hypothesis.py
pub mod Bounded
use Prim.Native.String as Native
use nightswatch.Prelude.{
  ℕ, String, Bool, true, false, not, ◌&&◌, ◌||◌, Option, none, some, List, [], ◌∷◌, length, take,
  is_empty, str_eq, if◌then◌else◌,
}
use nightswatch.Json
use nightswatch.Json.{Json, null, bool, integer, float, text, array, object, Fields, end, field}
use nightswatch.Action.{other, Result, return, raise, Action, pure, lift, gets, modify, ◌>>=◌, ◌>>◌}
use nightswatch.Context.{
  Classification, noise, known_issue, novel, TriageResult, Context, Hypothesis, Millionths,
}
use nightswatch.Database.{StageEnd}
use nightswatch.Pipeline.{StageResult}
use nightswatch.Tools.{for_stage, names}
use nightswatch.Gateway.{Environment, LlmResponse, tool_loop}
use nightswatch.Queries.{join, parts}
use nightswatch.Stages.{
  Prompts, PyValues, truthy, items_of, keys_of, characters, number_or, extract_json, assert_wall,
}

abbrev pub max_hypotheses : ℕ
max_hypotheses = 5

abbrev half : Millionths
half = record { minus = false; size = 500000 }

abbrev pub classification_name : Option TriageResult → String
classification_name none = "unknown"
classification_name (some triage) = elim triage.classification [
  | noise ↦ "noise"
  | known_issue ↦ "known_issue"
  | novel ↦ "novel"
]

-- `data.get("hypotheses", [])[:5]`: what cannot be sliced raises.
unfoldable pub sliced : Option Json → Result (List Json)
sliced none = return []
sliced (some (array items)) = return (take max_hypotheses (items_of items))
sliced (some (text s)) = return (take max_hypotheses (characters s))
sliced (some (object fields)) = raise (other "KeyError")
sliced (some _) = raise (other "TypeError")

-- What a `for` over `item.get("evidence_refs", [])` goes through.
unfoldable pub iterated : Option Json → Result (List Json)
iterated none = return []
iterated (some (array items)) = return (items_of items)
iterated (some (text s)) = return (characters s)
iterated (some (object fields)) = return (keys_of fields)
iterated (some _) = raise (other "TypeError")

module _ (py : PyValues) where
  unfoldable pub refs_of : List Json → List String
  refs_of [] = []
  refs_of (r ∷ rs) = let rest = refs_of rs in if truthy r then py.str r ∷ rest else rest

  abbrev confidence_of : Option Json → Millionths
  confidence_of none = half
  confidence_of (some conf) = number_or half conf

  abbrev with_refs : Fields → Json → Result (List Json) → Result (Option Hypothesis)
  with_refs item statement (raise e) = raise e
  with_refs item statement (return refs) = return (
      some record {
        statement = py.str statement;
        evidence_refs = refs_of refs;
        initial_confidence = confidence_of (Json.get "initial_confidence" item);
      })

  -- One round of the loop: `none` is `continue`.
  unfoldable pub parse_item : Json → Result (Option Hypothesis)
  unfolding refs_of iterated
  parse_item (object item) = elim (Json.get "statement" item) [
    | none ↦ return none
    | some statement ↦
        (if truthy statement
          then with_refs item statement (iterated (Json.get "evidence_refs" item))
          else return none)
  ]
  parse_item _ = return none

  abbrev keep : Option Hypothesis → List Hypothesis → List Hypothesis
  keep none hypotheses = hypotheses
  keep (some h) hypotheses = h ∷ hypotheses

  abbrev join_items :
      Result (Option Hypothesis) → Result (List Hypothesis) → Result (List Hypothesis)
  join_items (raise e) rest = raise e
  join_items (return one) (raise e) = raise e
  join_items (return one) (return hypotheses) = return (keep one hypotheses)

  unfoldable pub parse_items : List Json → Result (List Hypothesis)
  unfolding parse_item
  parse_items [] = return []
  parse_items (item ∷ items) = join_items (parse_item item) (parse_items items)

  abbrev parse_sliced : Result (List Json) → Result (List Hypothesis)
  parse_sliced (return items) = parse_items items
  parse_sliced (raise e) = raise e

  -- `if not data`: there is no object, or an empty one.
  unfoldable pub parse_data : Option Fields → Result (List Hypothesis)
  unfolding sliced parse_items
  parse_data none = return []
  parse_data (some end) = return []
  parse_data (some (field k v fields)) =
      parse_sliced (sliced (Json.get "hypotheses" (field k v fields)))

  unfoldable pub parse_hypotheses :
      (loads : String → Option Json) → String → Result (List Hypothesis)
  unfolding extract_json parse_data
  parse_hypotheses loads reply = parse_data (extract_json py loads reply)

  unfoldable pub render_user : {W : Type 0} → Context W → String
  render_user ctx = join "\n" (
      "## Alert"
      ∷ parts ("name: " ∷ py.show (Json.get "alert_name" ctx.alert) ∷ [])
      ∷ parts ("severity: " ∷ py.show (Json.get "severity" ctx.alert) ∷ [])
      ∷ parts ("status: " ∷ py.show (Json.get "status" ctx.alert) ∷ [])
      ∷ parts ("labels: " ∷ py.dumps (Json.get "labels" ctx.alert) ∷ [])
      ∷ parts ("annotations: " ∷ py.dumps (Json.get "annotations" ctx.alert) ∷ [])
      ∷ ""
      ∷ "## Subject service"
      ∷ parts ("name: " ∷ py.show (Json.get "name" ctx.service) ∷ [])
      ∷ parts ("label_selector: " ∷ py.dumps (Json.get "label_selector" ctx.service) ∷ [])
      ∷ ""
      ∷ parts ("## Triage classification: " ∷ classification_name ctx.triage ∷ [])
      ∷ ""
      ∷ "Investigate with the available tools, then output the JSON hypothesis list described in your instructions."
      ∷ [])

-- `ctx.gateway is None or ctx.dispatcher is None` is `configured` being false.
module _ {W : Type 0} (env : Environment W) (py : PyValues) (prompts : Prompts)
    (configured : Bool) where
  abbrev skipped : Action (Context W) StageResult
  skipped ctx = (
    return (record {
      status = StageEnd.succeeded;
      output = field "skipped" (text "no_gateway") end;
      error = none;
    }),
    record ctx {
      hypotheses =
          record {
            statement = "(no LLM configured; hypothesis generation skipped)";
            evidence_refs = [];
            initial_confidence = record { minus = false; size = 0 };
          }
          ∷ [];
    },
  )

  -- The assignment to `ctx.hypotheses` and the result.
  unfoldable pub conclude : List Hypothesis → Action (Context W) StageResult
  conclude hypotheses ctx = (
    return (record {
      status = if is_empty hypotheses then StageEnd.partial else StageEnd.succeeded;
      output = field "hypothesis_count" (integer false (length hypotheses)) end;
      error = none;
    }),
    record ctx { hypotheses = hypotheses },
  )

  unfoldable pub investigate : Action (Context W) StageResult
  unfolding parse_hypotheses render_user conclude
  investigate = do
    user ← gets (λ ctx. render_user py ctx)
    resp ←
        tool_loop env (parts (prompts.system ∷ "\n\n" ∷ prompts.hypothesis ∷ [])) user
          (names (for_stage "hypothesis" env.registry)) 10
    hypotheses ← lift (parse_hypotheses py env.loads resp.text)
    conclude hypotheses

  unfoldable pub execute : Action (Context W) StageResult
  unfolding investigate assert_wall
  execute = do assert_wall env; if configured then investigate else skipped
