-- ===== src/Tools.antt =====
-- llm/tools/__init__.py: the registry, and the dispatcher that every tool call passes through.
pub mod Accounting
use nightswatch.Prelude.{
  ℕ, ◌-◌, String, Bool, true, false, not, ◌&&◌, ◌||◌, Option, none, some, List, [], ◌∷◌, ◌++◌,
  is_empty, contains, lookup, str_eq, if◌then◌else◌,
}
use nightswatch.Json
use nightswatch.Json.{Json, text, object, Fields, end, field}
use nightswatch.Action.{
  class_name, other, Result, return, raise, Action, pure, throw, lift, gets, modify, ◌>>=◌, ◌>>◌,
}
use nightswatch.Budget.{Budget, assert_can_call_tool, record_tool_call}
use nightswatch.Context.{Context, ToolCallRow, Outcome, success, error}

-- A handler reads the context, and changes what lies outside.
pub record ToolSpec (W : Type 0) : Type 0 where
  pub name : String
  pub required : List String
  pub handler : Fields → Context W → Result Fields × W
  pub allowed_stages : List String

-- `_tools`, in the order of registration.
abbrev pub ToolRegistry : Type 0 → Type 0
ToolRegistry W = List (ToolSpec W)

module _ {W : Type 0} where
  unfoldable pub get : String → ToolRegistry W → Option (ToolSpec W)
  get name [] = none
  get name (spec ∷ tools) = if str_eq spec.name name then some spec else get name tools

  unfoldable pub register : ToolSpec W → ToolRegistry W → Result (ToolRegistry W)
  register spec tools = elim (get spec.name tools) [
    | none ↦ return (tools ++ spec ∷ [])
    | some _ ↦ raise (other "ValueError")
  ]

  unfoldable pub for_stage : String → ToolRegistry W → List (ToolSpec W)
  for_stage stage [] = []
  for_stage stage (spec ∷ tools) =
      let rest = for_stage stage tools in
      if is_empty spec.allowed_stages || contains stage spec.allowed_stages
      then spec ∷ rest
      else rest

  -- The loop of `register_builtin_tools` over the built-in specs; `existing` was read before it.
  unfoldable pub register_new :
      List String → List (ToolSpec W) → ToolRegistry W → Result (ToolRegistry W)
  register_new existing [] tools = return tools
  register_new existing (spec ∷ specs) tools =
      if contains spec.name existing
      then register_new existing specs tools
      else elim (register spec tools) [
        | return tools' ↦ register_new existing specs tools'
        | raise e ↦ raise e
      ]

  unfoldable pub names : ToolRegistry W → List String
  names [] = []
  names (spec ∷ tools) = spec.name ∷ names tools

  unfoldable pub register_builtin_tools :
      List (ToolSpec W) → ToolRegistry W → Result (ToolRegistry W)
  register_builtin_tools builtin tools = register_new (names tools) builtin tools

-- The required keys that the input lacks.
unfoldable pub missing_keys : List String → Fields → List String
missing_keys [] input = []
missing_keys (k ∷ ks) input =
    let rest = missing_keys ks input in elim (Json.get k input) [ none ↦ k ∷ rest | some _ ↦ rest ]

abbrev error_of : (type message : String) → Fields
error_of type message = field "type" (text type) (field "message" (text message) end)

-- `{"error": error}`
abbrev pub error_envelope : Fields → Fields
error_envelope e = field "error" (object e) end

-- `ToolCallStore.record`, where there is a store.
abbrev pub append_row : ToolCallRow → Option (List ToolCallRow) → Option (List ToolCallRow)
append_row row none = none
append_row row (some rows) = some (rows ++ row ∷ [])

-- `monotonic` is `time.monotonic()`; `describe` prints the message of
-- an error from the names that it quotes.
module _ {W : Type 0} (monotonic : W → ℕ) (describe : List String → String)
    (registry : ToolRegistry W) where
  unfoldable pub finish :
      String → Fields → ℕ → Option Fields → Outcome → Option Fields → Action (Context W) Fields
  finish name input started output outcome err ctx =
      let row : ToolCallRow = record {
        investigation_id = ctx.investigation_id;
        stage_id = ctx.current_stage_id;
        tool_name = name;
        input = input;
        output = output;
        latency_ms = monotonic ctx.world - started;
        outcome = outcome;
        error = err;
      } in
      let reply : Fields = elim outcome [
        | success ↦ elim output [ none ↦ end | some fields ↦ fields ]
        | error ↦ elim err [ none ↦ end | some fields ↦ error_envelope fields ]
      ] in
      (
        return reply,
        record ctx { budget = record_tool_call ctx.budget; store = append_row row ctx.store },
      )

  -- The handler ran: what it returned, or any exception that it raised, is recorded.
  unfoldable pub finish_handled : String → Fields → ℕ → Result Fields → Action (Context W) Fields
  unfolding finish
  finish_handled name input started (return output) =
      finish name input started (some output) success none
  finish_handled name input started (raise e) =
      finish name input started none error
        (some (error_of (class_name e) (describe (class_name e ∷ []))))

  unfoldable pub call_handler : ToolSpec W → String → Fields → ℕ → Action (Context W) Fields
  unfolding finish_handled
  call_handler spec name input started ctx =
      let (result, world') = spec.handler input ctx in
      finish_handled name input started result (record ctx { world = world' })

  unfoldable pub checked :
      ToolSpec W → String → Fields → ℕ → List String → Action (Context W) Fields
  unfolding call_handler
  checked spec name input started [] = call_handler spec name input started
  checked spec name input started (k ∷ ks) =
      finish name input started none error (some (error_of "invalid_input" (describe (k ∷ ks))))

  unfoldable pub found : String → Fields → ℕ → Option (ToolSpec W) → Action (Context W) Fields
  unfolding checked
  found name input started none =
      finish name input started none error (some (error_of "unknown_tool" (describe (name ∷ []))))
  found name input started (some spec) =
      checked spec name input started (missing_keys spec.required input)

  unfoldable pub dispatch_inner : String → Fields → Action (Context W) Fields
  unfolding found
  dispatch_inner name input ctx = found name input (monotonic ctx.world) (get name registry) ctx

  unfoldable pub dispatch : String → Fields → Action (Context W) Fields
  unfolding dispatch_inner
  dispatch name input = do
    now ← gets (λ ctx. monotonic ctx.world)
    used ← gets (λ ctx. ctx.budget)
    lift (assert_can_call_tool now used)
    dispatch_inner name input
