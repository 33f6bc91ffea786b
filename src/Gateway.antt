-- ===== src/Gateway.antt =====
-- llm/gateway.py: one-shot calls with retry and structured output, and the tool loop.
pub mod Retry
pub mod Chat
pub mod Loop
use nightswatch.Prelude.{
  ℕ, zero, suc, ◌+◌, String, Bool, true, false, Option, none, some, List, [], ◌∷◌, ◌++◌,
}
use nightswatch.Json.{Json, object, Fields}
use nightswatch.Action.{
  Exception, budget_exhausted, llm_response_invalid, Result, return, raise, Action, pure, throw,
  lift, gets, modify, ◌>>=◌, ◌>>◌,
}
use nightswatch.Budget.{Budget, assert_can_call_llm, record_llm_call}
use nightswatch.Context.{Context}
use nightswatch.Tools.{ToolRegistry, dispatch}

pub data Role : Type 0 where
  system user assistant tool : Role

-- A tool call that the model asks for. A missing name or input is `""` or `{}`.
pub record ToolCall : Type 0 where
  pub name : String
  pub input : Fields
  pub id : Option String

pub record Message : Type 0 where
  pub role : Role
  pub content : String
  pub tool_use : List ToolCall
  pub tool_use_id : Option String

-- A tool call that the loop dispatched, with what came back.
pub record Dispatched : Type 0 where
  pub name : String
  pub input : Fields
  pub result : Fields

pub record LlmResponse : Type 0 where
  pub text : String
  pub structured : Option Fields
  pub tool_calls : List ToolCall
  pub tokens_used : ℕ
  pub cost_usd : ℕ
  pub stop_reason : String
  pub dispatched_tool_calls : List Dispatched

-- `LlmResponse(text="")`
abbrev pub empty_response : LlmResponse
empty_response = record {
  text = "";
  structured = none;
  tool_calls = [];
  tokens_used = 0;
  cost_usd = 0;
  stop_reason = "";
  dispatched_tool_calls = [];
}

-- The keyword arguments that `chat` hands to the provider.
pub record Request : Type 0 where
  pub system : String
  pub messages : List Message
  pub tools : List String
  pub response_format : Option Fields
  pub max_tokens : ℕ

-- What lies outside: the provider, tenacity's retrying, the clock, `json`, and the tools.
pub record Environment (W : Type 0) : Type 0 where
  pub monotonic : W → ℕ
  pub provider_chat : Request → W → Result LlmResponse × W
  pub retrying : ℕ → (W → Result LlmResponse × W) → W → Result LlmResponse × W
  pub max_attempts : ℕ
  pub loads : String → Option Json
  pub dumps : Fields → String
  pub describe : List String → String
  pub registry : ToolRegistry W

abbrev pub is_dict : Option Json → Option Fields
is_dict (some (object fields)) = some fields
is_dict _ = none

-- The local variables of `tool_loop`, which outlive its `try` block, beside the context.
pub record Frame (W : Type 0) : Type 0 where
  pub messages : List Message
  pub resp : LlmResponse
  pub dispatched : List Dispatched
  pub ctx : Context W

module _ {W : Type 0} (env : Environment W) where
  open env use {monotonic, provider_chat, retrying, max_attempts, loads, dumps, describe, registry}

  unfoldable pub try_parse_json : String → Option Fields
  try_parse_json text = is_dict (loads text)

  unfoldable pub chat_with_retry : Request → Action (Context W) LlmResponse
  chat_with_retry request ctx =
      let (result, world') = retrying max_attempts (provider_chat request) ctx.world in
      (result, record ctx { world = world' })

  -- The Prometheus counters are not part of the state.
  unfoldable pub record_usage : LlmResponse → Action (Context W) Unit
  record_usage resp =
      modify
        (λ ctx. record ctx { budget = record_llm_call resp.tokens_used resp.cost_usd ctx.budget })

  unfoldable pub assert_budget : ℕ → Action (Context W) Unit
  assert_budget expected_tokens = do
    now ← gets (λ ctx. monotonic ctx.world)
    budget ← gets (λ ctx. ctx.budget)
    lift (assert_can_call_llm now expected_tokens budget)

  abbrev plain : Role → String → Message
  plain role content = record { role = role; content = content; tool_use = []; tool_use_id = none }

  abbrev corrective : Request → LlmResponse → Request
  corrective request resp = record request {
    messages =
        request.messages
        ++ plain assistant resp.text
          ∷ plain user
              "Your previous reply was not a single valid JSON object. Respond with ONLY the JSON object, no prose or code fences."
          ∷ [];
  }

  abbrev with_structured : LlmResponse → Fields → LlmResponse
  with_structured resp fields = record resp { structured = some fields }

  unfoldable pub accept_retry : LlmResponse → Option Fields → Action (Context W) LlmResponse
  accept_retry resp none = throw llm_response_invalid
  accept_retry resp (some fields) = pure (with_structured resp fields)

  -- One gated and recorded call of the provider.
  unfoldable pub paid_call : Request → Action (Context W) LlmResponse
  unfolding assert_budget chat_with_retry record_usage
  paid_call request = do
    assert_budget request.max_tokens
    resp ← chat_with_retry request
    record_usage resp
    pure resp

  unfoldable pub coerce_structured :
      Request → LlmResponse → Option Fields → Action (Context W) LlmResponse
  unfolding accept_retry
  coerce_structured request resp (some fields) = pure (with_structured resp fields)
  coerce_structured request resp none = do
    retry_resp ← paid_call (corrective request resp)
    accept_retry retry_resp (try_parse_json retry_resp.text)

  unfoldable pub structure : Option Fields → Request → LlmResponse → Action (Context W) LlmResponse
  unfolding coerce_structured
  structure none request resp = pure resp
  structure (some schema) request resp = coerce_structured request resp (try_parse_json resp.text)

  unfoldable pub chat : Request → Action (Context W) LlmResponse
  unfolding structure
  chat request = do resp ← paid_call request; structure request.response_format request resp

  abbrev on_ctx : {A : Type 0} → Action (Context W) A → Action (Frame W) A
  on_ctx m frame = let (r, ctx') = m frame.ctx in (r, record frame { ctx = ctx' })

  unfoldable pub run_call : ToolCall → Action (Frame W) Unit
  run_call call = do
    result ← on_ctx (dispatch monotonic describe registry call.name call.input)
    modify λ frame. record frame {
      dispatched =
          frame.dispatched ++ record { name = call.name; input = call.input; result = result } ∷ [];
      messages =
          frame.messages
          ++ record { role = tool; content = dumps result; tool_use = []; tool_use_id = call.id }
            ∷ [];
    }

  unfoldable pub run_calls : List ToolCall → Action (Frame W) Unit
  run_calls [] = pure tt
  run_calls (call ∷ calls) = do run_call call; run_calls calls

  -- One round of the `for` loop; the reply says whether it goes on.
  unfoldable pub use_tools : String → List ToolCall → Action (Frame W) Bool
  unfolding run_calls
  use_tools text [] = pure false
  use_tools text (call ∷ calls) = do
    modify λ frame. record frame {
      messages =
          frame.messages
          ++ record {
            role = assistant;
            content = text;
            tool_use = call ∷ calls;
            tool_use_id = none;
          }
            ∷ [];
    }
    run_calls (call ∷ calls)
    pure true

  unfoldable pub round : (prompt : String) (tools : List String) → Action (Frame W) Bool
  unfolding use_tools
  round prompt tools = do
    messages ← gets (λ frame. frame.messages)
    resp ← on_ctx (
        chat (record {
          system = prompt;
          messages = messages;
          tools = tools;
          response_format = none;
          max_tokens = 4096;
        }))
    modify λ frame. record frame { resp = resp }
    use_tools resp.text resp.tool_calls

  unfoldable pub rounds : (prompt : String) (tools : List String) → ℕ → Action (Frame W) Unit
  rounds prompt tools zero = pure tt
  rounds prompt tools (suc n) = do
    more ← round prompt tools
    elim more [ true ↦ rounds prompt tools n | false ↦ pure tt ]

  abbrev opening : String → Context W → Frame W
  opening user_text ctx = record {
    messages = plain user user_text ∷ [];
    resp = empty_response;
    dispatched = [];
    ctx = ctx;
  }

  -- `except BudgetExhausted: pass`, and the end of the method.
  unfoldable pub finish_loop : Result (Unit {0}) → Frame W → Result LlmResponse × Context W
  finish_loop (raise (budget_exhausted _)) frame =
      (return (record frame.resp { dispatched_tool_calls = frame.dispatched }), frame.ctx)
  finish_loop (return _) frame =
      (return (record frame.resp { dispatched_tool_calls = frame.dispatched }), frame.ctx)
  finish_loop (raise e) frame = (raise e, frame.ctx)

  unfoldable pub tool_loop :
      (prompt user_text : String) (tools : List String) → ℕ → Action (Context W) LlmResponse
  unfolding finish_loop
  tool_loop prompt user_text tools max_iterations ctx =
      let (result, frame) = rounds prompt tools max_iterations (opening user_text ctx) in
      finish_loop result frame
