-- ===== src/Gateway/Chat.antt =====
-- `chat`: what it may change, what it never touches, and what its structured output is.
use nightswatch.Prelude.{ℕ, ◌≤◌, ◌≡◌, refl, inl, inr, Option, none, some, arith}
use nightswatch.Json.{Fields}
use nightswatch.Action.{Result, return, raise, Result-cases, ◌>>=◌}
use nightswatch.Action.Preserves.{
  Preserves, Preserves-bind, Preserves-pure, Preserves-throw, Preserves-modify, preserving_rules,
}
use nightswatch.Budget.{record_llm_call}
use nightswatch.Context.{Context}
use nightswatch.Gateway.{
  Environment, Request, LlmResponse, corrective, chat, chat_with_retry, record_usage, assert_budget,
  paid_call, coerce_structured, accept_retry, structure, try_parse_json,
}

-- Between two moments only the world moved, and the spend on the model grew.
pub record Spent {W : Type 0} (before after : Context W) : Type 0 where
  pub tool_calls : after.budget.tool_calls_used ≡ before.budget.tool_calls_used
  pub max_tool_calls : after.budget.max_tool_calls ≡ before.budget.max_tool_calls
  pub tokens : before.budget.tokens_used ≤ after.budget.tokens_used
  pub cost : before.budget.cost_used_usd ≤ after.budget.cost_used_usd
  pub store : after.store ≡ before.store
  pub completed : after.completed_stages ≡ before.completed_stages
  pub report : after.report ≡ before.report
  pub identity : after.investigation_id ≡ before.investigation_id
  pub validated : after.validated ≡ before.validated

pub Spent-refl : {W : Type 0} (ctx : Context W) → Spent ctx ctx
Spent-refl ctx = record {
  tool_calls = refl;
  max_tool_calls = refl;
  tokens = omega arith;
  cost = omega arith;
  store = refl;
  completed = refl;
  report = refl;
  identity = refl;
  validated = refl;
}

module _ {W : Type 0} (env : Environment W) (start : Context W) where
  chat_with_retry-Preserves :
      (request : Request) → Preserves (Spent start) (chat_with_retry env request)
  unfolding chat_with_retry
  chat_with_retry-Preserves request = record {
    after = λ ctx h. record {
      tool_calls = h.tool_calls;
      max_tool_calls = h.max_tool_calls;
      tokens = h.tokens;
      cost = h.cost;
      store = h.store;
      completed = h.completed;
      report = h.report;
      identity = h.identity;
      validated = h.validated;
    };
  }

  record_usage-Preserves : (resp : LlmResponse) → Preserves (Spent start) (record_usage env resp)
  unfolding record_usage record_llm_call
  record_usage-Preserves resp = Preserves-modify _ λ ctx h. record {
    tool_calls = h.tool_calls;
    max_tool_calls = h.max_tool_calls;
    tokens = omega arith;
    cost = omega arith;
    store = h.store;
    completed = h.completed;
    report = h.report;
    identity = h.identity;
    validated = h.validated;
  }

  assert_budget-Preserves : (n : ℕ) → Preserves (Spent start) (assert_budget env n)
  unfolding assert_budget
  assert_budget-Preserves n = search preserving_rules

  paid_call-Preserves : (request : Request) → Preserves (Spent start) (paid_call env request)
  unfolding paid_call
  paid_call-Preserves request =
      search (
        preserving_rules, assert_budget-Preserves, chat_with_retry-Preserves,
        record_usage-Preserves,
      )

  accept_retry-Preserves :
      (resp : LlmResponse) (parsed : Option Fields)
      → Preserves (Spent start) (accept_retry env resp parsed)
  unfolding accept_retry
  accept_retry-Preserves resp none = Preserves-throw _
  accept_retry-Preserves resp (some fields) = Preserves-pure _

  coerce_structured-Preserves :
      (request : Request) (resp : LlmResponse) (parsed : Option Fields)
      → Preserves (Spent start) (coerce_structured env request resp parsed)
  unfolding coerce_structured
  coerce_structured-Preserves request resp (some fields) = Preserves-pure _
  coerce_structured-Preserves request resp none =
      Preserves-bind _ _ (paid_call-Preserves _) λ retry_resp. accept_retry-Preserves retry_resp _

  structure-Preserves :
      (format : Option Fields) (request : Request) (resp : LlmResponse)
      → Preserves (Spent start) (structure env format request resp)
  unfolding structure
  structure-Preserves none request resp = Preserves-pure _
  structure-Preserves (some schema) request resp = coerce_structured-Preserves request resp _

  pub chat-Preserves : (request : Request) → Preserves (Spent start) (chat env request)
  unfolding chat
  chat-Preserves request =
      Preserves-bind _ _ (paid_call-Preserves request) λ resp. structure-Preserves _ request resp

module _ {W : Type 0} (env : Environment W) where
  -- Whether `chat` returns or raises, also in the middle of its two calls: the tokens and the cost
  -- that the budget has counted do not go down, and the tool calls, the audit rows, the completed
  -- stages, the answers to the hypotheses, the report and the identity stay as they are.
  pub chat-Spent : (request : Request) (ctx : Context W) → Spent ctx (chat env request ctx).1
  chat-Spent request ctx = (chat-Preserves env ctx request).after ctx (Spent-refl ctx)

  -- The response holds the object that its own text reads as.
  abbrev Structured : Result LlmResponse → Type 0
  Structured (return resp) =
      (fields : Fields) × (try_parse_json env resp.text ≡ some fields)
      × (resp.structured ≡ some fields)
  Structured (raise _) = Unit

  accept_retry-Structured :
      (resp : LlmResponse) (parsed : Option Fields) (ctx : Context W)
      → try_parse_json env resp.text ≡ parsed
      → Structured (accept_retry env resp parsed ctx).0
  unfolding accept_retry ◌>>=◌
  accept_retry-Structured resp none ctx e = tt
  accept_retry-Structured resp (some fields) ctx e = (fields, e, refl)

  coerce_structured-Structured :
      (request : Request) (resp : LlmResponse) (parsed : Option Fields) (ctx : Context W)
      → try_parse_json env resp.text ≡ parsed
      → Structured (coerce_structured env request resp parsed ctx).0
  unfolding coerce_structured ◌>>=◌
  coerce_structured-Structured request resp (some fields) ctx e = (fields, e, refl)
  coerce_structured-Structured request resp none ctx e =
      elim (Result-cases (paid_call env (corrective env request resp) ctx).0) [
        | inl (retry_resp, paid) ↦ rw paid (accept_retry-Structured retry_resp _ _ refl)
        | inr (x, failed) ↦ rw failed tt
      ]

  structure-Structured :
      (format : Option Fields) (request : Request) (schema : Fields) (resp : LlmResponse)
      (ctx : Context W)
      → format ≡ some schema
      → Structured (structure env format request resp ctx).0
  unfolding structure
  structure-Structured none request schema resp ctx e = cc
  structure-Structured (some _) request schema resp ctx e =
      coerce_structured-Structured request resp _ ctx refl

  Structured-of :
      (request : Request) (schema : Fields) (ctx : Context W)
      → request.response_format ≡ some schema
      → Structured (chat env request ctx).0
  unfolding chat ◌>>=◌
  Structured-of request schema ctx e = elim (Result-cases (paid_call env request ctx).0) [
    | inl (resp, paid) ↦ rw paid (structure-Structured _ request schema resp _ e)
    | inr (x, failed) ↦ rw failed tt
  ]

  -- Where a response format is asked for, a response that `chat` returns is never without
  -- structured output, and that output is the JSON object that its own text reads as, also where
  -- it took the corrective re-prompt.
  pub chat-structured :
      (request : Request) (schema : Fields) (ctx : Context W) {resp : LlmResponse}
      → request.response_format ≡ some schema
      → (chat env request ctx).0 ≡ return resp
      → (fields : Fields) × (try_parse_json env resp.text ≡ some fields)
        × (resp.structured ≡ some fields)
  chat-structured request schema ctx e returned =
      rw returned at (Structured-of request schema ctx e)
