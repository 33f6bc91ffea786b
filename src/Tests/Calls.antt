-- ===== src/Tests/Calls.antt =====
-- Budget, tools and gateway.
use nightswatch.Prelude.{ℕ, suc, ◌+◌, ◌*◌, ◌≤◌, ◌≡◌, refl, ◌⊎◌, Option, some, List, [], ◌∷◌}
use nightswatch.Json.{Fields, end, field, text}
use nightswatch.Action.{llm_transient_error, ◌>>=◌, Reason, budget_exhausted, Result, return, raise}
use nightswatch.Budget.{
  record_tool_call, record_llm_call, assert_can_call_tool, assert_can_call_llm,
}
use nightswatch.Context.{Context}
use nightswatch.Tools.{
  get, dispatch, checked, call_handler, finish_handled, finish, found, missing_keys, dispatch_inner,
}
use nightswatch.Tools.Accounting.{Replied, dispatch_cases}
use nightswatch.Gateway.{
  LlmResponse, Request, Dispatched, rounds, round, run_call, record_usage, paid_call, chat,
  try_parse_json, tool_loop,
}
use nightswatch.Gateway.Chat.{chat-structured}
use nightswatch.Gateway.Loop.{Balanced, tool_loop-Balanced}
use nightswatch.Gateway.Retry.{chat-le}
use nightswatch.Tests.Data.{
  budget, ctx, registry, env_of, steady, flaky, request, retry-Retries, flaky-CountsCalls, answers,
}

dispatch_cases_example :
    ((reason : Reason) × (assert_can_call_tool 0 budget ≡ raise (budget_exhausted reason))
      × (dispatch (env_of steady).monotonic (env_of steady).describe registry "probe" end ctx
          ≡ (raise (budget_exhausted reason), ctx)))
    ⊎ ((assert_can_call_tool 0 budget ≡ return tt)
        × Replied ctx
            (dispatch (env_of steady).monotonic (env_of steady).describe registry "probe" end ctx))
dispatch_cases_example =
    dispatch_cases (env_of steady).monotonic (env_of steady).describe registry "probe" end ctx

answered : (chat (env_of flaky) request ctx).0 ≡ return (record answers { structured = some end })
unfolding chat paid_call assert_can_call_llm try_parse_json ◌>>=◌
answered = refl

abbrev some_object : Option Fields
some_object = some end

chat-structured_example :
    (fields : Fields) × (try_parse_json (env_of flaky) "{}" ≡ some fields)
    × (some_object ≡ some fields)
chat-structured_example = chat-structured (env_of flaky) request end ctx refl answered

chat-le_example : (chat (env_of flaky) request ctx).1.world ≤ 0 + 2 * 3
chat-le_example = chat-le (env_of flaky) (retry-Retries flaky) flaky-CountsCalls refl request ctx

abbrev looped : Result LlmResponse × Context ℕ
looped = tool_loop (env_of steady) "" "why" ("probe" ∷ []) 3 ctx

abbrev calls_reported : List Dispatched
calls_reported =
    record {
      name = "probe";
      input = field "metric" (text "up") end;
      result = field "value" (text "1") end;
    }
    ∷ []

looped_returns : looped.0 ≡ return (record answers { dispatched_tool_calls = calls_reported })
unfolding tool_loop rounds round run_call dispatch checked call_handler finish_handled finish found
    missing_keys dispatch_inner record_usage chat paid_call assert_can_call_llm assert_can_call_tool
    try_parse_json record_tool_call record_llm_call get nightswatch.Json.get ◌>>=◌
looped_returns = refl

tool_loop-Balanced_example : Balanced ctx calls_reported looped.1
tool_loop-Balanced_example =
    tool_loop-Balanced (env_of steady) ctx "" "why" ("probe" ∷ []) 3 looped_returns

abbrev down : Request → ℕ → Result LlmResponse × ℕ
down asked w = (raise llm_transient_error, suc w)

loop_raises : (tool_loop (env_of down) "" "why" [] 3 ctx).0 ≡ raise llm_transient_error
unfolding tool_loop rounds round chat paid_call assert_can_call_llm ◌>>=◌
loop_raises = refl
