-- ===== src/Budget.antt =====
-- core/investigation/budget.py
-- Amounts of money are in a fixed small unit of a dollar, and clock readings in milliseconds.
pub mod Guards
use nightswatch.Prelude.{ℕ, String, ◌+◌, ◌-◌, ◌*◌, Bool, ◌&&◌, ltb, leb, ◌==◌, if◌then◌else◌}
use nightswatch.Action.{
  Reason, wall_clock, tool_calls, llm_tokens, llm_cost, tenant_cost, budget_exhausted, Result,
  return, raise,
}

pub record Budget : Type 0 where
  pub max_wall_seconds : ℕ
  pub max_tool_calls : ℕ
  pub max_llm_tokens : ℕ
  pub max_llm_cost_usd : ℕ
  pub max_tenant_cost_usd : ℕ
  pub tenant_cost_used_usd : ℕ
  pub started_monotonic : ℕ
  pub tool_calls_used : ℕ
  pub tokens_used : ℕ
  pub cost_used_usd : ℕ

-- `str(exc)` of the exception that is raised for a reason.
abbrev pub message : Reason → String
message wall_clock = "Wall-clock budget exhausted"
message tool_calls = "Tool-call budget exhausted"
message llm_tokens = "LLM token budget exhausted"
message llm_cost = "LLM cost budget exhausted"
message tenant_cost = "Tenant LLM cost budget exhausted"

-- `now` is what `time.monotonic()` reads.
pub start : (now : ℕ) → Budget → Budget
start now b = record b { started_monotonic = now }

unfoldable pub elapsed : (now : ℕ) → Budget → ℕ
elapsed now b = if b.started_monotonic == 0 then 0 else now - b.started_monotonic

abbrev refuse_if : Bool → Reason → Result (Unit {0}) → Result (Unit {0})
refuse_if spent reason rest = if spent then raise (budget_exhausted reason) else rest

abbrev pub wall_milliseconds : Budget → ℕ
wall_milliseconds b = b.max_wall_seconds * 1000

unfoldable pub assert_within_wall : (now : ℕ) → Budget → Result (Unit {0})
unfolding elapsed
assert_within_wall now b =
    refuse_if (leb (wall_milliseconds b) (elapsed now b)) wall_clock (return tt)

abbrev after : Result (Unit {0}) → Result (Unit {0}) → Result (Unit {0})
after (return _) rest = rest
after (raise e) rest = raise e

unfoldable pub assert_can_call_tool : (now : ℕ) → Budget → Result (Unit {0})
unfolding assert_within_wall
assert_can_call_tool now b =
    after (assert_within_wall now b)
      (refuse_if (leb b.max_tool_calls b.tool_calls_used) tool_calls (return tt))

unfoldable pub assert_can_call_llm : (now expected_tokens : ℕ) → Budget → Result (Unit {0})
unfolding assert_within_wall
assert_can_call_llm now expected_tokens b = after (assert_within_wall now b) (
    refuse_if (ltb b.max_llm_tokens (b.tokens_used + expected_tokens)) llm_tokens (
      refuse_if (leb b.max_llm_cost_usd b.cost_used_usd) llm_cost (
        refuse_if
          (ltb 0 b.max_tenant_cost_usd
            && leb b.max_tenant_cost_usd (b.tenant_cost_used_usd + b.cost_used_usd))
          tenant_cost (return tt))))

unfoldable pub record_tool_call : Budget → Budget
record_tool_call b = record b { tool_calls_used = b.tool_calls_used + 1 }

unfoldable pub record_llm_call : (tokens cost_usd : ℕ) → Budget → Budget
record_llm_call tokens cost_usd b = record b {
  tokens_used = b.tokens_used + tokens;
  cost_used_usd = b.cost_used_usd + cost_usd;
}

-- What `snapshot` writes, field by field, in the source's order.
pub record Snapshot : Type 0 where
  pub elapsed_seconds : ℕ
  pub tool_calls_used : ℕ
  pub tokens_used : ℕ
  pub cost_used_usd : ℕ
  pub max_wall_seconds : ℕ
  pub max_tool_calls : ℕ
  pub max_llm_tokens : ℕ
  pub max_llm_cost_usd : ℕ
  pub max_tenant_cost_usd : ℕ
  pub tenant_cost_used_usd : ℕ

unfoldable pub snapshot : (now : ℕ) → Budget → Snapshot
snapshot now b = record {
  elapsed_seconds = elapsed now b;
  tool_calls_used = b.tool_calls_used;
  tokens_used = b.tokens_used;
  cost_used_usd = b.cost_used_usd;
  max_wall_seconds = b.max_wall_seconds;
  max_tool_calls = b.max_tool_calls;
  max_llm_tokens = b.max_llm_tokens;
  max_llm_cost_usd = b.max_llm_cost_usd;
  max_tenant_cost_usd = b.max_tenant_cost_usd;
  tenant_cost_used_usd = b.tenant_cost_used_usd;
}
