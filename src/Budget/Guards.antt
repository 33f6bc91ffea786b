-- ===== src/Budget/Guards.antt =====
-- When the guards of a budget let a call through, and what they raise.
use nightswatch.Prelude.{ℕ, ◌+◌, ◌≤◌, ◌<◌, Bool, true, false, ◌≡◌, refl, ◌↔◌, ◌⊎◌, inl, inr, arith}
use nightswatch.Action.{Reason, budget_exhausted, Result, return, raise}
use nightswatch.Budget.{
  Budget, refuse_if, after, elapsed, wall_milliseconds, assert_within_wall, assert_can_call_tool,
  assert_can_call_llm,
}

-- A guard returns, or raises `BudgetExhausted`.
abbrev pub Guarded : Result (Unit {0}) → Type 0
Guarded r = (r ≡ return tt) ⊎ ((reason : Reason) × (r ≡ raise (budget_exhausted reason)))

Guarded-refuse_if :
    (spent : Bool) (reason : Reason) {rest : Result (Unit {0})}
    → Guarded rest
    → Guarded (refuse_if spent reason rest)
Guarded-refuse_if true reason h = inr (reason, refl)
Guarded-refuse_if false reason h = h

Guarded-after :
    {first rest : Result (Unit {0})} → Guarded first → Guarded rest → Guarded (after first rest)
Guarded-after (inl e) h = rw e h
Guarded-after (inr (reason, e)) h = inr (reason, rw e)

Guarded-return : Guarded (return tt)
Guarded-return = inl refl

module _ (now : ℕ) (b : Budget) where
  pub assert_within_wall-Guarded : Guarded (assert_within_wall now b)
  unfolding assert_within_wall
  assert_within_wall-Guarded = Guarded-refuse_if _ _ (inl refl)

  pub assert_can_call_tool-Guarded : Guarded (assert_can_call_tool now b)
  unfolding assert_can_call_tool
  assert_can_call_tool-Guarded =
      Guarded-after assert_within_wall-Guarded (Guarded-refuse_if _ _ (inl refl))

  pub assert_can_call_llm-Guarded :
      (expected_tokens : ℕ) → Guarded (assert_can_call_llm now expected_tokens b)
  unfolding assert_can_call_llm
  assert_can_call_llm-Guarded expected_tokens =
      search (Guarded-after, Guarded-refuse_if, Guarded-return, assert_within_wall-Guarded)

  -- A tool may be called exactly while the investigation is within its time and below its number
  -- of tool calls.
  pub assert_can_call_tool_iff :
      (assert_can_call_tool now b ≡ return tt)
      ↔ ((elapsed now b < wall_milliseconds b) × (b.tool_calls_used < b.max_tool_calls))
  unfolding assert_can_call_tool
  assert_can_call_tool_iff = ground arith

  -- The model may be called with a number of expected tokens exactly while the investigation is
  -- within its time, those tokens still fit, its spend is below its cap, and the spend of the
  -- tenant is below the tenant's cap, where that is not 0.
  pub assert_can_call_llm_iff :
      (expected_tokens : ℕ)
      → (assert_can_call_llm now expected_tokens b ≡ return tt) ↔ (
          (elapsed now b < wall_milliseconds b)
          × (b.tokens_used + expected_tokens ≤ b.max_llm_tokens)
          × (b.cost_used_usd < b.max_llm_cost_usd)
          × ((b.max_tenant_cost_usd ≡ 0)
              ⊎ (b.tenant_cost_used_usd + b.cost_used_usd < b.max_tenant_cost_usd)))
  unfolding assert_can_call_llm
  assert_can_call_llm_iff expected_tokens = ground arith
