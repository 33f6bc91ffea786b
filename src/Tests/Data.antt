-- ===== src/Tests/Data.antt =====
-- A small investigation: a budget, a context and an environment whose world counts the calls of the
-- provider. The model asks for one tool call first and answers with a JSON object after that.
use nightswatch.Prelude.{
  ℕ, zero, suc, ◌≡◌, refl, ap, ◌∙◌, true, false, none, some, [], ◌∷◌, str_eq, ◌==◌, if◌then◌else◌,
  arith,
}
use nightswatch.Json.{text, object, Fields, end, field}
use nightswatch.Action.{Exception, llm_transient_error, Result, return, raise, is_transient}
use nightswatch.Budget.{Budget}
use nightswatch.Context.{Context}
use nightswatch.Tools.{ToolSpec, ToolRegistry}
use nightswatch.Gateway.{LlmResponse, Request, Environment}
use nightswatch.Gateway.Retry.{Retries, CountsCalls}

abbrev pub budget : Budget
budget = record {
  max_wall_seconds = 600;
  max_tool_calls = 2;
  max_llm_tokens = 10000;
  max_llm_cost_usd = 100;
  max_tenant_cost_usd = 0;
  tenant_cost_used_usd = 0;
  started_monotonic = 1;
  tool_calls_used = 0;
  tokens_used = 0;
  cost_used_usd = 0;
}

abbrev pub alert_fields : Fields
alert_fields = field "fingerprint" (text "f-1") end

abbrev pub ctx : Context ℕ
ctx = record {
  investigation_id = 7;
  alert = alert_fields;
  service = end;
  budget = budget;
  triage = none;
  hypotheses = [];
  validated = [];
  report = none;
  completed_stages = [];
  current_stage_id = some 3;
  dry_run = false;
  store = some [];
  world = 0;
}

abbrev pub probe : ToolSpec ℕ
probe = record {
  name = "probe";
  required = "metric" ∷ [];
  handler = λ input c. (return (field "value" (text "1") end), c.world);
  allowed_stages = [];
}

abbrev pub registry : ToolRegistry ℕ
registry = probe ∷ []

abbrev pub asks : LlmResponse
asks = record {
  text = "";
  structured = none;
  tool_calls =
      record { name = "probe"; input = field "metric" (text "up") end; id = some "c-1" } ∷ [];
  tokens_used = 10;
  cost_usd = 1;
  stop_reason = "tool_use";
  dispatched_tool_calls = [];
}

abbrev pub answers : LlmResponse
answers = record {
  text = "{}";
  structured = none;
  tool_calls = [];
  tokens_used = 5;
  cost_usd = 1;
  stop_reason = "end_turn";
  dispatched_tool_calls = [];
}

abbrev retry_after : {W A : Type 0} → Result A × W → (W → Result A × W) → Result A × W
retry_after (return a, w) again = (return a, w)
retry_after (raise e, w) again = if is_transient e then again w else (raise e, w)

abbrev retry : {W A : Type 0} → ℕ → (W → Result A × W) → W → Result A × W
retry zero m w = m w
retry (suc zero) m w = m w
retry (suc (suc n)) m w = retry_after (m w) (retry (suc n) m)

-- The first call of the provider fails in passing.
abbrev pub flaky : Request → ℕ → Result LlmResponse × ℕ
flaky request w = if w == 0 then (raise llm_transient_error, suc w) else (return answers, suc w)

abbrev pub steady : Request → ℕ → Result LlmResponse × ℕ
steady request w = if w == 0 then (return asks, suc w) else (return answers, suc w)

abbrev pub env_of : (Request → ℕ → Result LlmResponse × ℕ) → Environment ℕ
env_of provider = record {
  monotonic = λ w. w;
  provider_chat = provider;
  retrying = retry;
  max_attempts = 3;
  loads = λ s. if str_eq s "{}" then some (object end) else none;
  dumps = λ fields. "{}";
  describe = λ keys. "Missing required input.";
  registry = registry;
}

retry_after-return :
    {W A : Type 0} (q : Result A × W) (again : W → Result A × W) (a : A)
    → q.0 ≡ return a
    → retry_after q again ≡ q
retry_after-return (return _, w) again a e = refl
retry_after-return (raise _, w) again a e = cc

retry_after-other :
    {W A : Type 0} (q : Result A × W) (again : W → Result A × W) (x : Exception)
    → q.0 ≡ raise x
    → is_transient x ≡ false
    → retry_after q again ≡ q
retry_after-other (return _, w) again x e other = cc
retry_after-other (raise y, w) again x e other =
    let same : y ≡ x = cc in rw (ap is_transient same ∙ other) refl

retry_after-transient :
    {W A : Type 0} (q : Result A × W) (again : W → Result A × W) (x : Exception)
    → q.0 ≡ raise x
    → is_transient x ≡ true
    → retry_after q again ≡ again q.1
retry_after-transient (return _, w) again x e transient = cc
retry_after-transient (raise y, w) again x e transient =
    let same : y ≡ x = cc in rw (ap is_transient same ∙ transient) refl

retry-return :
    (n : ℕ) (m : ℕ → Result LlmResponse × ℕ) (w : ℕ) (r : LlmResponse)
    → (m w).0 ≡ return r
    → retry (suc n) m w ≡ m w
retry-return zero m w r e = refl
retry-return (suc n) m w r e = retry_after-return (m w) (retry (suc n) m) r e

retry-other :
    (n : ℕ) (m : ℕ → Result LlmResponse × ℕ) (w : ℕ) (x : Exception)
    → (m w).0 ≡ raise x
    → is_transient x ≡ false
    → retry (suc n) m w ≡ m w
retry-other zero m w x e other = refl
retry-other (suc n) m w x e other = retry_after-other (m w) (retry (suc n) m) x e other

pub retry-Retries :
    (provider : Request → ℕ → Result LlmResponse × ℕ) → Retries (env_of provider) (λ w. w)
retry-Retries provider = record {
  returned = retry-return;
  not_retried = retry-other;
  last = λ m w e h. refl;
  retried = λ n m w e h transient. retry_after-transient (m w) (retry (suc n) m) e h transient;
}

pub flaky-CountsCalls : CountsCalls (env_of flaky) (λ w. w) (λ w. w)
flaky-CountsCalls = record { counted = λ request w. ground arith; paused = λ w. refl }

abbrev pub request : Request
request = record {
  system = "";
  messages = [];
  tools = [];
  response_format = some end;
  max_tokens = 100;
}
