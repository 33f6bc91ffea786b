-- ===== src/Gateway/Retry.antt =====
-- How often the provider is called. The retrying itself is tenacity's: what is used of it is what
-- its documentation says of `stop_after_attempt` and `retry_if_exception_type` with `reraise=True`.
use nightswatch.Prelude.{
  ℕ, zero, suc, ◌+◌, ◌*◌, ◌≤◌, ◌≡◌, false, true, Bool-cases, inl, inr, Option, none, some, arith,
}
use nightswatch.Json.{Fields}
use nightswatch.Action.{Exception, Result, return, raise, Result-cases, Action, ◌>>=◌, is_transient}
use nightswatch.Budget.Guards.{assert_can_call_llm-Guarded}
use nightswatch.Context.{Context}
use nightswatch.Gateway.{
  Environment, Request, LlmResponse, corrective, chat_with_retry, paid_call, accept_retry,
  coerce_structured, structure, chat, try_parse_json,
}

-- An attempt that returns, or raises an exception of another class, ends the row of attempts; after
-- a transient error there is a pause and one more attempt, while any are left.
pub record Retries {W : Type 0} (env : Environment W) (pause : W → W) : Type 0 where
  pub returned :
      (n : ℕ) (m : W → Result LlmResponse × W) (w : W) (r : LlmResponse)
      → (m w).0 ≡ return r
      → env.retrying (suc n) m w ≡ m w
  pub not_retried :
      (n : ℕ) (m : W → Result LlmResponse × W) (w : W) (e : Exception)
      → (m w).0 ≡ raise e
      → is_transient e ≡ false
      → env.retrying (suc n) m w ≡ m w
  pub last :
      (m : W → Result LlmResponse × W) (w : W) (e : Exception)
      → (m w).0 ≡ raise e
      → env.retrying 1 m w ≡ m w
  pub retried :
      (n : ℕ) (m : W → Result LlmResponse × W) (w : W) (e : Exception)
      → (m w).0 ≡ raise e
      → is_transient e ≡ true
      → env.retrying (suc (suc n)) m w ≡ env.retrying (suc n) m (pause (m w).1)

-- `calls` counts the calls of the provider in the world.
pub record CountsCalls {W : Type 0} (env : Environment W) (pause : W → W) (calls : W → ℕ)
    : Type 0 where
  pub counted : (request : Request) (w : W) → calls (env.provider_chat request w).1 ≡ suc (calls w)
  pub paused : (w : W) → calls (pause w) ≡ calls w

module _ {W : Type 0} (env : Environment W) {pause : W → W} {calls : W → ℕ}
    (retries : Retries env pause) (counts : CountsCalls env pause calls) where
  once :
      (n : ℕ) (request : Request) (w : W)
      → env.retrying (suc n) (env.provider_chat request) w ≡ env.provider_chat request w
      → calls (env.retrying (suc n) (env.provider_chat request) w).1 ≤ calls w + suc n
  once n request w e = rw e (omega (arith, counts.counted request w))

  attempts-le :
      (n : ℕ) (request : Request) (w : W)
      → calls (env.retrying (suc n) (env.provider_chat request) w).1 ≤ calls w + suc n
  attempts-le zero request w = elim (Result-cases (env.provider_chat request w).0) [
    | inl (r, e) ↦ once 0 request w (retries.returned 0 (env.provider_chat request) w r e)
    | inr (x, e) ↦ once 0 request w (retries.last (env.provider_chat request) w x e)
  ]
  attempts-le (suc n) request w = elim (Result-cases (env.provider_chat request w).0) [
    | inl (r, e) ↦
        once (suc n) request w (retries.returned (suc n) (env.provider_chat request) w r e)
    | inr (x, e) ↦ elim (Bool-cases (is_transient x)) [
      | inl transient ↦
          let w' = pause (env.provider_chat request w).1 in
          rw (retries.retried n (env.provider_chat request) w x e transient) (
            omega (
              arith,
              attempts-le n request w',
              counts.paused (env.provider_chat request w).1,
              counts.counted request w,
            ))
      | inr other ↦
          once (suc n) request w
            (retries.not_retried (suc n) (env.provider_chat request) w x e other)
    ]
  ]

  abbrev LeAfter : {A : Type 0} → ℕ → Context W → Result A × Context W → Type 0
  LeAfter n before (_, after) = calls after.world ≤ calls before.world + n

  bind-le :
      {A B : Type 0} (n k : ℕ) (m : Action (Context W) A) (f : A → Action (Context W) B)
      (ctx : Context W)
      → LeAfter n ctx (m ctx)
      → ((a : A) (c : Context W) → LeAfter k c (f a c))
      → LeAfter (n + k) ctx ((m >>= f) ctx)
  unfolding ◌>>=◌
  bind-le n k m f ctx h hf = elim (Result-cases (m ctx).0) [
    | inl (a, e) ↦ rw e (omega (arith, h, hf a (m ctx).1))
    | inr (x, e) ↦ rw e (omega (arith, h))
  ]

  module _ {attempts : ℕ} (positive : env.max_attempts ≡ suc attempts) where
    chat_with_retry-le :
        (request : Request) (ctx : Context W)
        → LeAfter env.max_attempts ctx (chat_with_retry env request ctx)
    unfolding chat_with_retry
    chat_with_retry-le request ctx = rw positive (attempts-le attempts request ctx.world)

    paid_call-le :
        (request : Request) (ctx : Context W)
        → LeAfter env.max_attempts ctx (paid_call env request ctx)
    unfolding paid_call ◌>>=◌
    paid_call-le request ctx =
        elim (assert_can_call_llm-Guarded (env.monotonic ctx.world) ctx.budget request.max_tokens) [
          | inl free ↦ elim (Result-cases (chat_with_retry env request ctx).0) [
            | inl (resp, e) ↦ rw (free, e) (chat_with_retry-le request ctx)
            | inr (x, e) ↦ rw (free, e) (chat_with_retry-le request ctx)
          ]
          | inr (reason, spent) ↦ rw spent (omega arith)
        ]

    accept_retry-le :
        (resp : LlmResponse) (parsed : Option Fields) (ctx : Context W)
        → LeAfter 0 ctx (accept_retry env resp parsed ctx)
    unfolding accept_retry ◌>>=◌
    accept_retry-le resp none ctx = omega arith
    accept_retry-le resp (some fields) ctx = omega arith

    coerce_structured-le :
        (request : Request) (resp : LlmResponse) (parsed : Option Fields) (ctx : Context W)
        → LeAfter env.max_attempts ctx (coerce_structured env request resp parsed ctx)
    unfolding coerce_structured ◌>>=◌
    coerce_structured-le request resp (some fields) ctx = omega arith
    coerce_structured-le request resp none ctx = omega (
      arith,
      bind-le env.max_attempts 0 (paid_call env (corrective env request resp))
          (λ retry_resp. accept_retry env retry_resp (try_parse_json env retry_resp.text)) ctx
          (paid_call-le _ ctx) (λ retry_resp c. accept_retry-le retry_resp _ c),
    )

    structure-le :
        (format : Option Fields) (request : Request) (resp : LlmResponse) (ctx : Context W)
        → LeAfter env.max_attempts ctx (structure env format request resp ctx)
    unfolding structure ◌>>=◌
    structure-le none request resp ctx = omega arith
    structure-le (some schema) request resp ctx = coerce_structured-le request resp _ ctx

    -- One `chat` calls the provider at most twice as often as one row of attempts may: once, and once
    -- more for the corrective re-prompt.
    pub chat-le :
        (request : Request) (ctx : Context W)
        → calls (chat env request ctx).1.world ≤ calls ctx.world + 2 * env.max_attempts
    unfolding chat
    chat-le request ctx = omega (
      arith,
      bind-le env.max_attempts env.max_attempts (paid_call env request)
          (λ resp. structure env request.response_format request resp) ctx
          (paid_call-le request ctx)
          (λ resp c. structure-le request.response_format request resp c),
    )
