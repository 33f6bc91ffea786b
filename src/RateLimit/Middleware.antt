-- ===== src/RateLimit/Middleware.antt =====
-- WebhookRateLimitMiddleware: which requests reach the application.
use Prim.Native.Char.{Char, code}
use text.Mathlib.Text.{starts_with}
use nightswatch.Prelude.{
  ℕ, String, ◌≡◌, refl, Bool, true, false, Bool-cases, not, ◌&&◌, ◌||◌, ◌⊎◌, inl, inr, List, ◌∷◌,
  ◌++◌, [], ◌==◌, str_eq, if◌then◌else◌,
}
use nightswatch.RateLimit.{SlidingWindowRateLimiter, RateLimitDecision, check, window_of}
use nightswatch.RateLimit.Retry.{check_ne}

abbrev slash : Char → Bool
slash c = code c == b'/'

abbrev is_blank : String → Bool
is_blank String.[] = true
is_blank (String.◌∷◌ c s) = false

-- `s.rstrip("/")`
unfoldable pub rstrip_slash : String → String
rstrip_slash String.[] = String.[]
rstrip_slash (String.◌∷◌ c s) =
    let rest = rstrip_slash s in if is_blank rest && slash c then String.[] else String.◌∷◌ c rest

unfoldable pub has_slash : String → Bool
has_slash String.[] = false
has_slash (String.◌∷◌ c s) = slash c || has_slash s

-- `s.rsplit("/", 1)[-1]`
unfoldable pub last_segment : String → String
unfolding has_slash
last_segment String.[] = String.[]
last_segment (String.◌∷◌ c s) =
    let rest = last_segment s in if has_slash s then rest else if slash c then s else String.◌∷◌ c s

pub record Scope : Type 0 where
  pub type : String
  pub path : String

-- What happens to a request: the application answers it, or it gets a 429 with a `Retry-After`.
pub data Response : Type 0 where
  forwarded : Response
  too_many_requests : (retry_after : ℕ) → Response

-- The limiter, and the tenants of the recorded hits (the warnings, and the counter by tenant).
pub record WebhookRateLimit : Type 0 where
  pub limiter : SlidingWindowRateLimiter
  pub hits : List String

unfoldable pub is_webhook : Scope → Bool
is_webhook scope = str_eq scope.type "http" && starts_with scope.path "/v1/webhooks/"

unfoldable pub tenant_key : Scope → String
unfolding rstrip_slash last_segment
tenant_key scope = last_segment (rstrip_slash scope.path)

unfoldable pub answer :
    String
    → WebhookRateLimit
    → SlidingWindowRateLimiter × RateLimitDecision
    → WebhookRateLimit × Response
answer key m (limiter, decision) =
    if decision.allowed then (record m { limiter = limiter }, forwarded) else (
      record { limiter = limiter; hits = m.hits ++ key ∷ [] },
      too_many_requests decision.retry_after_seconds,
    )

unfoldable pub call : (now : ℕ) → Scope → WebhookRateLimit → WebhookRateLimit × Response
unfolding answer
call now scope m =
    if not (is_webhook scope)
    then (m, forwarded)
    else answer (tenant_key scope) m (check now (tenant_key scope) m.limiter)

-- What a request of `key` does to another key, and what it records.
pub record Isolated (key other : String) (m : WebhookRateLimit) (out : WebhookRateLimit × Response)
    : Type 0 where
  pub deque : window_of other out.0.limiter.events ≡ window_of other m.limiter.events
  pub recorded :
      ((out.1 ≡ forwarded) × (out.0.hits ≡ m.hits))
      ⊎ ((retry : ℕ) × (out.1 ≡ too_many_requests retry) × (out.0.hits ≡ m.hits ++ key ∷ []))

answer-Isolated :
    (key other : String) (m : WebhookRateLimit) (limiter : SlidingWindowRateLimiter)
    (decision : RateLimitDecision)
    → window_of other limiter.events ≡ window_of other m.limiter.events
    → Isolated key other m (answer key m (limiter, decision))
unfolding answer
answer-Isolated key other m limiter decision h = elim (Bool-cases decision.allowed) [
  | inl allowed ↦ rw allowed (record { deque = h; recorded = inl (refl, refl) })
  | inr denied ↦ rw denied (record { deque = h; recorded = inr (_, refl, refl) })
]

-- A request of one tenant never uses up the window of another: the deque of every other key stays
-- as it is, whether the request is forwarded or refused; and a hit is recorded, for its own tenant,
-- exactly if the answer is a 429.
pub call-Isolated :
    (now : ℕ) (scope : Scope) (other : String) (m : WebhookRateLimit)
    → str_eq (tenant_key scope) other ≡ false
    → Isolated (tenant_key scope) other m (call now scope m)
unfolding call
call-Isolated now scope other m h = elim (Bool-cases (is_webhook scope)) [
  | inl webhook ↦
      let (limiter, decision) = check now (tenant_key scope) m.limiter in
      rw webhook (
        answer-Isolated (tenant_key scope) other m limiter decision
          (check_ne now (tenant_key scope) other m.limiter h))
  | inr elsewhere ↦ rw elsewhere (record { deque = refl; recorded = inl (refl, refl) })
]
