-- ===== src/Tests/Limits.antt =====
-- The rate limiter and its middleware.
use nightswatch.Prelude.{ℕ, ◌+◌, ◌*◌, ◌≤◌, ◌≡◌, refl, true, false, List, [], ◌∷◌, str_eq, arith}
use nightswatch.RateLimit.{
  SlidingWindowRateLimiter, store, check, check_enabled, decide, expire, retry_after,
}
use nightswatch.RateLimit.Window.{IsForward, decisions, specified, decisions-eq-specified}
use nightswatch.RateLimit.Retry.{check_after_retry}
use nightswatch.RateLimit.Middleware.{
  Scope, WebhookRateLimit, tenant_key, call, Isolated, call-Isolated,
}

abbrev times : List ℕ
times = 1000 ∷ 2000 ∷ 3000 ∷ 61000 ∷ 61500 ∷ []

abbrev pair : SlidingWindowRateLimiter
pair = record { limit = 2; window_milliseconds = 60000; events = [] }

decided : decisions "t-1" pair times ≡ true ∷ true ∷ false ∷ true ∷ false ∷ []
unfolding decisions check check_enabled decide expire store
decided = refl

forward : IsForward 0 times
forward = (omega arith, (omega arith, (omega arith, (omega arith, (omega arith, tt)))))

decisions-eq-specified_example : decisions "t-1" pair times ≡ specified 2 60000 [] times
decisions-eq-specified_example = decisions-eq-specified "t-1" pair times refl forward

abbrev limiter : SlidingWindowRateLimiter
limiter = record {
  limit = 1;
  window_milliseconds = 60000;
  events = ("t-1", 1000 ∷ []) ∷ ("t-2", 5000 ∷ []) ∷ [];
}

denied : (check 2000 "t-1" limiter).1.allowed ≡ false
unfolding check check_enabled decide expire
denied = refl

waited : 2000 + (check 2000 "t-1" limiter).1.retry_after_seconds * 1000 ≤ 62000
unfolding check check_enabled decide expire retry_after
waited = omega arith

check_after_retry_example : (check 62000 "t-1" (check 2000 "t-1" limiter).0).1.allowed ≡ true
check_after_retry_example = check_after_retry 2000 62000 "t-1" limiter (omega arith) denied waited

abbrev scope : Scope
scope = record { type = "http"; path = "/v1/webhooks/alertmanager/t-1/" }

key_of : tenant_key scope ≡ "t-1"
unfolding tenant_key
key_of = refl

abbrev middleware : WebhookRateLimit
middleware = record { limiter = limiter; hits = [] }

other_key : str_eq (tenant_key scope) "t-2" ≡ false
unfolding tenant_key
other_key = refl

call-Isolated_example : Isolated (tenant_key scope) "t-2" middleware (call 2000 scope middleware)
call-Isolated_example = call-Isolated 2000 scope "t-2" middleware other_key
