-- ===== src/RateLimit.antt =====
-- middleware/rate_limit.py: the sliding window of each key, and the middleware in front of the
-- webhooks. Readings of the monotonic clock and the window are in milliseconds.
pub mod Stored
pub mod Window
pub mod Retry
pub mod Middleware
use nightswatch.Prelude.{
  ℕ, ◌+◌, ◌-◌, ◌*◌, ◌/◌, String, Bool, true, false, not, ◌||◌, Option, none, some, List, [], ◌∷◌,
  ◌++◌, length, lookup, str_eq, ltb, leb, ◌==◌, if◌then◌else◌,
}
use Prim.Native.Nat.{max}
use text.Mathlib.Text.{starts_with}

pub record RateLimitDecision : Type 0 where
  pub allowed : Bool
  pub retry_after_seconds : ℕ

-- `_events`: for each key its deque, the oldest reading first. A limit of 0 stands for `limit <= 0`.
pub record SlidingWindowRateLimiter : Type 0 where
  pub limit : ℕ
  pub window_milliseconds : ℕ
  pub events : List (String × List ℕ)

-- `_events.setdefault(key, deque())`
abbrev or_empty : Option (List ℕ) → List ℕ
or_empty none = []
or_empty (some window) = window

abbrev pub window_of : String → List (String × List ℕ) → List ℕ
window_of key events = or_empty (lookup key events)

-- The deque of `key` is mutated in place.
unfoldable pub store : String → List ℕ → List (String × List ℕ) → List (String × List ℕ)
store key window [] = (key, window) ∷ []
store key window ((j, w) ∷ events) =
    if str_eq j key then (j, window) ∷ events else (j, w) ∷ store key window events

-- `while window and window[0] <= cutoff: window.popleft()`, with `cutoff = now - window_seconds`.
unfoldable pub expire : (window_milliseconds now : ℕ) → List ℕ → List ℕ
expire w now [] = []
expire w now (t ∷ ts) = let rest = expire w now ts in if leb (t + w) now then rest else t ∷ ts

-- `max(1, int(window[0] + window_seconds - now) + 1)`. The window is not empty here: `limit` is
-- above 0, and `len(window)` is not below it.
unfoldable pub retry_after : (window_milliseconds now : ℕ) → List ℕ → ℕ
retry_after w now [] = 1
retry_after w now (t ∷ ts) = max 1 ((t + w - now) / 1000 + 1)

unfoldable pub decide : (limit window_milliseconds now : ℕ) → List ℕ → List ℕ × RateLimitDecision
unfolding retry_after
decide limit w now window =
    if ltb (length window) limit
    then (window ++ now ∷ [], record { allowed = true; retry_after_seconds = 0 })
    else (window, record { allowed = false; retry_after_seconds = retry_after w now window })

-- `check` once the limit is known to be above 0. `now` is what `clock()` reads.
unfoldable pub check_enabled :
    (now : ℕ) → String → SlidingWindowRateLimiter → SlidingWindowRateLimiter × RateLimitDecision
check_enabled now key limiter =
    let (window, decision) =
      decide limiter.limit limiter.window_milliseconds now
        (expire limiter.window_milliseconds now (window_of key limiter.events)) in
    (record limiter { events = store key window limiter.events }, decision)

unfoldable pub check :
    (now : ℕ) → String → SlidingWindowRateLimiter → SlidingWindowRateLimiter × RateLimitDecision
check now key limiter =
    if limiter.limit == 0
    then (limiter, record { allowed = true; retry_after_seconds = 0 })
    else check_enabled now key limiter
