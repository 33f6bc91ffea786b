-- ===== src/RateLimit/Retry.antt =====
-- The retry hint of a denied request.
use nightswatch.Prelude.{
  ℕ, ◌+◌, ◌*◌, ◌≤◌, ◌<◌, String, ◌≡◌, refl, true, false, Bool-cases, inl, inr, List, [], ◌∷◌,
  length, ltb, leb, ◌==◌, str_eq, arith,
}
use nightswatch.RateLimit.Stored.{lookup-store, window_of-store_self}
use nightswatch.RateLimit.{
  SlidingWindowRateLimiter, window_of, expire, retry_after, decide, check_enabled, check,
}

length-expire-le : (w now : ℕ) (ts : List ℕ) → length (expire w now ts) ≤ length ts
unfolding expire
length-expire-le w now [] = omega arith
length-expire-le w now (t ∷ ts) = ground (arith, length-expire-le w now ts)

-- After `expire` the head, if there is one, is still in its window.
abbrev IsFresh : (w now : ℕ) → List ℕ → Type 0
IsFresh w now [] = Unit
IsFresh w now (t ∷ ts) = now < t + w

expire-IsFresh : (w now : ℕ) (ts : List ℕ) → IsFresh w now (expire w now ts)
unfolding expire
expire-IsFresh w now [] = tt
expire-IsFresh w now (t ∷ ts) = elim (Bool-cases (leb (t + w) now)) [
  | inl old ↦ rw old (expire-IsFresh w now ts)
  | inr young ↦ rw young (ground arith)
]

expire_after_retry :
    (limit w now later : ℕ) (window : List ℕ)
    → 0 < limit
    → length window ≤ limit
    → now + retry_after w now window * 1000 ≤ later
    → length (expire w later window) < limit
unfolding expire retry_after
expire_after_retry limit w now later [] pos within h = omega arith
expire_after_retry limit w now later (t ∷ ts) pos within h = elim (Bool-cases (leb (t + w) later)) [
  | inl old ↦ rw old (omega (arith, length-expire-le w later ts))
  | inr young ↦ absurd (ground arith)
]

-- A denial names at least one second.
retry_after-pos : (w now : ℕ) (window : List ℕ) → 1 ≤ retry_after w now window
unfolding retry_after
retry_after-pos w now [] = omega arith
retry_after-pos w now (t ∷ ts) = omega arith

-- A request for one key leaves the deque of every other key as it is.
pub check_ne :
    (now : ℕ) (key other : String) (limiter : SlidingWindowRateLimiter)
    → str_eq key other ≡ false
    → window_of other (check now key limiter).0.events ≡ window_of other limiter.events
unfolding check check_enabled
check_ne now key other limiter h = elim (Bool-cases (limiter.limit == 0)) [
  | inl off ↦ rw off
  | inr on ↦ rw on (simp (lookup-store, h))
]

decide_after_retry :
    (limit w now later : ℕ) (window : List ℕ)
    → 0 < limit
    → length window ≤ limit
    → (decide limit w now window).1.allowed ≡ false
    → now + (decide limit w now window).1.retry_after_seconds * 1000 ≤ later
    → (decide limit w later (expire w later (decide limit w now window).0)).1.allowed ≡ true
unfolding decide
decide_after_retry limit w now later window pos within denied h =
    elim (Bool-cases (ltb (length window) limit)) [
      | inl room ↦ absurd (ground arith)
      | inr full ↦
          let fits : length (expire w later window) < limit =
            expire_after_retry limit w now later window pos within (rw full at h) in
          rw full (ground arith)
    ]

check_enabled_after_retry :
    (now later : ℕ) (key : String) (limiter : SlidingWindowRateLimiter)
    → 0 < limiter.limit
    → length (window_of key limiter.events) ≤ limiter.limit
    → (check_enabled now key limiter).1.allowed ≡ false
    → now + (check_enabled now key limiter).1.retry_after_seconds * 1000 ≤ later
    → (check_enabled later key (check_enabled now key limiter).0).1.allowed ≡ true
unfolding check_enabled
check_enabled_after_retry now later key limiter pos within denied h = rw window_of-store_self (
    decide_after_retry limiter.limit limiter.window_milliseconds now later _ pos
      (omega (
        arith,
        within,
        length-expire-le limiter.window_milliseconds now (window_of key limiter.events),
      ))
      denied h)

check_on :
    (now : ℕ) (key : String) (limiter : SlidingWindowRateLimiter)
    → (limiter.limit == 0) ≡ false
    → check now key limiter ≡ check_enabled now key limiter
unfolding check
check_on now key limiter on = rw on

check_off :
    (now : ℕ) (key : String) (limiter : SlidingWindowRateLimiter)
    → (limiter.limit == 0) ≡ true
    → (check now key limiter).1.allowed ≡ true
unfolding check
check_off now key limiter off = rw off

limit-check_enabled :
    (now : ℕ) (key : String) (limiter : SlidingWindowRateLimiter)
    → (check_enabled now key limiter).0.limit ≡ limiter.limit
unfolding check_enabled
limit-check_enabled now key limiter = refl

-- A denied request is told a wait after which it will be allowed: if no request for its key comes
-- in between, and the key's deque is not over the limit, one at or after the end of that wait is.
pub check_after_retry :
    (now later : ℕ) (key : String) (limiter : SlidingWindowRateLimiter)
    → length (window_of key limiter.events) ≤ limiter.limit
    → (check now key limiter).1.allowed ≡ false
    → now + (check now key limiter).1.retry_after_seconds * 1000 ≤ later
    → (check later key (check now key limiter).0).1.allowed ≡ true
check_after_retry now later key limiter within denied h = elim (Bool-cases (limiter.limit == 0)) [
  | inl off ↦ cc (check_off now key limiter off)
  | inr on ↦
      let same = check_on now key limiter on in
      rw same (
        rw (check_on later key (check_enabled now key limiter).0 (rw limit-check_enabled on)) (
          check_enabled_after_retry now later key limiter (ground arith) within (rw same at denied)
            (rw same at h)))
]
