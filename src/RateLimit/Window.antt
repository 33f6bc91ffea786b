-- ===== src/RateLimit/Window.antt =====
-- The deque of one key against the whole history of its allowed requests.
use nightswatch.Prelude.{
  ℕ, ◌+◌, ◌≤◌, ◌<◌, ◌≡◌, refl, sym, ap, ◌∙◌, Bool, Bool-cases, inl, inr, List, [], ◌∷◌, ◌++◌,
  length, length-append, ltb, leb, String, true, false, ◌==◌, ◌||◌, if◌then◌else◌, arith,
}
use mathlib.Core.Path.{subst}
use nightswatch.RateLimit.{
  RateLimitDecision, SlidingWindowRateLimiter, window_of, store, expire, decide, check_enabled,
  check,
}
use nightswatch.RateLimit.Stored.{window_of-store_self}

abbrev pub All : (ℕ → Type 0) → List ℕ → Type 0
All P [] = Unit
All P (t ∷ ts) = P t × All P ts

-- The oldest first.
abbrev pub IsSorted : List ℕ → Type 0
IsSorted [] = Unit
IsSorted (t ∷ ts) = All (λ u. t ≤ u) ts × IsSorted ts

-- The readings of a history that lie less than `w` before `now`.
unfoldable pub recent : (w now : ℕ) → List ℕ → List ℕ
recent w now [] = []
recent w now (t ∷ ts) = let rest = recent w now ts in if leb (t + w) now then rest else t ∷ rest

All-mono : (P Q : ℕ → Type 0) (ts : List ℕ) → ((t : ℕ) → P t → Q t) → All P ts → All Q ts
All-mono P Q [] f h = tt
All-mono P Q (t ∷ ts) f (p, h) = (f t p, All-mono P Q ts f h)

All-recent : (P : ℕ → Type 0) (w now : ℕ) (ts : List ℕ) → All P ts → All P (recent w now ts)
unfolding recent
All-recent P w now [] h = tt
All-recent P w now (t ∷ ts) (p, h) = elim (Bool-cases (leb (t + w) now)) [
  | inl old ↦ rw old (All-recent P w now ts h)
  | inr young ↦ rw young (p, All-recent P w now ts h)
]

IsSorted-recent : (w now : ℕ) (ts : List ℕ) → IsSorted ts → IsSorted (recent w now ts)
unfolding recent
IsSorted-recent w now [] h = tt
IsSorted-recent w now (t ∷ ts) (first, h) = elim (Bool-cases (leb (t + w) now)) [
  | inl old ↦ rw old (IsSorted-recent w now ts h)
  | inr young ↦ rw young (All-recent _ w now ts first, IsSorted-recent w now ts h)
]

All-snoc : (P : ℕ → Type 0) (ts : List ℕ) {t : ℕ} → All P ts → P t → All P (ts ++ t ∷ [])
All-snoc P [] h p = (p, tt)
All-snoc P (u ∷ ts) (q, h) p = (q, All-snoc P ts h p)

IsSorted-snoc : (ts : List ℕ) (t : ℕ) → IsSorted ts → All (λ u. u ≤ t) ts → IsSorted (ts ++ t ∷ [])
IsSorted-snoc [] t h b = (tt, tt)
IsSorted-snoc (u ∷ ts) t (first, h) (p, b) = (All-snoc _ ts first p, IsSorted-snoc ts t h b)

recent-none_old : (w now : ℕ) (ts : List ℕ) → All (λ u. now < u + w) ts → recent w now ts ≡ ts
unfolding recent
recent-none_old w now [] h = refl
recent-none_old w now (t ∷ ts) (p, h) = ground (arith, recent-none_old w now ts h)

-- On a sorted deque popping from the left removes exactly what is too old.
pub expire-eq-recent : (w now : ℕ) (ts : List ℕ) → IsSorted ts → expire w now ts ≡ recent w now ts
unfolding expire recent
expire-eq-recent w now [] h = refl
expire-eq-recent w now (t ∷ ts) (first, h) = elim (Bool-cases (leb (t + w) now)) [
  | inl old ↦ rw old (expire-eq-recent w now ts h)
  | inr young ↦ rw young (
      ap (λ us. t ∷ us)
        (sym (recent-none_old w now ts (All-mono _ _ ts (λ u le. ground arith) first))))
]

recent-append :
    (w now : ℕ) (ts us : List ℕ) → recent w now (ts ++ us) ≡ recent w now ts ++ recent w now us
unfolding recent
recent-append w now [] us = refl
recent-append w now (t ∷ ts) us = ground (arith, recent-append w now ts us)

recent-recent :
    (w now later : ℕ) (ts : List ℕ)
    → now ≤ later
    → recent w later (recent w now ts) ≡ recent w later ts
unfolding recent
recent-recent w now later [] h = refl
recent-recent w now later (t ∷ ts) h = ground (arith, recent-recent w now later ts h)

pub length-recent-le : (w now : ℕ) (ts : List ℕ) → length (recent w now ts) ≤ length ts
unfolding recent
length-recent-le w now [] = omega arith
length-recent-le w now (t ∷ ts) = ground (arith, length-recent-le w now ts)

-- What `check` does to the deque of its key, where the limit is above 0.
abbrev pub step : (limit w now : ℕ) → List ℕ → List ℕ × RateLimitDecision
step limit w now window = decide limit w now (expire w now window)

-- The deque stands for the history of allowed requests: it is sorted, nothing in it lies after
-- `last`, and from `last` on both have the same recent readings, never more than the limit.
pub record Stands (limit w last : ℕ) (window history : List ℕ) : Type 0 where
  pub sorted : IsSorted window
  pub past : All (λ u. u ≤ last) window
  pub same : (now : ℕ) → last ≤ now → recent w now window ≡ recent w now history
  pub within : length window ≤ limit

pub Stands-nil : (limit w : ℕ) → Stands limit w 0 [] []
Stands-nil limit w = record { sorted = tt; past = tt; same = λ now h. refl; within = omega arith }

-- The history after a request: the request is added if it is allowed.
abbrev pub remember : ℕ → RateLimitDecision → List ℕ → List ℕ
remember now decision history = if decision.allowed then history ++ now ∷ [] else history

Stands-snoc :
    (limit w : ℕ) (window history : List ℕ) (now : ℕ)
    → Stands limit w now window history
    → length window < limit
    → Stands limit w now (window ++ now ∷ []) (history ++ now ∷ [])
Stands-snoc limit w window history now s room = record {
  sorted = IsSorted-snoc window now s.sorted s.past;
  past = All-snoc _ window s.past (omega arith);
  same = λ later le.
      recent-append w later window (now ∷ [])
      ∙ ap (λ ts. ts ++ recent w later (now ∷ [])) (s.same later le)
      ∙ sym (recent-append w later history (now ∷ []));
  within = omega (arith, length-append window (now ∷ []), room);
}

module _ {limit w : ℕ} {window history : List ℕ} where
  Stands-expire :
      {last : ℕ} (now : ℕ)
      → Stands limit w last window history
      → last ≤ now
      → Stands limit w now (expire w now window) history
  Stands-expire now s h = rw (expire-eq-recent w now window s.sorted) (record {
    sorted = IsSorted-recent w now window s.sorted;
    past = All-recent _ w now window (All-mono _ _ window (λ u le. omega arith) s.past);
    same = λ later le. recent-recent w now later window le ∙ s.same later (omega arith);
    within = omega (arith, length-recent-le w now window, s.within);
  })

  module _ {last : ℕ} (now : ℕ) (s : Stands limit w last window history) (h : last ≤ now) where
    -- The decision is the one of the specification: a request is allowed exactly if fewer than
    -- `limit` allowed requests are recent.
    pub step-allowed :
        (step limit w now window).1.allowed ≡ ltb (length (recent w now history)) limit
    unfolding decide
    step-allowed = rw (← s.same now h, ← expire-eq-recent w now window s.sorted) (ground arith)

    pub step-Stands :
        Stands limit w now
          (step limit w now window).0
          (remember now (step limit w now window).1 history)
    unfolding decide
    step-Stands = elim (Bool-cases (ltb (length (expire w now window)) limit)) [
      | inl room ↦
          rw room (Stands-snoc limit w _ history now (Stands-expire now s h) (ground arith))
      | inr full ↦ rw full (Stands-expire now s h)
    ]

-- The requests of one key, one after the other, through `check`: what it decides each time.
unfoldable pub decisions : String → SlidingWindowRateLimiter → (times : List ℕ) → List Bool
decisions key limiter [] = []
decisions key limiter (now ∷ times) =
    let (after, decision) = check now key limiter in decision.allowed ∷ decisions key after times

-- The specification keeps the whole history, and counts what is recent. A limit of 0 lets all pass.
pub specified : (limit w : ℕ) → List ℕ → (times : List ℕ) → List Bool
specified limit w history [] = []
specified limit w history (now ∷ times) =
    let room = (limit == 0) || ltb (length (recent w now history)) limit in
    room ∷ specified limit w (if room then history ++ now ∷ [] else history) times

-- The clock does not go back.
abbrev pub IsForward : ℕ → List ℕ → Type 0
IsForward last [] = Unit
IsForward last (now ∷ times) = (last ≤ now) × IsForward now times

-- Without a limit everything passes, on both sides.
decisions_off :
    (key : String) (limiter : SlidingWindowRateLimiter) (history times : List ℕ)
    → (limiter.limit == 0) ≡ true
    → decisions key limiter times
      ≡ specified limiter.limit limiter.window_milliseconds history times
unfolding decisions specified check
decisions_off key limiter history [] off = refl
decisions_off key limiter history (now ∷ times) off =
    rw off (ap (λ ds. true ∷ ds) (decisions_off key limiter (history ++ now ∷ []) times off))

decisions_on :
    (key : String) (last : ℕ) (limiter : SlidingWindowRateLimiter) (history times : List ℕ)
    → (limiter.limit == 0) ≡ false
    → Stands limiter.limit limiter.window_milliseconds last (window_of key limiter.events) history
    → IsForward last times
    → decisions key limiter times
      ≡ specified limiter.limit limiter.window_milliseconds history times
unfolding decisions specified check check_enabled
decisions_on key last limiter history [] on s f = refl
decisions_on key last limiter history (now ∷ times) on s (h, f) =
    let w = limiter.window_milliseconds in
    let next = step limiter.limit w now (window_of key limiter.events) in
    let after : SlidingWindowRateLimiter = record limiter {
      events = store key next.0 limiter.events;
    } in
    let kept =
      subst (λ window. Stands limiter.limit w now window (remember now next.1 history))
        (sym (window_of-store_self key next.0 limiter.events)) (step-Stands now s h) in
    rw (on, ← step-allowed now s h)
      (ap (λ ds. next.1.allowed ∷ ds)
        (decisions_on key now after (remember now next.1 history) times on kept f))

-- On a clock that does not go back, what `check` decides on the requests of a key that it has not seen
-- is what the specification says: with a limit of 0 every request is allowed; with any other one a
-- request is allowed exactly if fewer than `limit` of the requests allowed before it lie less than one
-- window back.
pub decisions-eq-specified :
    (key : String) (limiter : SlidingWindowRateLimiter) (times : List ℕ)
    → window_of key limiter.events ≡ []
    → IsForward 0 times
    → decisions key limiter times ≡ specified limiter.limit limiter.window_milliseconds [] times
decisions-eq-specified key limiter times unseen f = elim (Bool-cases (limiter.limit == 0)) [
  | inl off ↦ decisions_off key limiter [] times off
  | inr on ↦
      decisions_on key 0 limiter [] times on
        (subst (λ window. Stands limiter.limit limiter.window_milliseconds 0 window []) (sym unseen)
          (Stands-nil limiter.limit limiter.window_milliseconds))
        f
]
