-- ===== src/RateLimit/Stored.antt =====
-- What is read back from the deques of the limiter.
use nightswatch.Prelude.{
  ℕ, String, ◌≡◌, refl, some, List, [], ◌∷◌, lookup, str_eq, eq_iff, if◌then◌else◌, arith,
}
use text.Mathlib.TextPositions.{eq_refl}
use nightswatch.RateLimit.{window_of, store}

pub lookup-store :
    (key other : String) (window : List ℕ) (events : List (String × List ℕ))
    → lookup other (store key window events)
      ≡ (if str_eq key other then some window else lookup other events)
unfolding store
lookup-store key other window [] = refl
lookup-store key other window ((j, w) ∷ events) =
    ground
      (arith, eq_iff key other, eq_iff j key, eq_iff j other, lookup-store key other window events)

pub window_of-store_self :
    (key : String) (window : List ℕ) (events : List (String × List ℕ))
    → window_of key (store key window events) ≡ window
window_of-store_self key window events = simp (lookup-store, eq_refl)
