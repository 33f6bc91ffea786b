-- ===== src/Action/Returns.antt =====
-- What holds of the result and of the state where an action returns.
use mathlib.Core.Path.{subst}
use nightswatch.Prelude.{◌≡◌, refl}
use nightswatch.Action.{Exception, Result, return, raise, Action, lift, pure, proceed, ◌>>=◌}

pub record Ensures {S A : Type 0} (Q : A → S → Type 0) (m : Action S A) : Type 0 where
  pub holds : (found : S) (a : A) → (m found).0 ≡ return a → Q a (m found).1

return-inj : {A : Type 0} (a b : A) → return a ≡ return b → a ≡ b
return-inj a b h = cc

pub Ensures-pure :
    {S A : Type 0} {Q : A → S → Type 0} (a : A) → ((s : S) → Q a s) → Ensures Q (pure a)
unfolding pure
Ensures-pure {Q = Q} a q = record {
  holds = λ found b h. subst (λ x. Q x found) (return-inj a b h) (q found);
}

-- What raises promises nothing.
pub Ensures-raise : {S A : Type 0} {Q : A → S → Type 0} (e : Exception) → Ensures Q (lift (raise e))
unfolding lift
Ensures-raise e = record { holds = λ found b h. absurd (cc) }

module _ {S A B : Type 0} {Q : B → S → Type 0} where
  proceed-Ensures :
      (r : Result A) (f : A → Action S B) (s : S) (b : B)
      → ((a : A) → r ≡ return a → Ensures Q (f a))
      → (proceed r f s).0 ≡ return b
      → Q b (proceed r f s).1
  proceed-Ensures (return a) f s b each h = (each a refl).holds s b h
  proceed-Ensures (raise e) f s b each h = absurd (cc)

  pub Ensures-bind :
      (m : Action S A) (f : A → Action S B) → ((a : A) → Ensures Q (f a)) → Ensures Q (m >>= f)
  unfolding ◌>>=◌
  Ensures-bind m f each = record {
    holds = λ found b h. proceed-Ensures (m found).0 f (m found).1 b (λ a e. each a) h;
  }

  -- What is known of the result of the first part.
  pub Ensures-after :
      {P : A → Type 0} (m : Action S A) (f : A → Action S B)
      → Ensures (λ a s. P a) m
      → ((a : A) → P a → Ensures Q (f a))
      → Ensures Q (m >>= f)
  unfolding ◌>>=◌
  Ensures-after m f first each = record {
    holds = λ found b h.
        proceed-Ensures (m found).0 f (m found).1 b (λ a e. each a (first.holds found a e)) h;
  }

  -- The first part does not depend on the state: its result is known.
  pub Ensures-lift :
      (r : Result A) (f : A → Action S B)
      → ((a : A) → r ≡ return a → Ensures Q (f a))
      → Ensures Q (lift r >>= f)
  unfolding ◌>>=◌
  Ensures-lift r f each = record { holds = λ found b h. proceed-Ensures r f found b each h }

-- An action that returns whatever it finds.
pub Ensures-run :
    {S A : Type 0} {Q : A → S → Type 0} (result : S → A) (after : S → S)
    → ((s : S) → Q (result s) (after s))
    → Ensures Q (λ s. (return (result s), after s))
Ensures-run {Q = Q} result after q = record {
  holds = λ found b h. subst (λ a. Q a (after found)) (return-inj (result found) b h) (q found);
}
