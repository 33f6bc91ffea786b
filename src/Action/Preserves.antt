-- ===== src/Action/Preserves.antt =====
-- Properties of the state that actions preserve.
use nightswatch.Action.{
  Exception, Result, return, raise, Action, pure, throw, lift, gets, modify, proceed, ◌>>=◌,
}

-- The state that `m` leaves, on its raising path too, has `P` if the state that it found had it.
pub record Preserves {S A : Type 0} (P : S → Type 0) (m : Action S A) : Type 0 where
  pub after : (found : S) → P found → P (m found).1

module _ {S A B : Type 0} {P : S → Type 0} where
  proceed-after :
      (outcome : Result A) (next : A → Action S B) (s : S)
      → P s
      → ((a : A) → Preserves P (next a))
      → P (proceed outcome next s).1
  proceed-after (raise e) next s holds each = holds
  proceed-after (return a) next s holds each = (each a).after s holds

  pub Preserves-bind :
      (first : Action S A) (next : A → Action S B)
      → Preserves P first
      → ((a : A) → Preserves P (next a))
      → Preserves P (first >>= next)
  unfolding ◌>>=◌
  Preserves-bind first next whole each = record {
    after = λ found holds.
        proceed-after (first found).0 next (first found).1 (whole.after found holds) each;
  }

pub Preserves-modify :
    {S : Type 0} {P : S → Type 0} (change : S → S)
    → ((s : S) → P s → P (change s))
    → Preserves P (modify change)
unfolding modify
Preserves-modify change stays = record { after = stays }

-- What does not write leaves the state that it found.
module _ {S A : Type 0} {P : S → Type 0} where
  pub Preserves-gets : (read : S → A) → Preserves P (gets read)
  unfolding gets
  Preserves-gets read = record { after = λ found holds. holds }

  pub Preserves-lift : (outcome : Result A) → Preserves P (lift outcome)
  unfolding lift
  Preserves-lift outcome = record { after = λ found holds. holds }

  pub Preserves-throw : (x : Exception) → Preserves P (throw {A = A} x)
  unfolding throw
  Preserves-throw x = record { after = λ found holds. holds }

  pub Preserves-pure : (value : A) → Preserves P (pure value)
  unfolding pure
  Preserves-pure value = record { after = λ found holds. holds }

pub ruleset preserving_rules =
    (Preserves-bind, Preserves-gets, Preserves-lift, Preserves-throw, Preserves-pure)
