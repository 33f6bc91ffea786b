-- ===== src/Stages/Hypotheses/Bounded.antt =====
-- The hypotheses that the stage leaves, and the status that it reports with them.
use nightswatch.Prelude.{
  ℕ, suc, ◌≤◌, ◌≡◌, refl, true, false, Option, none, some, List, [], ◌∷◌, length, length-take,
  is_empty, if◌then◌else◌, arith,
}
use mathlib.Core.Path.{subst}
use nightswatch.Json
use nightswatch.Json.{Json, null, bool, integer, float, text, array, object, Fields, end, field}
use nightswatch.Action.{Result, return, raise}
use nightswatch.Action.Returns.{Ensures, Ensures-bind, Ensures-lift, Ensures-run}
use nightswatch.Context.{Context, Hypothesis}
use nightswatch.Database.{StageEnd}
use nightswatch.Pipeline.{StageResult}
use nightswatch.Gateway.{Environment}
use nightswatch.Stages.{Prompts, PyValues, items_of, characters}
use nightswatch.Stages.Hypotheses.{
  sliced, parse_item, join_items, parse_items, parse_sliced, parse_data, keep, conclude,
  investigate, execute,
}

-- What is returned has at most `n` elements.
abbrev AtMost : {A : Type 0} → ℕ → Result (List A) → Type 0
AtMost n (return xs) = length xs ≤ n
AtMost n (raise e) = Unit

AtMost-sliced : (value : Option Json) → AtMost 5 (sliced value)
unfolding sliced
AtMost-sliced none = omega arith
AtMost-sliced (some null) = tt
AtMost-sliced (some (bool b)) = tt
AtMost-sliced (some (integer minus n)) = tt
AtMost-sliced (some (float minus n)) = tt
AtMost-sliced (some (text s)) = length-take 5 (characters s)
AtMost-sliced (some (array xs)) = length-take 5 (items_of xs)
AtMost-sliced (some (object fields)) = tt

module _ (py : PyValues) where
  length-keep :
      (one : Option Hypothesis) (hs : List Hypothesis) → length (keep py one hs) ≤ suc (length hs)
  length-keep none hs = omega arith
  length-keep (some h) hs = omega arith

  AtMost-join_items :
      (one : Result (Option Hypothesis)) (rest : Result (List Hypothesis)) (n : ℕ)
      → AtMost n rest
      → AtMost (suc n) (join_items py one rest)
  AtMost-join_items (raise e) rest n h = tt
  AtMost-join_items (return one) (raise e) n h = tt
  AtMost-join_items (return one) (return hs) n h = omega (arith, length-keep one hs)

  AtMost-parse_items : (items : List Json) → AtMost (length items) (parse_items py items)
  unfolding parse_items
  AtMost-parse_items [] = omega arith
  AtMost-parse_items (item ∷ items) =
      AtMost-join_items (parse_item py item) (parse_items py items) (length items)
        (AtMost-parse_items items)

  AtMost-mono : (r : Result (List Hypothesis)) (m n : ℕ) → m ≤ n → AtMost m r → AtMost n r
  AtMost-mono (return hs) m n le h = omega arith
  AtMost-mono (raise e) m n le h = tt

  AtMost-parse_sliced : (r : Result (List Json)) → AtMost 5 r → AtMost 5 (parse_sliced py r)
  AtMost-parse_sliced (raise e) h = tt
  AtMost-parse_sliced (return items) h =
      AtMost-mono (parse_items py items) (length items) 5 h (AtMost-parse_items items)

  AtMost-parse_data : (fields : Option Fields) → AtMost 5 (parse_data py fields)
  unfolding parse_data
  AtMost-parse_data none = omega arith
  AtMost-parse_data (some end) = omega arith
  AtMost-parse_data (some (field k v fields)) =
      AtMost-parse_sliced (sliced (Json.get "hypotheses" (field k v fields)))
        (AtMost-sliced (Json.get "hypotheses" (field k v fields)))

  length-parsed :
      (fields : Option Fields) {hs : List Hypothesis}
      → parse_data py fields ≡ return hs
      → length hs ≤ 5
  length-parsed fields h = subst (AtMost 5) h (AtMost-parse_data fields)

-- What a stage that returned has left: at most five hypotheses, and it says `partial` exactly where
-- there is none.
pub record Concluded {W : Type 0} (result : StageResult) (after : Context W) : Type 0 where
  pub few : length after.hypotheses ≤ 5
  pub status :
      result.status ≡ (if is_empty after.hypotheses then StageEnd.partial else StageEnd.succeeded)
  pub counted :
      result.output ≡ field "hypothesis_count" (integer false (length after.hypotheses)) end

module _ {W : Type 0} (env : Environment W) (py : PyValues) (prompts : Prompts) where
  conclude-Concluded :
      (hs : List Hypothesis) → length hs ≤ 5 → Ensures Concluded (conclude env py prompts true hs)
  unfolding conclude
  conclude-Concluded hs few =
      Ensures-run _ _ (λ ctx. record { few = few; status = refl; counted = refl })

  investigate-Concluded : Ensures Concluded (investigate env py prompts true)
  unfolding investigate
  investigate-Concluded = Ensures-bind _ _ (λ user.
      Ensures-bind _ _
        (λ resp. Ensures-lift _ _ (λ hs e. conclude-Concluded hs (length-parsed py _ e))))

  execute-Ensures : Ensures Concluded (execute env py prompts true)
  unfolding execute
  execute-Ensures = Ensures-bind _ _ (λ _. investigate-Concluded)

  -- Where the model is configured and the hypothesis stage returns, whatever the model replied: the
  -- context has at most five hypotheses, the output counts them, and the status is `partial` where
  -- there is none and `succeeded` where there is one.
  pub execute-Concluded :
      (ctx : Context W) (result : StageResult)
      → (execute env py prompts true ctx).0 ≡ return result
      → Concluded result (execute env py prompts true ctx).1
  execute-Concluded = execute-Ensures.holds
