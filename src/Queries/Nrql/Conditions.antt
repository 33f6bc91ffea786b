-- ===== src/Queries/Nrql/Conditions.antt =====
-- The conditions of a rendered query are read back as the labels they came from: whatever the labels
-- hold, nothing of them is read as query text.
use Prim.Native.Char.{Char}
use Prim.Native.String as Native
use text.Mathlib.TextLemmas.{nil-append, cons-append, append_assoc}
use nightswatch.Prelude.{
  ℕ, zero, suc, String, ◌≡◌, refl, ap, ◌∙◌, Bool-cases, inl, inr, Option, none, some, [], ◌∷◌, map,
  length, if◌then◌else◌,
}
use nightswatch.Database.{Labels}
use nightswatch.Queries.{is_char, remove, escape, join}
use nightswatch.Queries.Quoting.{read_quoted, read_quoted-escape, is_char_self}
use nightswatch.Queries.Nrql.{backtick, single_quote, ident, condition}

abbrev then_push : Char → Option (String × String) → Option (String × String)
then_push c none = none
then_push c (some (name, rest)) = some (String.◌∷◌ c name, rest)

-- An identifier, after its first backtick: everything up to the next backtick.
unfoldable pub read_ident : String → Option (String × String)
read_ident String.[] = none
read_ident (String.◌∷◌ c s) =
    let rest = read_ident s in if is_char c backtick then some (String.[], s) else then_push c rest

read_ident-remove :
    (name rest : String)
    → read_ident (Native.◌++◌ (remove backtick name) (String.◌∷◌ backtick rest))
      ≡ some (remove backtick name, rest)
unfolding read_ident remove
read_ident-remove String.[] rest = rw nil-append refl
read_ident-remove (String.◌∷◌ c name) rest = elim (Bool-cases (is_char c backtick)) [
  | inl dropped ↦ rw dropped (read_ident-remove name rest)
  | inr kept ↦ rw kept (rw cons-append (rw (kept, read_ident-remove name rest) refl))
]

-- What follows `expected`.
unfoldable pub skip : (expected : String) → String → Option String
skip String.[] s = some s
skip (String.◌∷◌ c expected) String.[] = none
skip (String.◌∷◌ c expected) (String.◌∷◌ d s) =
    let rest = skip expected s in if is_char c d then rest else none

pub skip-append : (expected rest : String) → skip expected (Native.◌++◌ expected rest) ≡ some rest
unfolding skip
skip-append String.[] rest = rw nil-append refl
skip-append (String.◌∷◌ c expected) rest =
    rw cons-append (rw (is_char_self c) (skip-append expected rest))

abbrev pub and_then {ℓ κ} : {A : Type ℓ} {B : Type κ} → Option A → (A → Option B) → Option B
and_then none f = none
and_then (some a) f = f a

unfoldable pub read_condition : String → Option ((String × String) × String)
unfolding read_ident skip
read_condition s = and_then (skip "`" s) λ s1. and_then (read_ident s1) λ name.
    and_then (skip " = '" name.1)
      λ s2. and_then (read_quoted single_quote s2) λ value. some ((name.0, value.0), value.1)

tick : (s : String) → Native.◌++◌ "`" s ≡ String.◌∷◌ backtick s
tick s = cons-append backtick String.[] s ∙ ap (λ t. String.◌∷◌ backtick t) (nil-append s)

quote : (s : String) → Native.◌++◌ "'" s ≡ String.◌∷◌ single_quote s
quote s = cons-append single_quote String.[] s ∙ ap (λ t. String.◌∷◌ single_quote t) (nil-append s)

read_ident_of :
    (k rest : String)
    → read_ident (Native.◌++◌ (remove backtick k) (Native.◌++◌ "`" rest))
      ≡ some (remove backtick k, rest)
read_ident_of k rest =
    ap (λ t. read_ident (Native.◌++◌ (remove backtick k) t)) (tick rest) ∙ read_ident-remove k rest

read_value_of :
    (v rest : String)
    → read_quoted single_quote (Native.◌++◌ (escape single_quote v) (Native.◌++◌ "'" rest))
      ≡ some (v, rest)
read_value_of v rest =
    ap (λ t. read_quoted single_quote (Native.◌++◌ (escape single_quote v) t)) (quote rest)
    ∙ read_quoted-escape single_quote refl v rest

-- A condition in the shape that it is read in.
condition_shape :
    (k v rest : String)
    → Native.◌++◌ (condition (k, v)) rest
      ≡ Native.◌++◌ "`" (
          Native.◌++◌ (remove backtick k) (
            Native.◌++◌ "`"
              (Native.◌++◌ " = '" (Native.◌++◌ (escape single_quote v) (Native.◌++◌ "'" rest)))))
unfolding ident
condition_shape k v rest = simp (append_assoc, nil-append)

read_condition-condition :
    (k v rest : String)
    → read_condition (Native.◌++◌ (condition (k, v)) rest) ≡ some ((remove backtick k, v), rest)
unfolding read_condition
read_condition-condition k v rest =
    rw (condition_shape k v rest) (rw (skip-append, read_ident_of, skip-append, read_value_of) refl)

-- `n` conditions with ` AND ` between them.
unfoldable pub read_conditions : ℕ → String → Option (Labels × String)
read_conditions zero s = some ([], s)
read_conditions (suc zero) s = and_then (read_condition s) λ c. some (c.0 ∷ [], c.1)
read_conditions (suc (suc n)) s = and_then (read_condition s) λ c.
    and_then (skip " AND " c.1)
      λ s1. and_then (read_conditions (suc n) s1) λ cs. some (c.0 ∷ cs.0, cs.1)

abbrev pub cleaned : String × String → String × String
cleaned (k, v) = (remove backtick k, v)

abbrev conditions : Labels → String
conditions labels = join " AND " (map condition labels)

spread :
    (label other : String × String) (labels : Labels) (rest : String)
    → Native.◌++◌ (conditions (label ∷ other ∷ labels)) rest
      ≡ Native.◌++◌
          (condition label)
          (Native.◌++◌ " AND " (Native.◌++◌ (conditions (other ∷ labels)) rest))
spread label other labels rest =
    append_assoc (condition label) (Native.◌++◌ " AND " (conditions (other ∷ labels))) rest
    ∙ ap (Native.◌++◌ (condition label)) (append_assoc " AND " (conditions (other ∷ labels)) rest)

step :
    (n : ℕ) (k v s : String) (labels : Labels) (rest : String)
    → read_conditions (suc n) s ≡ some (labels, rest)
    → read_conditions (suc (suc n)) (Native.◌++◌ (condition (k, v)) (Native.◌++◌ " AND " s))
      ≡ some (cleaned (k, v) ∷ labels, rest)
unfolding read_conditions
step n k v s labels rest read =
    rw (read_condition-condition k v (Native.◌++◌ " AND " s))
      (rw (skip-append " AND " s) (rw read refl))

-- Conditions that are rendered and joined are read back as the labels they came from, each with its
-- whole value, and its key without backticks; what stands behind them is left as it is.
pub read_conditions-join :
    (labels : Labels) (rest : String)
    → read_conditions (length labels) (Native.◌++◌ (join " AND " (map condition labels)) rest)
      ≡ some (map cleaned labels, rest)
unfolding read_conditions
read_conditions-join [] rest = rw nil-append refl
read_conditions-join ((k, v) ∷ []) rest = rw (read_condition-condition k v rest) refl
read_conditions-join ((k, v) ∷ label ∷ labels) rest =
    ap (read_conditions (suc (suc (length labels)))) (spread (k, v) label labels rest)
    ∙ step (length labels) k v _ (map cleaned (label ∷ labels)) rest
        (read_conditions-join (label ∷ labels) rest)
