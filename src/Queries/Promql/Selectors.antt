-- ===== src/Queries/Promql/Selectors.antt =====
-- The values of a rendered selector are read back by someone who knows its keys.
use Prim.Native.String as Native
use text.Mathlib.TextLemmas.{nil-append, cons-append, append_assoc}
use nightswatch.Prelude.{String, ◌≡◌, refl, ap, ◌∙◌, Option, some, List, [], ◌∷◌, map}
use nightswatch.Database.{Labels}
use nightswatch.Queries.{join, escape}
use nightswatch.Queries.Quoting.{read_quoted, read_quoted-escape}
use nightswatch.Queries.Nrql.Conditions.{skip, skip-append, and_then}
use nightswatch.Queries.Promql.{pair, double_quote}

closing : (s : String) → Native.◌++◌ "\"" s ≡ String.◌∷◌ double_quote s
closing s =
    cons-append double_quote String.[] s ∙ ap (λ t. String.◌∷◌ double_quote t) (nil-append s)

read_value_of :
    (v rest : String)
    → read_quoted double_quote (Native.◌++◌ (escape double_quote v) (Native.◌++◌ "\"" rest))
      ≡ some (v, rest)
read_value_of v rest =
    ap (λ t. read_quoted double_quote (Native.◌++◌ (escape double_quote v) t)) (closing rest)
    ∙ read_quoted-escape double_quote refl v rest

pair_shape :
    (k v rest : String)
    → Native.◌++◌ (pair (k, v)) rest
      ≡ Native.◌++◌ k
          (Native.◌++◌ "=\"" (Native.◌++◌ (escape double_quote v) (Native.◌++◌ "\"" rest)))
pair_shape k v rest = simp (append_assoc, nil-append)

-- The value of the matcher of a key that is known.
unfoldable pub read_pair : (key : String) → String → Option (String × String)
unfolding skip
read_pair key s =
    and_then (skip key s) λ s1. and_then (skip "=\"" s1) λ s2. read_quoted double_quote s2

read_pair-pair : (k v rest : String) → read_pair k (Native.◌++◌ (pair (k, v)) rest) ≡ some (v, rest)
unfolding read_pair
read_pair-pair k v rest =
    rw (pair_shape k v rest) (rw (skip-append, skip-append, read_value_of) refl)

abbrev pub key_of : String × String → String
key_of (k, v) = k

abbrev pub value_of : String × String → String
value_of (k, v) = v

-- The values for these keys, with commas between the matchers.
unfoldable pub read_pairs : (keys : List String) → String → Option (List String × String)
read_pairs [] s = some ([], s)
read_pairs (k ∷ []) s = and_then (read_pair k s) λ v. some (v.0 ∷ [], v.1)
read_pairs (k ∷ j ∷ keys) s = and_then (read_pair k s) λ v.
    and_then (skip "," v.1) λ s1. and_then (read_pairs (j ∷ keys) s1) λ vs. some (v.0 ∷ vs.0, vs.1)

abbrev matchers : Labels → String
matchers labels = join "," (map pair labels)

spread :
    (label other : String × String) (labels : Labels) (rest : String)
    → Native.◌++◌ (matchers (label ∷ other ∷ labels)) rest
      ≡ Native.◌++◌ (pair label) (Native.◌++◌ "," (Native.◌++◌ (matchers (other ∷ labels)) rest))
spread label other labels rest =
    append_assoc (pair label) (Native.◌++◌ "," (matchers (other ∷ labels))) rest
    ∙ ap (Native.◌++◌ (pair label)) (append_assoc "," (matchers (other ∷ labels)) rest)

step :
    (k v j : String) (keys values : List String) (s rest : String)
    → read_pairs (j ∷ keys) s ≡ some (values, rest)
    → read_pairs (k ∷ j ∷ keys) (Native.◌++◌ (pair (k, v)) (Native.◌++◌ "," s))
      ≡ some (v ∷ values, rest)
unfolding read_pairs
step k v j keys values s rest read =
    rw (read_pair-pair k v (Native.◌++◌ "," s)) (rw (skip-append "," s) (rw read refl))

-- Matchers that are rendered and joined by commas are read back, by their keys, as the whole values
-- they came from, in the order of the keys; what stands behind them is left as it is.
pub read_pairs-join :
    (labels : Labels) (rest : String)
    → read_pairs (map key_of labels) (Native.◌++◌ (join "," (map pair labels)) rest)
      ≡ some (map value_of labels, rest)
unfolding read_pairs
read_pairs-join [] rest = rw nil-append refl
read_pairs-join ((k, v) ∷ []) rest = rw (read_pair-pair k v rest) refl
read_pairs-join ((k, v) ∷ (j, w) ∷ labels) rest =
    ap (read_pairs (k ∷ j ∷ map key_of labels)) (spread (k, v) (j, w) labels rest)
    ∙ step k v j (map key_of labels) (map value_of ((j, w) ∷ labels)) _ rest
        (read_pairs-join ((j, w) ∷ labels) rest)
