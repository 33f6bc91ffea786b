-- ===== src/Chunker/Bounds.antt =====
-- The size of the windows over paragraphs: the sum of the counts of their paragraphs, and from it the
-- count of the text that they are joined to.
use Prim.Native.String as Native
use nightswatch.Prelude.{
  ℕ, ◌+◌, ◌≤◌, ◌<◌, String, ◌≡◌, refl, ap, ◌∙◌, Bool, true, false, not, ◌&&◌, List, [], ◌∷◌, ◌++◌,
  is_empty, length, ◌*◌, leb, ltb, if◌then◌else◌, arith,
}
use text.Mathlib.TextLemmas.{length-append}
use nightswatch.Queries.{join}
use nightswatch.Chunker.{
  Chunker, default_count_tokens, reversed, sum_tokens, collect_tail, overlap_tail, emit_last,
  unit_windows,
}

not_above : (a n : ℕ) → ltb a n ≡ false → n ≤ a
not_above a n h = ground arith

below : (a n m : ℕ) → a < m → leb a n ≡ false → n ≤ m
below a n m lt h = ground arith

module _ (c : Chunker) where
  -- No paragraph is larger than a window should be.
  abbrev pub Fits : List String → Type 0
  Fits [] = Unit
  Fits (x ∷ xs) = (c.count_tokens x ≤ c.target_tokens) × Fits xs

  -- The paragraphs of a window count at most `bound` tokens together.
  abbrev pub AllSumsWithin : (bound : ℕ) → List (List String) → Type 0
  AllSumsWithin bound [] = Unit
  AllSumsWithin bound (w ∷ ws) = (sum_tokens c w ≤ bound) × AllSumsWithin bound ws

  Fits-append : (xs ys : List String) → Fits xs → Fits ys → Fits (xs ++ ys)
  Fits-append [] ys h k = k
  Fits-append (x ∷ xs) ys (le, h) k = (le, Fits-append xs ys h k)

  Fits-reversed : (xs : List String) → Fits xs → Fits (reversed xs)
  unfolding reversed
  Fits-reversed [] h = tt
  Fits-reversed (x ∷ xs) (le, h) = Fits-append (reversed xs) (x ∷ []) (Fits-reversed xs h) (le, tt)

  sum_tokens_snoc :
      (xs : List String) (x : String)
      → sum_tokens c (xs ++ x ∷ []) ≡ sum_tokens c xs + c.count_tokens x
  unfolding sum_tokens
  sum_tokens_snoc [] x = omega arith
  sum_tokens_snoc (y ∷ xs) x = omega (arith, sum_tokens_snoc xs x)

  sum_tokens_if-le :
      (b : Bool) (xs ys : List String) (bound : ℕ)
      → (b ≡ true → sum_tokens c xs ≤ bound)
      → (b ≡ false → sum_tokens c ys ≤ bound)
      → sum_tokens c (if b then xs else ys) ≤ bound
  sum_tokens_if-le true xs ys bound f g = f refl
  sum_tokens_if-le false xs ys bound f g = g refl

  collect_tail-le :
      (rest tail : List String) (total : ℕ)
      → c.overlap_tokens < c.target_tokens
      → Fits rest
      → sum_tokens c tail ≡ total
      → total ≤ c.target_tokens
      → sum_tokens c (collect_tail c tail total rest) ≤ c.target_tokens
  unfolding collect_tail sum_tokens
  collect_tail-le [] tail total lt fits e le = omega arith
  collect_tail-le (x ∷ rest) [] total lt (one, fits) e le =
      let t = c.count_tokens x in
      sum_tokens_if-le (leb c.overlap_tokens (total + t)) (x ∷ [])
        (collect_tail c (x ∷ []) (total + t) rest) c.target_tokens (λ h. omega arith)
        (λ h.
          collect_tail-le rest (x ∷ []) (total + t) lt fits (omega arith)
            (below c.overlap_tokens (total + t) c.target_tokens lt h))
  collect_tail-le (x ∷ rest) (y ∷ ys) total lt (one, fits) e le =
      let t = c.count_tokens x in
      sum_tokens_if-le (ltb c.overlap_tokens (total + t)) (y ∷ ys)
        (if leb c.overlap_tokens (total + t)
          then x ∷ y ∷ ys
          else collect_tail c (x ∷ y ∷ ys) (total + t) rest)
        c.target_tokens (λ h. omega arith)
        (λ h.
          let low = not_above c.overlap_tokens (total + t) h in
          let within : total + t ≤ c.target_tokens = omega arith in
          sum_tokens_if-le (leb c.overlap_tokens (total + t)) (x ∷ y ∷ ys)
            (collect_tail c (x ∷ y ∷ ys) (total + t) rest) c.target_tokens (λ k. omega arith)
            (λ k. collect_tail-le rest (x ∷ y ∷ ys) (total + t) lt fits (omega arith) within))

  overlap_tail-le :
      (units : List String)
      → c.overlap_tokens < c.target_tokens
      → Fits units
      → sum_tokens c (overlap_tail c units) ≤ c.target_tokens
  unfolding overlap_tail sum_tokens
  overlap_tail-le units lt fits =
      collect_tail-le (reversed units) [] 0 lt (Fits-reversed units fits) refl (omega arith)

  Fits-if : (b : Bool) (xs ys : List String) → Fits xs → Fits ys → Fits (if b then xs else ys)
  Fits-if true xs ys h k = h
  Fits-if false xs ys h k = k

  Fits-collect_tail :
      (rest tail : List String) (total : ℕ)
      → Fits rest
      → Fits tail
      → Fits (collect_tail c tail total rest)
  unfolding collect_tail
  Fits-collect_tail [] tail total fits kept = kept
  Fits-collect_tail (x ∷ rest) tail total (one, fits) kept =
      let t = c.count_tokens x in
      let more = collect_tail c (x ∷ tail) (total + t) rest in
      Fits-if (not (is_empty tail) && ltb c.overlap_tokens (total + t)) tail
        (if leb c.overlap_tokens (total + t) then x ∷ tail else more) kept
        (Fits-if (leb c.overlap_tokens (total + t)) (x ∷ tail) more (one, kept)
          (Fits-collect_tail rest (x ∷ tail) (total + t) fits (one, kept)))

  Fits-overlap_tail : (units : List String) → Fits units → Fits (overlap_tail c units)
  unfolding overlap_tail
  Fits-overlap_tail units fits =
      Fits-collect_tail (reversed units) [] 0 (Fits-reversed units fits) tt

  AllSumsWithin-emit_last :
      (bound : ℕ) (cur : List String)
      → sum_tokens c cur ≤ bound
      → AllSumsWithin bound (emit_last cur)
  AllSumsWithin-emit_last bound [] le = tt
  AllSumsWithin-emit_last bound (x ∷ xs) le = (le, tt)

  -- One step of the loop, for what it keeps and the windows that follow.
  AllSumsWithin-next :
      (b : Bool) (bound : ℕ) (cur : List String) (rest : Bool → List (List String))
      → sum_tokens c cur ≤ bound
      → (b ≡ true → AllSumsWithin bound (rest true))
      → (b ≡ false → AllSumsWithin bound (rest false))
      → AllSumsWithin bound (if b then cur ∷ rest b else rest b)
  AllSumsWithin-next true bound cur rest le f g = (le, f refl)
  AllSumsWithin-next false bound cur rest le f g = g refl

  room :
      (cur : List String) (cur_tokens ut : ℕ)
      → not (is_empty cur) && ltb c.target_tokens (cur_tokens + ut) ≡ false
      → sum_tokens c cur ≡ cur_tokens
      → ut ≤ c.target_tokens
      → cur_tokens + ut ≤ c.target_tokens
  unfolding sum_tokens
  room [] cur_tokens ut h e le = omega arith
  room (x ∷ xs) cur_tokens ut h e le = not_above c.target_tokens (cur_tokens + ut) h

  AllSumsWithin-unit_windows :
      (units cur : List String) (cur_tokens : ℕ)
      → c.overlap_tokens < c.target_tokens
      → Fits units
      → Fits cur
      → sum_tokens c cur ≡ cur_tokens
      → cur_tokens ≤ c.target_tokens + c.target_tokens
      → AllSumsWithin (c.target_tokens + c.target_tokens) (unit_windows c cur cur_tokens units)
  unfolding unit_windows
  AllSumsWithin-unit_windows [] cur cur_tokens lt fits kept e le =
      AllSumsWithin-emit_last (c.target_tokens + c.target_tokens) cur (omega arith)
  AllSumsWithin-unit_windows (x ∷ units) cur cur_tokens lt (one, fits) kept e le =
      let ut = c.count_tokens x in
      let tail = overlap_tail c cur in
      let small = overlap_tail-le cur lt kept in
      AllSumsWithin-next (not (is_empty cur) && ltb c.target_tokens (cur_tokens + ut))
        (c.target_tokens + c.target_tokens) cur
        (λ full.
          unit_windows c ((if full then overlap_tail c cur else cur) ++ x ∷ [])
            ((if full then sum_tokens c (if full then overlap_tail c cur else cur) else cur_tokens)
              + ut)
            units)
        (omega arith)
        (λ full.
          AllSumsWithin-unit_windows units (tail ++ x ∷ []) (sum_tokens c tail + ut) lt fits
            (Fits-append tail (x ∷ []) (Fits-overlap_tail cur kept) (one, tt))
            (sum_tokens_snoc tail x) (omega arith))
        (λ open_.
          let within = room cur cur_tokens ut open_ e one in
          AllSumsWithin-unit_windows units (cur ++ x ∷ []) (cur_tokens + ut) lt fits
            (Fits-append cur (x ∷ []) kept (one, tt)) (sum_tokens_snoc cur x ∙ ap (λ n. n + ut) e)
            (omega arith))

  -- Two texts with a blank line between them count at most two more than by themselves.
  abbrev pub Estimates : Type 0
  Estimates =
      (x y : String)
      → c.count_tokens (Native.◌++◌ x (Native.◌++◌ "\n\n" y))
        ≤ c.count_tokens x + c.count_tokens y + 2

  -- The text of a window counts at most `bound`, and two for each of its paragraphs.
  abbrev pub AllWithin : (bound : ℕ) → List (List String) → Type 0
  AllWithin bound [] = Unit
  AllWithin bound (w ∷ ws) =
      (c.count_tokens (join "\n\n" w) ≤ bound + 2 * length w) × AllWithin bound ws

  count_tokens-join :
      Estimates
      → (x : String) (xs : List String)
      → c.count_tokens (join "\n\n" (x ∷ xs)) ≤ sum_tokens c (x ∷ xs) + 2 * length xs
  unfolding sum_tokens
  count_tokens-join estimates x [] = omega arith
  count_tokens-join estimates x (y ∷ ys) =
      omega (arith, estimates x (join "\n\n" (y ∷ ys)), count_tokens-join estimates y ys)

  -- The empty window is never emitted.
  abbrev AllWritten : List (List String) → Type 0
  AllWritten [] = Unit
  AllWritten ([] ∷ ws) = ⊥
  AllWritten ((x ∷ xs) ∷ ws) = AllWritten ws

  AllWithin-of :
      Estimates
      → (bound : ℕ) (ws : List (List String)) → AllWritten ws
      → AllSumsWithin bound ws
      → AllWithin bound ws
  AllWithin-of estimates bound [] written sums = tt
  AllWithin-of estimates bound ([] ∷ ws) written sums = elim written [ ]
  AllWithin-of estimates bound ((x ∷ xs) ∷ ws) written (le, sums) = (
    omega (arith, le, count_tokens-join estimates x xs),
    AllWithin-of estimates bound ws written sums,
  )

  AllWritten-next :
      (b : Bool) (cur : List String) (rest : List (List String))
      → AllWritten rest
      → AllWritten (if not (is_empty cur) && b then cur ∷ rest else rest)
  AllWritten-next b [] rest h = h
  AllWritten-next true (x ∷ xs) rest h = h
  AllWritten-next false (x ∷ xs) rest h = h

  AllWritten-emit_last : (cur : List String) → AllWritten (emit_last cur)
  AllWritten-emit_last [] = tt
  AllWritten-emit_last (x ∷ xs) = tt

  AllWritten-unit_windows :
      (units cur : List String) (cur_tokens : ℕ) → AllWritten (unit_windows c cur cur_tokens units)
  unfolding unit_windows
  AllWritten-unit_windows [] cur cur_tokens = AllWritten-emit_last cur
  AllWritten-unit_windows (x ∷ units) cur cur_tokens =
      AllWritten-next (ltb c.target_tokens (cur_tokens + c.count_tokens x)) cur _
        (AllWritten-unit_windows units _ _)

  -- Where the overlap is smaller than the target, no paragraph counts more than the target, and a blank
  -- line between two texts costs at most two tokens, the text of every window over the paragraphs counts
  -- at most twice the target and two tokens for each of its paragraphs.
  pub unit_windows-AllWithin :
      (units : List String)
      → Estimates
      → c.overlap_tokens < c.target_tokens
      → Fits units
      → AllWithin (c.target_tokens + c.target_tokens) (unit_windows c [] 0 units)
  unfolding sum_tokens
  unit_windows-AllWithin units estimates lt fits =
      AllWithin-of estimates (c.target_tokens + c.target_tokens) (unit_windows c [] 0 units)
        (AllWritten-unit_windows units [] 0)
        (AllSumsWithin-unit_windows units [] 0 lt fits tt refl (omega arith))

-- The default counter, with a fourth of a token for each character.
pub default_count_tokens-Estimates :
    (target_tokens overlap_tokens : ℕ)
    → Estimates (record {
      target_tokens = target_tokens;
      overlap_tokens = overlap_tokens;
      count_tokens = default_count_tokens;
    })
unfolding default_count_tokens
default_count_tokens-Estimates target_tokens overlap_tokens x y =
    rw (length-append x (Native.◌++◌ "\n\n" y), length-append "\n\n" y) (omega arith)
