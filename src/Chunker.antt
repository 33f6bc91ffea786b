-- ===== src/Chunker.antt =====
-- core/knowledge/chunker.py: the windows over paragraphs and over words. `count_tokens` is the
-- caller's, as in the source; Chunker/Sections splits a text into paragraphs and words.
pub mod Bounds
pub mod Lossless
pub mod Sections
use nightswatch.Prelude.{
  ℕ, ◌+◌, ◌/◌, String, Option, none, some, Bool, true, false, not, ◌&&◌, List, [], ◌∷◌, ◌++◌, map,
  is_empty, leb, ltb, if◌then◌else◌,
}
use Prim.Native.Nat.{max}
use Prim.Native.String as Native
use nightswatch.Queries.{join}

pub record Chunker : Type 0 where
  pub target_tokens : ℕ
  pub overlap_tokens : ℕ
  pub count_tokens : String → ℕ

-- The counter that a chunker has unless it is given another.
unfoldable pub default_count_tokens : String → ℕ
default_count_tokens text = max 1 (Native.count text / 4)

-- `Chunker.__init__`; no chunker is made where it raises ValueError.
abbrev pub init : (target_tokens overlap_tokens : ℕ) (count_tokens : String → ℕ) → Option Chunker
init target_tokens overlap_tokens count_tokens =
    if leb target_tokens overlap_tokens
    then none
    else some record {
      target_tokens = target_tokens;
      overlap_tokens = overlap_tokens;
      count_tokens = count_tokens;
    }

-- `reversed`
unfoldable pub reversed : List String → List String
reversed [] = []
reversed (x ∷ xs) = reversed xs ++ x ∷ []

-- `sum(self._count(x) for x in cur)`
unfoldable pub sum_tokens : Chunker → List String → ℕ
sum_tokens c [] = 0
sum_tokens c (x ∷ xs) = c.count_tokens x + sum_tokens c xs

-- A window that is not empty is emitted at the end: `if cur: chunks.append(...)`.
abbrev pub emit_last : List String → List (List String)
emit_last [] = []
emit_last (x ∷ xs) = (x ∷ xs) ∷ []

module _ (c : Chunker) where
  -- The loop of `_overlap_tail`, over the units in reversed order.
  unfoldable pub collect_tail : (tail : List String) (total : ℕ) → List String → List String
  collect_tail tail total [] = tail
  collect_tail tail total (unit ∷ rest) =
      let t = c.count_tokens unit in
      let more = collect_tail (unit ∷ tail) (total + t) rest in
      if not (is_empty tail) && ltb c.overlap_tokens (total + t)
      then tail
      else if leb c.overlap_tokens (total + t)
      then unit ∷ tail
      else more

  unfoldable pub overlap_tail : List String → List String
  unfolding reversed collect_tail
  overlap_tail units = collect_tail [] 0 (reversed units)

  -- The loop of `_overlap_tail_words`, over the words in reversed order.
  unfoldable pub collect_tail_words : (tail : List String) → List String → List String
  collect_tail_words tail [] = tail
  collect_tail_words tail (word ∷ rest) =
      let more = collect_tail_words (word ∷ tail) rest in
      if leb c.overlap_tokens (c.count_tokens (join " " (word ∷ tail))) then word ∷ tail else more

  unfoldable pub overlap_tail_words : List String → List String
  unfolding reversed collect_tail_words
  overlap_tail_words words = collect_tail_words [] (reversed words)

  -- The loop of `_split_body`; the windows are joined by `split_units`.
  unfoldable pub unit_windows :
      (cur : List String) (cur_tokens : ℕ) → List String → List (List String)
  unfolding sum_tokens overlap_tail
  unit_windows cur cur_tokens [] = emit_last cur
  unit_windows cur cur_tokens (unit ∷ units) =
      let ut = c.count_tokens unit in
      let full = not (is_empty cur) && ltb c.target_tokens (cur_tokens + ut) in
      let kept = if full then overlap_tail cur else cur in
      let kept_tokens = if full then sum_tokens c kept else cur_tokens in
      let rest = unit_windows (kept ++ unit ∷ []) (kept_tokens + ut) units in
      if full then cur ∷ rest else rest

  unfoldable pub split_units : List String → List String
  unfolding unit_windows
  split_units units = map (join "\n\n") (unit_windows [] 0 units)

  -- The loop of `_split_by_words`; the windows are joined by `split_by_words`.
  unfoldable pub word_windows : (cur : List String) → List String → List (List String)
  unfolding overlap_tail_words
  word_windows cur [] = emit_last cur
  word_windows cur (word ∷ words) =
      let longer = cur ++ word ∷ [] in
      let full = leb c.target_tokens (c.count_tokens (join " " longer)) in
      let rest = word_windows (if full then overlap_tail_words longer else longer) words in
      if full then longer ∷ rest else rest

  unfoldable pub split_by_words : List String → List String
  unfolding word_windows
  split_by_words words = map (join " ") (word_windows [] words)
