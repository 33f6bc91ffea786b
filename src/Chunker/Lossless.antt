-- ===== src/Chunker/Lossless.antt =====
-- The windows of a text lose nothing: without the overlap that each takes over from the one before,
-- they are the text.
use nightswatch.Prelude.{
  ℕ, ◌+◌, String, ◌≡◌, refl, sym, ap, ◌∙◌, Bool, true, false, not, ◌&&◌, List, [], ◌∷◌, ◌++◌,
  is_empty, leb, ltb, if◌then◌else◌,
}
use mathlib.Core.List.{append-nil, append_assoc}
use nightswatch.Chunker.{
  Chunker, reversed, collect_tail, collect_tail_words, overlap_tail, overlap_tail_words, emit_last,
  unit_windows, word_windows, sum_tokens,
}
use nightswatch.Queries.{join}

-- `drop` by the native length
abbrev pub without : List String → List String → List String
without [] xs = xs
without (y ∷ ys) [] = []
without (y ∷ ys) (x ∷ xs) = without ys xs

-- The windows one after the other, each without as many elements as the overlap of the last one has.
abbrev pub reassemble :
    (overlap : List String → List String) (last : List String) → List (List String) → List String
reassemble overlap last [] = []
reassemble overlap last (w ∷ ws) = without (overlap last) w ++ reassemble overlap w ws

without-append : (ys xs : List String) → without ys (ys ++ xs) ≡ xs
without-append [] xs = refl
without-append (y ∷ ys) xs = without-append ys xs

without-nil : (ys : List String) → without ys [] ≡ []
without-nil [] = refl
without-nil (y ∷ ys) = refl

append_one : (xs ys : List String) (x : String) → (xs ++ x ∷ []) ++ ys ≡ xs ++ x ∷ ys
append_one xs ys x = append_assoc xs (x ∷ []) ys

module _ (overlap : List String → List String) where
  reassemble-emit_last :
      (last cur fresh : List String)
      → cur ≡ overlap last ++ fresh
      → reassemble overlap last (emit_last cur) ≡ fresh
  reassemble-emit_last last [] fresh e =
      sym (without-nil (overlap last))
      ∙ ap (without (overlap last)) e
      ∙ without-append (overlap last) fresh
  reassemble-emit_last last (x ∷ xs) fresh e =
      append-nil (without (overlap last) (x ∷ xs))
      ∙ ap (without (overlap last)) e
      ∙ without-append (overlap last) fresh

  -- Whether the window is emitted or goes on, the rest of the text follows what is new in it.
  reassemble_next :
      (full : Bool) (last window fresh after : List String) (rest : Bool → List (List String))
      → window ≡ overlap last ++ fresh
      → reassemble overlap window (rest true) ≡ after
      → reassemble overlap last (rest false) ≡ fresh ++ after
      → reassemble overlap last (if full then window ∷ rest full else rest full) ≡ fresh ++ after
  reassemble_next true last window fresh after rest e restarted continued =
      ap (λ (w : List String). without (overlap last) w ++ reassemble overlap window (rest true)) e
      ∙ ap (λ (w : List String). w ++ reassemble overlap window (rest true))
          (without-append (overlap last) fresh)
      ∙ ap (λ (more : List String). fresh ++ more) restarted
  reassemble_next false last window fresh after rest e restarted continued = continued

  extended :
      (last cur fresh : List String) (x : String)
      → cur ≡ overlap last ++ fresh
      → cur ++ x ∷ [] ≡ overlap last ++ (fresh ++ x ∷ [])
  extended last cur fresh x e =
      ap (λ (w : List String). w ++ x ∷ []) e ∙ append_assoc (overlap last) fresh (x ∷ [])

module _ (c : Chunker) where
  reassemble-unit_windows_from :
      (units last cur fresh : List String) (cur_tokens : ℕ)
      → cur ≡ overlap_tail c last ++ fresh
      → reassemble (overlap_tail c) last (unit_windows c cur cur_tokens units) ≡ fresh ++ units
  unfolding unit_windows
  reassemble-unit_windows_from [] last cur fresh cur_tokens e =
      reassemble-emit_last (overlap_tail c) last cur fresh e ∙ sym (append-nil fresh)
  reassemble-unit_windows_from (unit ∷ units) last cur fresh cur_tokens e =
      let ut = c.count_tokens unit in
      let tail = overlap_tail c cur in
      reassemble_next (overlap_tail c) (not (is_empty cur) && ltb c.target_tokens (cur_tokens + ut))
        last cur fresh (unit ∷ units)
        (λ full.
          unit_windows c ((if full then overlap_tail c cur else cur) ++ unit ∷ [])
            ((if full then sum_tokens c (if full then overlap_tail c cur else cur) else cur_tokens)
              + ut)
            units)
        e
        (reassemble-unit_windows_from units cur (tail ++ unit ∷ []) (unit ∷ [])
          (sum_tokens c tail + ut) refl)
        (reassemble-unit_windows_from units last (cur ++ unit ∷ []) (fresh ++ unit ∷ [])
            (cur_tokens + ut) (extended (overlap_tail c) last cur fresh unit e)
          ∙ append_one fresh units unit)

  reassemble-word_windows_from :
      (words last cur fresh : List String)
      → cur ≡ overlap_tail_words c last ++ fresh
      → reassemble (overlap_tail_words c) last (word_windows c cur words) ≡ fresh ++ words
  unfolding word_windows
  reassemble-word_windows_from [] last cur fresh e =
      reassemble-emit_last (overlap_tail_words c) last cur fresh e ∙ sym (append-nil fresh)
  reassemble-word_windows_from (word ∷ words) last cur fresh e =
      let longer = cur ++ word ∷ [] in
      reassemble_next (overlap_tail_words c)
        (leb c.target_tokens (c.count_tokens (join " " longer))) last longer (fresh ++ word ∷ [])
        words (λ full. word_windows c (if full then overlap_tail_words c longer else longer) words)
        (extended (overlap_tail_words c) last cur fresh word e)
        (reassemble-word_windows_from words longer (overlap_tail_words c longer) []
          (sym (append-nil (overlap_tail_words c longer))))
        (reassemble-word_windows_from words last longer (fresh ++ word ∷ [])
          (extended (overlap_tail_words c) last cur fresh word e))
      ∙ append_one fresh words word

  overlap_tail-nil : overlap_tail c [] ≡ []
  unfolding overlap_tail reversed collect_tail
  overlap_tail-nil = refl

  overlap_tail_words-nil : overlap_tail_words c [] ≡ []
  unfolding overlap_tail_words reversed collect_tail_words
  overlap_tail_words-nil = refl

  -- The windows over the paragraphs of a text, each without its overlap with the one before it,
  -- are the paragraphs in their order, whatever the limits and the count are.
  pub reassemble-unit_windows :
      (units : List String) → reassemble (overlap_tail c) [] (unit_windows c [] 0 units) ≡ units
  reassemble-unit_windows units =
      reassemble-unit_windows_from units [] [] [] 0
        (sym (ap (λ (tail : List String). tail ++ []) overlap_tail-nil))

  -- The windows over the words of a paragraph, each without its overlap with the one before it,
  -- are the words in their order, whatever the limits and the count are.
  pub reassemble-word_windows :
      (words : List String) → reassemble (overlap_tail_words c) [] (word_windows c [] words) ≡ words
  reassemble-word_windows words =
      reassemble-word_windows_from words [] [] []
        (sym (ap (λ (tail : List String). tail ++ []) overlap_tail_words-nil))
