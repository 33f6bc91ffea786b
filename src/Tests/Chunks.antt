-- ===== src/Tests/Chunks.antt =====
-- Windows over paragraphs and words.
use Prim.Native.Char.{code}
use nightswatch.Prelude.{◌==◌}
use nightswatch.Chunker.Sections.{
  PyLines, split_sections, split_lines, heading, take_hashes, titled, flush, pop_to,
}
use nightswatch.Prelude.{ℕ, String, ◌≡◌, refl, List, [], ◌∷◌, str_eq, if◌then◌else◌, arith}
use nightswatch.Chunker.{
  Chunker, default_count_tokens, overlap_tail, unit_windows, split_units, sum_tokens, collect_tail,
  reversed,
}
use nightswatch.Chunker.Lossless.{reassemble, reassemble-unit_windows}
use nightswatch.Chunker.Bounds.{
  AllWithin, Fits, default_count_tokens-Estimates, unit_windows-AllWithin,
}

-- Three tokens for the long paragraph, two for each other text.
abbrev count : String → ℕ
count s = if str_eq s "long" then 3 else 2

abbrev pub chunker : Chunker
chunker = record { target_tokens = 4; overlap_tokens = 2; count_tokens = count }

abbrev paragraphs : List String
paragraphs = "a" ∷ "b" ∷ "long" ∷ "c" ∷ []

split : split_units chunker paragraphs ≡ "a\n\nb" ∷ "b\n\nlong" ∷ "long\n\nc" ∷ []
unfolding split_units unit_windows sum_tokens overlap_tail collect_tail reversed
split = refl

reassemble-unit_windows_example :
    reassemble (overlap_tail chunker) [] (unit_windows chunker [] 0 paragraphs) ≡ paragraphs
reassemble-unit_windows_example = reassemble-unit_windows chunker paragraphs

-- Two tokens for each window, with the counter that a chunker has by itself.
abbrev standard : Chunker
standard = record { target_tokens = 2; overlap_tokens = 1; count_tokens = default_count_tokens }

abbrev steps : List String
steps = "one step" ∷ "two" ∷ "a third" ∷ []

windows : split_units standard steps ≡ "one step" ∷ "one step\n\ntwo" ∷ "two\n\na third" ∷ []
unfolding split_units unit_windows sum_tokens overlap_tail collect_tail reversed
    default_count_tokens
windows = refl

steps-Fits : Fits standard steps
unfolding default_count_tokens
steps-Fits = (omega arith, (omega arith, (omega arith, tt)))

unit_windows-AllWithin_example : AllWithin standard 4 (unit_windows standard [] 0 steps)
unit_windows-AllWithin_example =
    unit_windows-AllWithin standard steps (default_count_tokens-Estimates 2 1) (omega arith)
      steps-Fits

-- The lines of a text end at line feeds; nothing is stripped.
abbrev on_first : (String → String) → List String → List String
on_first f [] = f "" ∷ []
on_first f (x ∷ xs) = f x ∷ xs

abbrev lines_of : String → List String
lines_of String.[] = "" ∷ []
lines_of (String.◌∷◌ c s) =
    let rest = lines_of s in if code c == 10 then "" ∷ rest else on_first (String.◌∷◌ c) rest

abbrev pub py : PyLines
py = record {
  is_blank = λ c. code c == 32;
  strip = λ s. s;
  splitlines = lines_of;
  split_paragraphs = λ s. s ∷ [];
  split = λ s. s ∷ [];
}

abbrev text : String
text = "intro\n# A\n### B\nsteps\n## C\n#D\nend"

sections :
    split_sections py text
    ≡ record { headings = []; body = "intro" }
      ∷ record { headings = "A" ∷ "B" ∷ []; body = "steps" }
      ∷ record { headings = "A" ∷ "C" ∷ []; body = "#D\nend" }
      ∷ []
unfolding split_sections split_lines heading take_hashes titled flush pop_to
sections = refl
