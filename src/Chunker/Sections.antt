-- ===== src/Chunker/Sections.antt =====
-- core/knowledge/chunker.py: the sections of a Markdown text, and the chunks of a document.
pub mod Depth
use Prim.Native.Char.{Char, code}
use nightswatch.Prelude.{
  ℕ, zero, suc, ◌+◌, String, Bool, true, false, not, ◌&&◌, Option, none, some, List, [], ◌∷◌, ◌++◌,
  map, is_empty, leb, ◌==◌, length, str_eq, if◌then◌else◌,
}
use nightswatch.Queries.{join}
use nightswatch.Chunker.{Chunker, reversed, split_units, split_by_words}

-- What is used of Python's `str` and `re`: `\s` as a class of characters, `strip`, `splitlines`,
-- `split` at blank lines and `split` at white space.
pub record PyLines : Type 0 where
  pub is_blank : Char → Bool
  pub strip : String → String
  pub splitlines : String → List String
  pub split_paragraphs : String → List String
  pub split : String → List String

pub record Section : Type 0 where
  pub headings : List String
  pub body : String

pub record Chunk : Type 0 where
  pub ord : ℕ
  pub text : String
  pub tokens : ℕ
  pub headings : List String

-- The levels and titles of the headings that a line stands under, the innermost first.
abbrev pub Stack : Type 0
Stack = List (ℕ × String)

abbrev counted : ℕ × String → ℕ × String
counted (n, rest) = (suc n, rest)

-- At most `most` signs `#`, and what follows them.
unfoldable pub take_hashes : (most : ℕ) → String → ℕ × String
take_hashes zero line = (0, line)
take_hashes (suc most) String.[] = (0, String.[])
take_hashes (suc most) (String.◌∷◌ c line) =
    let more = counted (take_hashes most line) in
    if code c == 35 then more else (0, String.◌∷◌ c line)

-- `while stack and stack[-1][0] >= level: stack.pop()`
unfoldable pub pop_to : (level : ℕ) → Stack → Stack
pop_to level [] = []
pop_to level ((l, title) ∷ stack) =
    let popped = pop_to level stack in if leb level l then popped else (l, title) ∷ stack

abbrev pub titles : Stack → List String
titles [] = []
titles ((l, title) ∷ stack) = titles stack ++ title ∷ []

module _ (py : PyLines) where
  -- The blank that must follow the signs, and a title that is not blank.
  unfoldable pub titled : (level : ℕ) → String → Option (ℕ × String)
  titled level String.[] = none
  titled level (String.◌∷◌ c rest) =
      let title = py.strip rest in
      if py.is_blank c && not (str_eq title "") then some (level, title) else none

  -- `_HEADING_RE.match(line)`, with the level and the title of the match.
  unfoldable pub heading : String → Option (ℕ × String)
  unfolding take_hashes titled
  heading line =
      let (level, rest) = take_hashes 6 line in if level == 0 then none else titled level rest

  unfoldable pub flush : Stack → (buf : List String) → List Section
  flush stack buf =
      let body = join "\n" buf in
      if not (is_empty buf) && not (str_eq (py.strip body) "")
      then record { headings = titles stack; body = body } ∷ []
      else []

  unfoldable pub split_lines : Stack → (buf : List String) → List String → List Section
  unfolding heading pop_to flush
  split_lines stack buf [] = flush stack buf
  split_lines stack buf (line ∷ lines) = elim (heading line) [
    | none ↦ split_lines stack (buf ++ line ∷ []) lines
    | some (level, title) ↦
        flush stack buf ++ split_lines ((level, title) ∷ pop_to level stack) [] lines
  ]

  unfoldable pub split_sections : String → List Section
  unfolding split_lines
  split_sections text = split_lines [] [] (py.splitlines text)

  module _ (c : Chunker) where
    -- The units of `_split_body`: a paragraph that is too large is split by its words.
    unfoldable pub units_of : List String → List String
    unfolding split_by_words
    units_of [] = []
    units_of (paragraph ∷ paragraphs) =
        let para = py.strip paragraph in
        let rest = units_of paragraphs in
        if str_eq para ""
        then rest
        else if leb (c.count_tokens para) c.target_tokens
        then para ∷ rest
        else split_by_words c (py.split para) ++ rest

    unfoldable pub split_body : String → List String
    unfolding units_of split_units
    split_body body =
        if leb (c.count_tokens body) c.target_tokens
        then body ∷ []
        else split_units c (units_of (py.split_paragraphs body))

    -- The inner loop of `chunk`; `ord` is the number of chunks so far.
    unfoldable pub append_pieces : (headings : List String) → List String → List Chunk → List Chunk
    append_pieces headings [] chunks = chunks
    append_pieces headings (piece ∷ pieces) chunks = append_pieces headings pieces (
        chunks
        ++ record {
          ord = length chunks;
          text = piece;
          tokens = c.count_tokens piece;
          headings = headings;
        }
          ∷ [])

    unfoldable pub append_sections : List Section → List Chunk → List Chunk
    unfolding split_body append_pieces
    append_sections [] chunks = chunks
    append_sections (section ∷ sections) chunks =
        let body = py.strip section.body in
        append_sections sections (
          if str_eq body ""
          then chunks
          else append_pieces section.headings (split_body body) chunks)

    unfoldable pub chunk : String → (is_markdown : Bool) → List Chunk
    unfolding split_sections append_sections
    chunk text is_markdown =
        append_sections
          (if is_markdown then split_sections text else record { headings = []; body = text } ∷ [])
          []
