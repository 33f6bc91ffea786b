-- ===== src/Chunker/Sections/Depth.antt =====
-- The heading paths of the sections, and the numbers of the chunks.
use nightswatch.Prelude.{
  ℕ, zero, suc, ◌+◌, ◌-◌, ◌≤◌, String, ◌≡◌, refl, Bool, true, false, not, ◌&&◌, Option, none, some,
  List, [], ◌∷◌, ◌++◌, is_empty, leb, ◌==◌, length, length-append, str_eq, if◌then◌else◌, arith,
}
use Prim.Native.Char.{code}
use nightswatch.Queries.{join}
use nightswatch.Chunker.{Chunker}
use nightswatch.Chunker.Sections.{
  PyLines, Section, Chunk, Stack, take_hashes, pop_to, titles, titled, heading, flush, split_lines,
  split_sections, append_pieces, append_sections, split_body, chunk,
}

-- The levels fall from one heading to the one around it, the innermost is at most `bound`, and the
-- outermost is at least 1.
abbrev pub Nested : (bound : ℕ) → Stack → Type 0
Nested bound [] = Unit
Nested bound ((level, title) ∷ stack) = (level ≤ bound) × ((1 ≤ level) × Nested (level - 1) stack)

Nested-mono : (a b : ℕ) (stack : Stack) → a ≤ b → Nested a stack → Nested b stack
Nested-mono a b [] le n = tt
Nested-mono a b ((level, title) ∷ stack) le (low, n) = (omega arith, n)

Nested-if :
    (b : Bool) (bound : ℕ) (s t : Stack)
    → (b ≡ true → Nested bound s)
    → (b ≡ false → Nested bound t)
    → Nested bound (if b then s else t)
Nested-if true bound s t f g = f refl
Nested-if false bound s t f g = g refl

lower : (level l : ℕ) → leb level l ≡ false → l ≤ level - 1
lower level l h = ground arith

Nested-pop_to :
    (level bound : ℕ) (stack : Stack) → Nested bound stack → Nested (level - 1) (pop_to level stack)
unfolding pop_to
Nested-pop_to level bound [] n = tt
Nested-pop_to level bound ((l, title) ∷ stack) (low, (pos, n)) =
    Nested-if (leb level l) (level - 1) (pop_to level stack) ((l, title) ∷ stack)
      (λ h. Nested-pop_to level (l - 1) stack n) (λ h. (lower level l h, (pos, n)))

length-titles : (bound : ℕ) (stack : Stack) → Nested bound stack → length (titles stack) ≤ bound
length-titles bound [] n = omega arith
length-titles bound ((level, title) ∷ stack) (low, (pos, n)) =
    let rest = length-titles (level - 1) stack n in
    omega (arith, length-append (titles stack) (title ∷ []))

-- A heading has a level from 1 to 6.
abbrev IsLevel : Option (ℕ × String) → Type 0
IsLevel none = Unit
IsLevel (some (level, title)) = (1 ≤ level) × (level ≤ 6)

first_if :
    (b : Bool) (p : ℕ × String) (s : String) (bound : ℕ)
    → p.0 ≤ bound
    → (if b then p else (0, s)).0 ≤ bound
first_if true p s bound le = le
first_if false p s bound le = omega arith

take_hashes-le : (most : ℕ) (line : String) → (take_hashes most line).0 ≤ most
unfolding take_hashes
take_hashes-le zero line = omega arith
take_hashes-le (suc most) String.[] = omega arith
take_hashes-le (suc most) (String.◌∷◌ c line) =
    let rest = take_hashes-le most line in
    first_if (code c == 35) (suc (take_hashes most line).0, (take_hashes most line).1)
      (String.◌∷◌ c line) (suc most) (omega arith)

-- Each section stands under at most six headings.
abbrev pub Shallow : List Section → Type 0
Shallow [] = Unit
Shallow (section ∷ sections) = (length section.headings ≤ 6) × Shallow sections

Shallow-append : (xs ys : List Section) → Shallow xs → Shallow ys → Shallow (xs ++ ys)
Shallow-append [] ys h k = k
Shallow-append (x ∷ xs) ys (le, h) k = (le, Shallow-append xs ys h k)

Shallow-elim :
    (o : Option (ℕ × String)) (body : List Section) (opened : ℕ → String → List Section)
    → IsLevel o
    → Shallow body
    → ((level : ℕ) (title : String) → 1 ≤ level → level ≤ 6 → Shallow (opened level title))
    → Shallow (elim o [ none ↦ body | some (level, title) ↦ opened level title ])
Shallow-elim none body opened l h k = h
Shallow-elim (some (level, title)) body opened (pos, low) h k = k level title pos low

above_zero : (n : ℕ) → (n == 0) ≡ false → 1 ≤ n
above_zero n e = ground arith

none_if :
    (b : Bool) (o : Option (ℕ × String)) → (b ≡ false → IsLevel o) → IsLevel (if b then none else o)
none_if true o f = tt
none_if false o f = f refl

module _ (py : PyLines) where
  titled-IsLevel :
      (level : ℕ) (rest : String) → 1 ≤ level → level ≤ 6 → IsLevel (titled py level rest)
  unfolding titled
  titled-IsLevel level String.[] pos low = tt
  titled-IsLevel level (String.◌∷◌ c rest) pos low =
      some_if (py.is_blank c && not (str_eq (py.strip rest) "")) (py.strip rest)
    where
      some_if : (b : Bool) (title : String) → IsLevel (if b then some (level, title) else none)
      some_if true title = (pos, low)
      some_if false title = tt

  heading-IsLevel : (line : String) → IsLevel (heading py line)
  unfolding heading
  heading-IsLevel line =
      let (level, rest) = take_hashes 6 line in
      none_if (level == 0) (titled py level rest)
        (λ e. titled-IsLevel level rest (above_zero level e) (take_hashes-le 6 line))

  flush-Shallow :
      (stack : Stack) (buf : List String) → Nested 6 stack → Shallow (flush py stack buf)
  unfolding flush
  flush-Shallow stack buf n =
      one_if (not (is_empty buf) && not (str_eq (py.strip (join "\n" buf)) ""))
    where
      one_if :
          (b : Bool)
          → Shallow
              (if b then record { headings = titles stack; body = join "\n" buf } ∷ [] else [])
      one_if true = (length-titles 6 stack n, tt)
      one_if false = tt

  split_lines-Shallow :
      (lines : List String) (stack : Stack) (buf : List String)
      → Nested 6 stack
      → Shallow (split_lines py stack buf lines)
  unfolding split_lines
  split_lines-Shallow [] stack buf n = flush-Shallow stack buf n
  split_lines-Shallow (line ∷ lines) stack buf n =
      Shallow-elim (heading py line) (split_lines py stack (buf ++ line ∷ []) lines)
        (λ level title.
          flush py stack buf ++ split_lines py ((level, title) ∷ pop_to level stack) [] lines)
        (heading-IsLevel line) (split_lines-Shallow lines stack (buf ++ line ∷ []) n)
        (λ level title pos low.
          Shallow-append (flush py stack buf)
            (split_lines py ((level, title) ∷ pop_to level stack) [] lines)
            (flush-Shallow stack buf n)
            (split_lines-Shallow lines ((level, title) ∷ pop_to level stack) []
              (low, (pos, Nested-pop_to level 6 stack n))))

  -- Each section of a text stands under at most six headings, however many headings the text has.
  pub split_sections-Shallow : (text : String) → Shallow (split_sections py text)
  unfolding split_sections
  split_sections-Shallow text = split_lines-Shallow (py.splitlines text) [] [] tt

-- The chunks are numbered from `start`.
abbrev pub Numbered : (start : ℕ) → List Chunk → Type 0
Numbered start [] = Unit
Numbered start (x ∷ xs) = (x.ord ≡ start) × Numbered (suc start) xs

Numbered-snoc :
    (start : ℕ) (xs : List Chunk) (x : Chunk)
    → Numbered start xs
    → x.ord ≡ start + length xs
    → Numbered start (xs ++ x ∷ [])
Numbered-snoc start [] x n e = (omega arith, tt)
Numbered-snoc start (y ∷ xs) x (first, n) e =
    (first, Numbered-snoc (suc start) xs x n (omega arith))

module _ (py : PyLines) (c : Chunker) where
  append_pieces-Numbered :
      (headings pieces : List String) (chunks : List Chunk)
      → Numbered 0 chunks
      → Numbered 0 (append_pieces py c headings pieces chunks)
  unfolding append_pieces
  append_pieces-Numbered headings [] chunks n = n
  append_pieces-Numbered headings (piece ∷ pieces) chunks n =
      append_pieces-Numbered headings pieces _ (Numbered-snoc 0 chunks _ n (omega arith))

  append_sections-Numbered :
      (sections : List Section) (chunks : List Chunk)
      → Numbered 0 chunks
      → Numbered 0 (append_sections py c sections chunks)
  unfolding append_sections
  append_sections-Numbered [] chunks n = n
  append_sections-Numbered (section ∷ sections) chunks n = append_sections-Numbered sections _ (
      kept_if (str_eq (py.strip section.body) "") chunks _ n (
        append_pieces-Numbered section.headings (split_body py c (py.strip section.body)) chunks n))
    where
      kept_if :
          (b : Bool) (xs ys : List Chunk)
          → Numbered 0 xs
          → Numbered 0 ys
          → Numbered 0 (if b then xs else ys)
      kept_if true xs ys h k = h
      kept_if false xs ys h k = k

  -- The chunks of a document are numbered from 0 in their order, across its sections.
  pub chunk-Numbered :
      (text : String) (is_markdown : Bool) → Numbered 0 (chunk py c text is_markdown)
  unfolding chunk
  chunk-Numbered text is_markdown =
      append_sections-Numbered
        (if is_markdown then split_sections py text else record { headings = []; body = text } ∷ [])
        [] tt
