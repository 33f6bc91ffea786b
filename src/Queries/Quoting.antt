-- ===== src/Queries/Quoting.antt =====
-- A quoted value is read back as it was, and nothing of it gets out of its quotes.
use Prim.Native.Char.{Char}
use Prim.Native.String as Native
use text.Mathlib.TextEquality.{Char-path}
use text.Mathlib.TextLemmas.{nil-append, cons-append}
use mathlib.Core.Path.{subst}
use nightswatch.Prelude.{
  String, ◌≡◌, refl, sym, Bool, true, false, Bool-cases, inl, inr, Option, none, some,
  if◌then◌else◌, arith,
}
use nightswatch.Queries.{is_char, replace, backslash, escape}

abbrev then_push : Char → Option (String × String) → Option (String × String)
then_push c none = none
then_push c (some (value, rest)) = some (String.◌∷◌ c value, rest)

-- How both query languages read a string literal, after its first quote: a backslash takes the next
-- character as it is, and the quote ends the literal. What follows it comes back too. `escaped` says
-- that the last character was such a backslash.
unfoldable pub read_from : (quote : Char) (escaped : Bool) → String → Option (String × String)
read_from quote escaped String.[] = none
read_from quote true (String.◌∷◌ c s) = then_push c (read_from quote false s)
read_from quote false (String.◌∷◌ c s) =
    let plain = read_from quote false s in
    let after_backslash = read_from quote true s in
    if is_char c quote
    then some (String.[], s)
    else if is_char c backslash
    then after_backslash
    else then_push c plain

abbrev pub read_quoted : (quote : Char) → String → Option (String × String)
read_quoted quote s = read_from quote false s

pub is_char_self : (c : Char) → is_char c c ≡ true
is_char_self c = ground arith

is_char_ne : (c d : Char) → is_char c d ≡ false → is_char d c ≡ false
is_char_ne c d h = ground arith

same_char : (c d : Char) → is_char c d ≡ true → c ≡ d
same_char c d h = Char-path c d (ground arith)

module _ (quote : Char) (apart : is_char backslash quote ≡ false) where
  escape-backslash :
      (s : String)
      → escape quote (String.◌∷◌ backslash s)
        ≡ String.◌∷◌ backslash (String.◌∷◌ backslash (escape quote s))
  unfolding escape replace
  escape-backslash s = rw apart refl

  escape-quote :
      (s : String)
      → escape quote (String.◌∷◌ quote s) ≡ String.◌∷◌ backslash (String.◌∷◌ quote (escape quote s))
  unfolding escape replace
  escape-quote s = rw (is_char_ne backslash quote apart) (rw (is_char_self quote) refl)

  escape-plain :
      (c : Char) (s : String)
      → is_char c backslash ≡ false
      → is_char c quote ≡ false
      → escape quote (String.◌∷◌ c s) ≡ String.◌∷◌ c (escape quote s)
  unfolding escape replace
  escape-plain c s other plain = rw other (rw plain refl)

  abbrev Reads : (value rest : String) → Char → Type 0
  Reads value rest c =
      read_quoted quote (Native.◌++◌ (escape quote (String.◌∷◌ c value)) (String.◌∷◌ quote rest))
      ≡ some (String.◌∷◌ c value, rest)

  Reads-backslash :
      (value rest : String)
      → read_quoted quote (Native.◌++◌ (escape quote value) (String.◌∷◌ quote rest))
        ≡ some (value, rest)
      → Reads value rest backslash
  unfolding read_from
  Reads-backslash value rest read =
      rw (escape-backslash value) (rw (cons-append, cons-append) (rw (apart, read) refl))

  Reads-quote :
      (value rest : String)
      → read_quoted quote (Native.◌++◌ (escape quote value) (String.◌∷◌ quote rest))
        ≡ some (value, rest)
      → Reads value rest quote
  unfolding read_from
  Reads-quote value rest read =
      rw (escape-quote value) (rw (cons-append, cons-append) (rw (apart, read) refl))

  -- A text that is escaped and closed by the quote is read back as it was, up to that quote, for any
  -- quote but the backslash, and whatever follows.
  pub read_quoted-escape :
      (value rest : String)
      → read_quoted quote (Native.◌++◌ (escape quote value) (String.◌∷◌ quote rest))
        ≡ some (value, rest)
  unfolding escape read_from replace
  read_quoted-escape String.[] rest = rw nil-append (rw (is_char_self quote) refl)
  read_quoted-escape (String.◌∷◌ c value) rest =
      let read = read_quoted-escape value rest in
      elim (Bool-cases (is_char c backslash)) [
        | inl is_backslash ↦
            subst (Reads value rest) (sym (same_char c backslash is_backslash))
              (Reads-backslash value rest read)
        | inr other ↦ elim (Bool-cases (is_char c quote)) [
          | inl is_quote ↦
              subst (Reads value rest) (sym (same_char c quote is_quote))
                (Reads-quote value rest read)
          | inr plain ↦
              rw (escape-plain c value other plain) (rw cons-append (rw (plain, other, read) refl))
        ]
      ]
