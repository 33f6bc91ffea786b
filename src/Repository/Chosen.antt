-- ===== src/Repository/Chosen.antt =====
-- Which investigations a filter and the newest-first order leave.
use nightswatch.Prelude.{
  ◌≡◌, refl, sym, ap, ◌∙◌, Bool, true, false, ◌⊎◌, inl, inr, List, [], ◌∷◌, leb, if◌then◌else◌,
  arith,
}
use nightswatch.Database.{Investigation}
use nightswatch.Repository.{filter, insert_newest, newest_first}

-- `i` is among the rows.
abbrev pub Among : Investigation → List Investigation → Type 0
Among i [] = ⊥
Among i (j ∷ js) = (j ≡ i) ⊎ Among i js

Among-kept :
    (b : Bool) (i j : Investigation) (is : List Investigation)
    → Among i (if b then j ∷ is else is)
    → ((b ≡ true) × (j ≡ i)) ⊎ Among i is
Among-kept true i j is (inl e) = inl (refl, e)
Among-kept true i j is (inr rest) = inr rest
Among-kept false i j is h = inr h

pub Among-filter :
    (p : Investigation → Bool) (is : List Investigation) (i : Investigation)
    → Among i (filter p is)
    → (p i ≡ true) × Among i is
Among-filter p [] i h = elim h [ ]
Among-filter p (j ∷ is) i h = elim (Among-kept (p j) i j (filter p is) h) [
  | inl (kept, e) ↦ (ap p (sym e) ∙ kept, inl e)
  | inr rest ↦ let (holds, among) = Among-filter p is i rest in (holds, inr among)
]

Among-placed :
    (b : Bool) (i j k : Investigation) (is rest : List Investigation)
    → (Among i rest → (j ≡ i) ⊎ Among i is)
    → Among i (if b then j ∷ k ∷ is else k ∷ rest)
    → (j ≡ i) ⊎ ((k ≡ i) ⊎ Among i is)
Among-placed true i j k is rest f h = h
Among-placed false i j k is rest f (inl e) = inr (inl e)
Among-placed false i j k is rest f (inr h) = elim (f h) [ inl e ↦ inl e | inr m ↦ inr (inr m) ]

Among-insert_newest :
    (j : Investigation) (is : List Investigation) (i : Investigation)
    → Among i (insert_newest j is)
    → (j ≡ i) ⊎ Among i is
unfolding insert_newest
Among-insert_newest j [] i h = h
Among-insert_newest j (k ∷ is) i h =
    Among-placed (leb k.created_at j.created_at) i j k is (insert_newest j is)
      (Among-insert_newest j is i) h

pub Among-newest_first :
    (is : List Investigation) (i : Investigation) → Among i (newest_first is) → Among i is
unfolding newest_first
Among-newest_first [] i h = h
Among-newest_first (j ∷ is) i h = elim (Among-insert_newest j (newest_first is) i h) [
  | inl e ↦ inl e
  | inr rest ↦ inr (Among-newest_first is i rest)
]

not_both : {b : Bool} → b ≡ false → b ≡ true → ⊥
not_both e h = cc

not_kept :
    (b : Bool) (j : Investigation) (is : List Investigation)
    → (if b then j ∷ is else is) ≡ []
    → (b ≡ false) × (is ≡ [])
not_kept true j is e = cc
not_kept false j is e = (refl, e)

abbrev pub NoneOf : (Investigation → Type 0) → List Investigation → Type 0
NoneOf P [] = Unit
NoneOf P (i ∷ is) = (¬ (P i)) × NoneOf P is

-- Where a filter leaves nothing, no row has what it asks for.
pub none_of :
    (p : Investigation → Bool) (P : Investigation → Type 0) (is : List Investigation)
    → ((i : Investigation) → P i → p i ≡ true)
    → filter p is ≡ []
    → NoneOf P is
none_of p P [] f e = tt
none_of p P (i ∷ is) f e =
    let (left_out, rest) = not_kept (p i) i (filter p is) e in
    (λ holds. not_both left_out (f i holds), none_of p P is f rest)

inserted : (i : Investigation) (is : List Investigation) → insert_newest i is ≡ [] → ⊥
unfolding insert_newest
inserted i [] e = cc
inserted i (j ∷ is) e = ground (arith, e)

pub nothing_newest : (is : List Investigation) → newest_first is ≡ [] → is ≡ []
unfolding newest_first
nothing_newest [] e = refl
nothing_newest (i ∷ is) e = absurd (inserted i (newest_first is) e)
