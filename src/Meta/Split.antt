-- ===== src/Meta/Split.antt =====
-- `strings.Split` at one character, and the loops that join with it.
use riverpass.Prelude.{
  ℕ, ◌≡◌, ◌≢◌, refl, ap, ◌∙◌, true, false, List, [], ◌∷◌, ◌++◌, arith, ◌==◌, if◌then◌else◌, All,
}
use riverpass.Prelude.Text.{Bytes}

-- The first part gets the character.
abbrev pub onto_first : ℕ → List Bytes → List Bytes
onto_first x [] = (x ∷ []) ∷ []
onto_first x (part ∷ parts) = (x ∷ part) ∷ parts

-- The empty text has one part, the empty one.
unfoldable pub split : ℕ → Bytes → List Bytes
split sep [] = [] ∷ []
split sep (x ∷ s) = let rest = split sep s in if x == sep then [] ∷ rest else onto_first x rest

-- The separator stands between two parts.
unfoldable pub join : ℕ → List Bytes → Bytes
join sep [] = []
join sep (part ∷ []) = part
join sep (part ∷ next ∷ parts) = part ++ sep ∷ join sep (next ∷ parts)

abbrev pub Free : ℕ → Bytes → Type 0
Free sep s = All (λ c. c ≢ sep) s

split-Free : (sep : ℕ) (s : Bytes) → Free sep s → split sep s ≡ s ∷ []
unfolding split
split-Free sep [] f = refl
split-Free sep (x ∷ s) f = let e : (x == sep) ≡ false = ground arith in rw (e, split-Free sep s f.1)

split-append : (sep : ℕ) (s t : Bytes) → Free sep s → split sep (s ++ sep ∷ t) ≡ s ∷ split sep t
unfolding split
split-append sep [] t f = let e : (sep == sep) ≡ true = ground arith in rw e
split-append sep (x ∷ s) t f =
    let e : (x == sep) ≡ false = ground arith in rw (e, split-append sep s t f.1)

-- Splitting what was joined of at least one part gives the parts back.
pub split-join :
    (sep : ℕ) (part : Bytes) (parts : List Bytes)
    → All (λ s. Free sep s) (part ∷ parts)
    → split sep (join sep (part ∷ parts)) ≡ part ∷ parts
unfolding join
split-join sep part [] f = split-Free sep part f.0
split-join sep part (next ∷ parts) f =
    split-append sep part (join sep (next ∷ parts)) f.0
    ∙ ap (◌∷◌ part) (split-join sep next parts f.1)
