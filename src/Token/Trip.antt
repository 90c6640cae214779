-- ===== src/Token/Trip.antt =====
-- A token gives back the two identifiers that it was made of.
use riverpass.Prelude.{
  ℕ, ◌≡◌, ◌≢◌, refl, false, inl, inr, Bool-cases, none, some, [], ◌∷◌, ◌++◌, arith, ◌==◌, All,
}
use riverpass.Prelude.Text.{Bytes, codes}
use riverpass.Prelude.Result.{ok}
use riverpass.Token.{
  generate_blob_token, behind, line, before_last, some_before_last, find_triplet_id, find_blob_id,
  get_triplet_id_from_token, get_blob_id_from_token, full2partial_token,
}

-- No underscore and no new line, as in the hexadecimal digits of the identifiers.
abbrev pub Plain : Bytes → Type 0
Plain s = All (λ c. (c ≢ b'_') × (c ≢ 10)) s

line-Plain : (s : Bytes) → Plain s → line s ≡ s
unfolding line
line-Plain [] p = refl
line-Plain (x ∷ s) p = let e : (x == 10) ≡ false = ground arith in rw (e, line-Plain s p.1)

line-append : (s t : Bytes) → Plain s → line (s ++ t) ≡ s ++ line t
unfolding line
line-append [] t p = refl
line-append (x ∷ s) t p = let e : (x == 10) ≡ false = ground arith in rw (e, line-append s t p.1)

-- A text without an underscore has no separator.
before_last-Plain : (s : Bytes) → Plain s → before_last (codes "_bb_") s ≡ none
unfolding before_last behind
before_last-Plain [] p = refl
before_last-Plain (x ∷ s) p =
    let e : (b'_' == x) ≡ false = ground arith in rw (before_last-Plain s p.1, e)

-- A text without an underscore has no rest of a separator at its front.
behind-Plain : (t : Bytes) → Plain t → behind (codes "bb_") t ≡ none
unfolding behind
behind-Plain [] p = refl
behind-Plain (x ∷ []) p = ground arith
behind-Plain (x ∷ y ∷ []) p = ground arith
behind-Plain (x ∷ y ∷ z ∷ t) p = let e : (b'_' == z) ≡ false = ground arith in rw e (ground arith)

-- The only triplet whose name makes a separator too early.
behind-tri :
    (tri rest : Bytes)
    → Plain tri
    → tri ≢ codes "bb"
    → behind (codes "bb_") (tri ++ b'_' ∷ rest) ≡ none
unfolding behind
behind-tri [] rest p n = refl
behind-tri (x ∷ []) rest p n = ground arith
behind-tri (x ∷ y ∷ []) rest p n = elim (Bool-cases (b'b' == x)) [
  | inr f ↦ rw f
  | inl t ↦ elim (Bool-cases (b'b' == y)) [
    | inr g ↦ rw g (ground arith)
    | inl u ↦
        let e : x ≡ b'b' = ground arith in let d : y ≡ b'b' = ground arith in absurd (n (rw (e, d)))
  ]
]
behind-tri (x ∷ y ∷ z ∷ tri) rest p n =
    let e : (b'_' == z) ≡ false = ground arith in rw e (ground arith)

before_last-sep : (t : Bytes) → Plain t → before_last (codes "_bb_") (codes "_bb_" ++ t) ≡ some []
unfolding before_last behind
before_last-sep t p = rw (before_last-Plain t p, behind-Plain t p)

before_last-append :
    (s t : Bytes) → Plain t → before_last (codes "_bb_") (s ++ (codes "_bb_" ++ t)) ≡ some s
unfolding before_last
before_last-append [] t p = before_last-sep t p
before_last-append (x ∷ s) t p = rw (before_last-append s t p)

-- Before the separator no position starts a match of it.
find_blob_id-append :
    (s t : Bytes)
    → Plain s
    → find_blob_id (s ++ (codes "_bb_" ++ t)) ≡ find_blob_id (codes "_bb_" ++ t)
unfolding find_blob_id behind
find_blob_id-append [] t p = refl
find_blob_id-append (x ∷ s) t p =
    let e : (b'_' == x) ≡ false = ground arith in rw e (find_blob_id-append s t p.1)

find_blob_id-token :
    (tri : Bytes) (x : ℕ) (blb : Bytes)
    → Plain tri
    → tri ≢ codes "bb"
    → Plain (x ∷ blb)
    → find_blob_id (generate_blob_token tri (x ∷ blb)) ≡ some (x ∷ blb)
unfolding find_blob_id behind generate_blob_token line
find_blob_id-token tri x blb p n q =
    let e : (x == 10) ≡ false = ground arith in
    rw (
      behind-tri tri (codes "bb_" ++ x ∷ blb) p n,
      find_blob_id-append tri (x ∷ blb) p,
      e,
      line-Plain blb q.1,
    )

find_triplet_id-token :
    (x : ℕ) (tri blb : Bytes)
    → Plain (x ∷ tri)
    → Plain blb
    → find_triplet_id (generate_blob_token (x ∷ tri) blb) ≡ some (x ∷ tri)
unfolding find_triplet_id behind generate_blob_token line some_before_last
find_triplet_id-token x tri blb p q =
    let e : (x == 10) ≡ false = ground arith in
    rw
      (e, line-append tri (codes "_bb_" ++ blb) p.1, line-Plain blb q, before_last-append tri blb q)

-- For identifiers that are not empty and have no underscore and no new line, where the triplet is
-- not named `bb`, the token gives the triplet's and the blob's back, and its partial form is the
-- token with no triplet.
pub token_round_trip :
    (x : ℕ) (tri : Bytes) (y : ℕ) (blb : Bytes)
    → Plain (x ∷ tri)
    → x ∷ tri ≢ codes "bb"
    → Plain (y ∷ blb)
    → (get_triplet_id_from_token (generate_blob_token (x ∷ tri) (y ∷ blb)) ≡ ok (x ∷ tri))
      × (get_blob_id_from_token (generate_blob_token (x ∷ tri) (y ∷ blb)) ≡ ok (y ∷ blb))
      × (full2partial_token (generate_blob_token (x ∷ tri) (y ∷ blb))
          ≡ ok (generate_blob_token [] (y ∷ blb)))
unfolding get_triplet_id_from_token get_blob_id_from_token full2partial_token
token_round_trip x tri y blb p n q =
    rw (find_triplet_id-token x tri (y ∷ blb) p q, find_blob_id-token (x ∷ tri) y blb p n q)
      (refl, refl, unfold generate_blob_token in refl)

-- The prefix of a large object's token hides neither identifier.
pub lobj_transparent :
    (token : Bytes)
    → (get_triplet_id_from_token (codes "lobj" ++ token) ≡ get_triplet_id_from_token token)
      × (full2partial_token (codes "lobj" ++ token) ≡ full2partial_token token)
unfolding get_triplet_id_from_token full2partial_token get_blob_id_from_token find_triplet_id
    find_blob_id behind
lobj_transparent token = (refl, refl)
