-- ===== src/Segments/Sorting.antt =====
-- The list of a file's segments is sorted by the offsets that they begin with.
use mathlib.Core.List.Perm
use mathlib.Core.List.{Perm}
use riverpass.Prelude.{
  ℕ, ◌<◌, ◌^◌, ◌≡◌, refl, ◌≤◌, ◌⊎◌, inl, inr, true, false, Bool-cases, some, List, [], ◌∷◌, map,
  arith, All, ltb,
}
use riverpass.Prelude.Int.{pos, ◌≤ℤ◌}
use riverpass.Prelude.Text.{Bytes}
use riverpass.Prelude.Result.{ok}
use riverpass.RangeCode.{to_db_entry}
use riverpass.RangeCode.Order.{lex_lt, to_db_entry-sorted}
use riverpass.Segments.{
  BlobMeta, SegJson, SegRow, children_of, insert_row, order_by_name, read_segs,
  list_blob_segs_by_fid_from_db,
}

lex_lt-asym : (s t : Bytes) → lex_lt s t ≡ true → lex_lt t s ≡ false
unfolding lex_lt
lex_lt-asym [] [] h = ground arith
lex_lt-asym [] (y ∷ t) h = refl
lex_lt-asym (x ∷ s) [] h = ground arith
lex_lt-asym (x ∷ s) (y ∷ t) h = ground (arith, lex_lt-asym s t)

-- The row holds the segment under its name, and the offset has at most nine digits.
abbrev pub IsNamed : SegJson → (SegRow → BlobMeta) → SegRow → Type 0
IsNamed json metas r =
    (json.seg_read r.seg_meta ≡ some (metas r))
    × (r.child_name ≡ to_db_entry (metas r).rng_code)
    × ((n : ℕ) × ((metas r).rng_code.start ≡ pos n) × (n < 10 ^ 9))

-- By the offsets, the smallest first.
abbrev pub IsSorted : List BlobMeta → Type 0
IsSorted [] = Unit {0}
IsSorted (b ∷ bs) = All (λ c. b.rng_code.start ≤ℤ c.rng_code.start) bs × IsSorted bs

module _ (json : SegJson) (metas : SegRow → BlobMeta) where
  abbrev Named : SegRow → Type 0
  Named r = IsNamed json metas r

  abbrev AtMost : SegRow → SegRow → Type 0
  AtMost q r = (metas q).rng_code.start ≤ℤ (metas r).rng_code.start

  names-order :
      (q r : SegRow)
      → Named q
      → Named r
      → (lex_lt q.child_name r.child_name ≡ true → AtMost q r)
        × (lex_lt q.child_name r.child_name ≡ false → AtMost r q)
  names-order q r (read_q, name_q, (a, at_q, lt_q)) (read_r, name_r, (b, at_r, lt_r)) =
      elim (dec_lt a b) [
        | inl lt ↦ (
          (λ h. rw (at_q, at_r) (omega arith)),
          λ h. cc (
            h,
            forward name_q name_r
                (to_db_entry-sorted (metas q).rng_code (metas r).rng_code a b at_q at_r lt lt_r),
          ),
        )
        | inr ge ↦ elim (dec_lt b a) [
          | inl lt ↦ (
            (λ h. cc (
              h,
              lex_lt-asym r.child_name q.child_name (
                  forward name_r name_q (
                    to_db_entry-sorted (metas r).rng_code (metas q).rng_code b a at_r at_q lt
                      lt_q)),
            )),
            λ h. rw (at_q, at_r) (omega arith),
          )
          | inr ge' ↦ ((λ h. rw (at_q, at_r) (omega arith)), λ h. rw (at_q, at_r) (omega arith))
        ]
      ]
    where
      dec_lt : (m n : ℕ) → (m < n) ⊎ (n ≤ m)
      dec_lt m n = elim (Bool-cases (ltb m n)) [
        | inl h ↦ inl (ground arith)
        | inr h ↦ inr (ground arith)
      ]

      forward : {u v x y : Bytes} → u ≡ x → v ≡ y → lex_lt x y ≡ true → lex_lt u v ≡ true
      forward e f h = rw (e, f) h

  All-insert_row :
      (P : BlobMeta → Type 0) (r : SegRow) (rows : List SegRow)
      → P (metas r)
      → All P (map metas rows)
      → All P (map metas (insert_row r rows))
  unfolding insert_row
  All-insert_row P r [] p ps = (p, tt)
  All-insert_row P r (q ∷ rows) p ps = elim (Bool-cases (lex_lt q.child_name r.child_name)) [
    | inl after ↦ rw after (ps.0, All-insert_row P r rows p ps.1)
    | inr before ↦ rw before (p, ps)
  ]

  All-order :
      (b : BlobMeta) (c : BlobMeta) (bs : List BlobMeta)
      → b.rng_code.start ≤ℤ c.rng_code.start
      → All (λ d. c.rng_code.start ≤ℤ d.rng_code.start) bs
      → All (λ d. b.rng_code.start ≤ℤ d.rng_code.start) bs
  All-order b c [] h a = tt
  All-order b c (d ∷ bs) h a = (omega arith, All-order b c bs h a.1)

  IsSorted-insert_row :
      (r : SegRow) (rows : List SegRow)
      → Named r
      → All Named rows
      → IsSorted (map metas rows)
      → IsSorted (map metas (insert_row r rows))
  unfolding insert_row
  IsSorted-insert_row r [] n ns s = (tt, tt)
  IsSorted-insert_row r (q ∷ rows) n ns s = elim (Bool-cases (lex_lt q.child_name r.child_name)) [
    | inl after ↦ rw after (
      All-insert_row (λ d. (metas q).rng_code.start ≤ℤ d.rng_code.start) r rows
          ((names-order q r ns.0 n).0 after) s.0,
      IsSorted-insert_row r rows n ns.1 s.1,
    )
    | inr before ↦
        let le = (names-order q r ns.0 n).1 before in
        rw before ((le, All-order (metas r) (metas q) (map metas rows) le s.0), s)
  ]

  Named-insert_row :
      (r : SegRow) (rows : List SegRow) → Named r → All Named rows → All Named (insert_row r rows)
  unfolding insert_row
  Named-insert_row r [] n ns = (n, tt)
  Named-insert_row r (q ∷ rows) n ns = elim (Bool-cases (lex_lt q.child_name r.child_name)) [
    | inl after ↦ rw after (ns.0, Named-insert_row r rows n ns.1)
    | inr before ↦ rw before (n, ns)
  ]

  Perm-insert_row : (r : SegRow) (rows : List SegRow) → Perm (insert_row r rows) (r ∷ rows)
  unfolding insert_row
  Perm-insert_row r [] = Perm.rfl
  Perm-insert_row r (q ∷ rows) = elim (Bool-cases (lex_lt q.child_name r.child_name)) [
    | inl after ↦ rw after (Perm.trans (Perm.cons q (Perm-insert_row r rows)) (Perm.swap r q rows))
    | inr before ↦ rw before Perm.rfl
  ]

  ordered :
      (rows : List SegRow)
      → All Named rows
      → All Named (order_by_name rows)
        × IsSorted (map metas (order_by_name rows))
        × Perm (order_by_name rows) rows
  unfolding order_by_name
  ordered [] ns = (tt, tt, Perm.rfl)
  ordered (r ∷ rows) ns =
      let (all, sorted, perm) = ordered rows ns.1 in
      (
        Named-insert_row r (order_by_name rows) ns.0 all,
        IsSorted-insert_row r (order_by_name rows) ns.0 all sorted,
        Perm.trans (Perm-insert_row r (order_by_name rows)) (Perm.cons r perm),
      )

  read_segs-map : (rows : List SegRow) → All Named rows → read_segs json rows ≡ ok (map metas rows)
  unfolding read_segs
  read_segs-map [] ns = refl
  read_segs-map (r ∷ rows) ns = rw (ns.0.0, read_segs-map rows ns.1)

  -- `ListBlobSegsByFidFromDB` of a file whose rows are named after the segments that they hold, at
  -- offsets below 1_000_000_000, under a binary collation: it returns every segment of the file
  -- once, and sorted by the offsets that they begin with.
  pub list_blob_segs_by_fid_from_db-IsSorted :
      (segs : List SegRow) (fid : Bytes)
      → All Named (children_of fid segs)
      → (rows : List SegRow) × (list_blob_segs_by_fid_from_db json true segs fid
          ≡ ok (map metas rows))
        × Perm rows (children_of fid segs)
        × IsSorted (map metas rows)
  unfolding list_blob_segs_by_fid_from_db
  list_blob_segs_by_fid_from_db-IsSorted segs fid ns =
      let (all, sorted, perm) = ordered (children_of fid segs) ns in
      (
        order_by_name (children_of fid segs),
        read_segs-map (order_by_name (children_of fid segs)) all,
        perm,
        sorted,
      )
