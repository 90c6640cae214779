-- ===== src/FileTable/Commit.antt =====
-- What the two commits make of the table.
use riverpass.Prelude.{
  ◌≡◌, refl, sym, ap, ◌∙◌, true, false, inl, inr, All, Bool-cases, Option, none, some, List, [],
  ◌∷◌, arith, if◌then◌else◌,
}
use riverpass.Prelude.Int.{ℤ, ◌≤ℤ◌, ◌<ℤ◌}
use riverpass.Prelude.Text.{Bytes, str_eq, str_eq_iff, str_eq_self}
use riverpass.Prelude.Result.{ok, err, not_ready}
use riverpass.RangeCode.{RangeCode}
use riverpass.RangeList.{is_range_full_coverage}
use riverpass.RangeList.Collision.{IsNonempty}
use riverpass.RangeList.Insert.{IsOrdered}
use riverpass.RangeList.Coverage.{
  last_end, Covered, is_range_full_coverage_exact, full_coverage-cases,
}
use riverpass.Token.{get_triplet_id_from_token}
use riverpass.Meta.{
  FileMeta, DbFileMeta, MetaJson, db_file_meta2file_meta, file_meta2db_file_meta, is_empty,
}
use riverpass.FileTable.{
  FileRow, row_of, update_of, ready, commit_file_in_db, commit_cache_file_in_db, unmarshal_meta,
  whole_range, list_file_from_db,
}

abbrev pub changed : (FileRow → FileRow) → Option FileRow → Option FileRow
changed f none = none
changed f (some r) = some (f r)

not_same : (a b : Bytes) → str_eq b a ≡ false → str_eq a b ≡ false
not_same a b h = elim (Bool-cases (str_eq a b)) [
  | inr f ↦ f
  | inl t ↦ cc (sym h ∙ (str_eq_iff b a).1 (sym ((str_eq_iff a b).0 t)))
]

-- An update that keeps the key changes the row of its key and no other.
pub row_of-update_of :
    (fid j : Bytes) (f : FileRow → FileRow) (rows : List FileRow)
    → ((r : FileRow) → (f r).fid ≡ r.fid)
    → row_of j (update_of fid f rows)
      ≡ (if str_eq fid j then changed f (row_of j rows) else row_of j rows)
unfolding row_of update_of
row_of-update_of fid j f [] k = ground arith
row_of-update_of fid j f (r ∷ rows) k = elim (Bool-cases (str_eq r.fid fid)) [
  | inl same ↦
      let e : r.fid ≡ fid = (str_eq_iff r.fid fid).0 same in
      elim (Bool-cases (str_eq fid j)) [
        | inl here ↦
            let new : str_eq (f r).fid j ≡ true = ap (λ z. str_eq z j) (k r ∙ e) ∙ here in
            let old : str_eq r.fid j ≡ true = ap (λ z. str_eq z j) e ∙ here in
            rw (same, new, here, old) refl
        | inr other ↦
            let new : str_eq (f r).fid j ≡ false = ap (λ z. str_eq z j) (k r ∙ e) ∙ other in
            let old : str_eq r.fid j ≡ false = ap (λ z. str_eq z j) e ∙ other in
            rw (same, new, other, old) (row_of-update_of fid j f rows k ∙ rw other refl)
      ]
  | inr differ ↦ elim (Bool-cases (str_eq r.fid j)) [
    | inr skip ↦ rw (differ, skip) (row_of-update_of fid j f rows k)
    | inl hit ↦
        let e : r.fid ≡ j = (str_eq_iff r.fid j).0 hit in
        let d : str_eq fid j ≡ false = not_same fid j (ap (λ z. str_eq z fid) (sym e) ∙ differ) in
        rw (differ, hit, d) refl
  ]
]

pub update-row :
    (fid j : Bytes) (f : FileRow → FileRow) (rows : List FileRow) (r : FileRow)
    → ((q : FileRow) → (f q).fid ≡ q.fid)
    → row_of fid rows ≡ some r
    → row_of j (update_of fid f rows) ≡ (if str_eq fid j then some (f r) else row_of j rows)
update-row fid j f rows r k row = elim (Bool-cases (str_eq fid j)) [
  | inl here ↦
      let e : row_of j rows ≡ some r =
        ap (λ z. row_of z rows) (sym ((str_eq_iff fid j).0 here)) ∙ row in
      row_of-update_of fid j f rows k ∙ rw (here, e) refl
  | inr other ↦ row_of-update_of fid j f rows k ∙ rw other refl
]

-- `CommitCacheFileInDB` of a file that has a row with readable meta data, with a token that names a
-- triplet, where the new meta data is read back from its row and from its JSON text, which is not
-- empty: when every statement runs the commit succeeds, the file is then listed as ready with the one range from 0 to its size under the token,
-- its row belongs to the triplet, and the rows of the other files are as they were.
pub commit_cache_file_in_db-listed :
    (json : MetaJson) (rows : List FileRow) (fid token tid : Bytes) (size : ℤ) (r : FileRow)
    (fm : FileMeta)
    → row_of fid rows ≡ some r
    → unmarshal_meta json r.file_meta ≡ ok fm
    → get_triplet_id_from_token token ≡ ok tid
    → let fm1 = record fm { rng_code_list = some (whole_range json token size ∷ []) } in
      let dbfm = file_meta2db_file_meta json fm1 in
      db_file_meta2file_meta json dbfm ≡ ok fm1
      → json.meta_read (json.meta_text dbfm) ≡ some dbfm
      → is_empty (json.meta_text dbfm) ≡ false
      → (after : List FileRow) × (commit_cache_file_in_db json true true true true rows fid token
            size
          ≡ ok after)
        × (list_file_from_db json true after fid ready ≡ ok (some fm1))
        × ((j : Bytes)
            → row_of j after ≡ (
                if str_eq fid j
                then some
                    (record r { state = ready; owners = tid; file_meta = json.meta_text dbfm })
                else row_of j rows))
unfolding commit_cache_file_in_db list_file_from_db unmarshal_meta
commit_cache_file_in_db-listed json rows fid token tid size r fm row decoded tri trips reads full =
    let fm1 : FileMeta = record fm { rng_code_list = some (whole_range json token size ∷ []) } in
    let text : Bytes = json.meta_text (file_meta2db_file_meta json fm1) in
    let f : FileRow → FileRow = λ q. record q { state = ready; owners = tid; file_meta = text } in
    let found : row_of fid (update_of fid f rows) ≡ some (f r) =
      row_of-update_of fid fid f rows (λ q. refl) ∙ rw (str_eq_self fid, row) refl in
    (
      update_of fid f rows,
      rw (row, decoded, tri),
      rw (found, full, reads, trips) refl,
      λ j. update-row fid j f rows r (λ q. refl) row,
    )

module _ (json : MetaJson) (rows : List FileRow) (fid : Bytes) (r : FileRow) (dbfm : DbFileMeta)
    (fm : FileMeta) (h : RangeCode) (hs : List RangeCode) (row : row_of fid rows ≡ some r)
    (reads : json.meta_read r.file_meta ≡ some dbfm)
    (decoded : db_file_meta2file_meta json dbfm ≡ ok fm)
    (some_ranges : is_empty dbfm.rng_list ≡ false) (ranges : fm.rng_code_list ≡ some (h ∷ hs))
    (nonempty : All IsNonempty (h ∷ hs)) (ordered : IsOrdered (h ∷ hs)) where
  -- `CommitFileInDB`, whose statements run, of a file whose row holds ranges, ordered and none of them
  -- empty, where every offset from the first start to the last end lies in some range: the file becomes ready, with its
  -- meta data and its owners as they were, and the rows of the other files are as they were.
  pub commit_file_in_db-ready :
      ((x : ℤ) → h.start ≤ℤ x → x <ℤ last_end h hs → Covered (h ∷ hs) x)
      → (after : List FileRow) × (commit_file_in_db json true true true true rows fid ≡ ok after)
        × ((j : Bytes)
            → row_of j after
              ≡ (if str_eq fid j then some (record r { state = ready }) else row_of j rows))
  unfolding commit_file_in_db
  commit_file_in_db-ready all =
      let f : FileRow → FileRow = λ q. record q { state = ready } in
      let full : is_range_full_coverage (h ∷ hs) ≡ some true =
        (is_range_full_coverage_exact h hs nonempty ordered).1 all in
      (
        update_of fid f rows,
        rw (row, reads, decoded, some_ranges, ranges, full) refl,
        λ j. update-row fid j f rows r (λ q. refl) row,
      )

  -- `CommitFileInDB`, whose statements run, of a file whose row holds ranges, ordered and none of them
  -- empty, where an offset between the first start and the last end lies in no range: the error is that the file is not
  -- ready to commit.
  pub commit_file_in_db-not_ready :
      ¬ ((x : ℤ) → h.start ≤ℤ x → x <ℤ last_end h hs → Covered (h ∷ hs) x)
      → commit_file_in_db json true true true true rows fid ≡ err not_ready
  unfolding commit_file_in_db
  commit_file_in_db-not_ready missing = elim (full_coverage-cases h hs) [
    | inl full ↦ absurd (missing ((is_range_full_coverage_exact h hs nonempty ordered).0 full))
    | inr part ↦ rw (row, reads, decoded, some_ranges, ranges, part) refl
  ]
