-- ===== src/Segments/Commit.antt =====
-- What the commit of a blob makes of the two tables.
use mathlib.Core.List.{Perm}
use riverpass.Prelude.{
  ◌≡◌, refl, sym, ap, ◌∙◌, true, false, Bool-cases, inl, inr, some, List, [], ◌∷◌, All,
}
use riverpass.Prelude.Int.{ℤ, pos, ◌≤ℤ◌}
use riverpass.Prelude.Text.{Bytes, str_eq, str_eq_self}
use riverpass.Prelude.Result.{ok, err, range_collision}
use riverpass.RangeCode.{RangeCode, to_db_entry}
use riverpass.RangeList.{is_range_collision, insert_range_code_list}
use riverpass.RangeList.Collision.{IsNonempty, Covers, collision_exact, is_range_collision-token}
use riverpass.RangeList.Insert.{IsOrdered, insert_range_code_list-IsOrdered}
use riverpass.Token.{full2partial_token}
use riverpass.Meta.{FileMeta, DbFileMeta, MetaJson, db_file_meta2file_meta, file_meta2db_file_meta}
use riverpass.FileTable.{FileRow, row_of, update_of, ready, unmarshal_meta}
use riverpass.FileTable.Commit.{update-row}
use riverpass.Segments.{
  BlobMeta, SegJson, SegRow, range_code, seg_of, update_seg, commit_blob_in_db,
}

-- The meta data of a file with a range inserted.
abbrev pub inserted : FileMeta → List RangeCode → RangeCode → FileMeta
inserted fm hs rc = record fm { rng_code_list = some (insert_range_code_list hs rc) }

module _ (json : SegJson) (meta_json : MetaJson) (segs : List SegRow) (rows : List FileRow)
    (fid full_token partial_token : Bytes) (start end : ℤ) (r : FileRow) (dbfm : DbFileMeta)
    (fm : FileMeta) (hs : List RangeCode) (seg : SegRow) (bm : BlobMeta)
    (row : row_of fid rows ≡ some r) (reads : meta_json.meta_read r.file_meta ≡ some dbfm)
    (decoded : db_file_meta2file_meta meta_json dbfm ≡ ok fm) (ranges : fm.rng_code_list ≡ some hs)
    (partial : full2partial_token full_token ≡ ok partial_token)
    (found : seg_of fid (to_db_entry (range_code (start, end) partial_token)) segs ≡ some seg)
    (read_back : json.seg_read seg.seg_meta ≡ some bm)
    (same_range : bm.rng_code ≡ range_code (start, end) partial_token) where
  abbrev new_meta_text : Bytes
  new_meta_text =
      meta_json.meta_text
        (file_meta2db_file_meta meta_json (inserted fm hs (range_code (start, end) full_token)))

  abbrev committed : SegRow → SegRow
  committed q = record q {
    state = ready;
    child_name = to_db_entry (range_code (start, end) full_token);
    seg_meta = json.seg_text (record bm { rng_code = record bm.rng_code { token = full_token } });
  }

  same_answer :
      is_range_collision hs bm.rng_code ≡ is_range_collision hs (range_code (start, end) full_token)
  same_answer =
      ap (is_range_collision hs) same_range
      ∙ sym (is_range_collision-token hs (range_code (start, end) partial_token) full_token)

  -- `CommitBlobInDB` of a segment that `CreateBlobSegInDB` has made with the same range, in a file
  -- whose row holds ordered ranges, none of them empty, where no offset of the new range, which is
  -- not empty and not negative, lies in one of them, and where the new meta data is read back from
  -- its row and its JSON text: when every statement runs the commit succeeds, the file's row holds
  -- the ranges in order with the new one and nothing else added, and the rows of the other files are
  -- as they were.
  pub commit_blob_in_db-IsOrdered :
      pos 0 ≤ℤ start
      → IsNonempty (range_code (start, end) full_token)
      → All IsNonempty hs
      → IsOrdered hs
      → ((x : ℤ) → Covers (range_code (start, end) full_token) x → All (λ h. ¬ Covers h x) hs)
      → db_file_meta2file_meta meta_json
          (file_meta2db_file_meta meta_json (inserted fm hs (range_code (start, end) full_token)))
        ≡ ok (inserted fm hs (range_code (start, end) full_token))
      → meta_json.meta_read new_meta_text
        ≡ some
            (file_meta2db_file_meta meta_json (inserted fm hs (range_code (start, end) full_token)))
      → (segs2 : List SegRow) × (rows2 : List FileRow) × (r2 : FileRow) × (commit_blob_in_db json
            meta_json true true true true true true
            (segs, rows)
            (start ∷ end ∷ [])
            fid
            full_token
          ≡ ok (segs2, rows2))
        × (row_of fid rows2 ≡ some r2)
        × (unmarshal_meta meta_json r2.file_meta
            ≡ ok (inserted fm hs (range_code (start, end) full_token)))
        × IsOrdered (insert_range_code_list hs (range_code (start, end) full_token))
        × Perm
            (insert_range_code_list hs (range_code (start, end) full_token))
            ((range_code (start, end) full_token) ∷ hs)
        × ((j : Bytes) → str_eq fid j ≡ false → row_of j rows2 ≡ row_of j rows)
  unfolding commit_blob_in_db unmarshal_meta
  commit_blob_in_db-IsOrdered at nonempty nonempties ordered apart trips text =
      let free : is_range_collision hs (range_code (start, end) full_token) ≡ false =
        (collision_exact hs (range_code (start, end) full_token) nonempties nonempty).1 apart in
      let free_row : is_range_collision hs bm.rng_code ≡ false = same_answer ∙ free in
      let f : FileRow → FileRow = λ q. record q { file_meta = new_meta_text } in
      let (ordered2, perm) =
        insert_range_code_list-IsOrdered hs (range_code (start, end) full_token) at nonempty
          nonempties ordered free in
      (
        update_seg fid (to_db_entry (range_code (start, end) partial_token)) committed segs,
        update_of fid f rows,
        f r,
        rw (row, reads, decoded, partial, found, read_back, ranges, free_row) refl,
        update-row fid fid f rows r (λ q. refl) row ∙ rw (str_eq_self fid) refl,
        rw (text, trips) refl,
        ordered2,
        perm,
        λ j other. update-row fid j f rows r (λ q. refl) row ∙ rw other refl,
      )

  -- `CommitBlobInDB` of such a segment when an offset of the new range, which is not empty, lies in a
  -- range of the file, none of which is empty: the error says that the ranges collide.
  pub commit_blob_in_db-collides :
      IsNonempty (range_code (start, end) full_token)
      → All IsNonempty hs
      → ¬ ((x : ℤ) → Covers (range_code (start, end) full_token) x → All (λ h. ¬ Covers h x) hs)
      → commit_blob_in_db json meta_json true true true true true true
          (segs, rows)
          (start ∷ end ∷ [])
          fid
          full_token
        ≡ err range_collision
  unfolding commit_blob_in_db
  commit_blob_in_db-collides nonempty nonempties shared =
      elim (Bool-cases (is_range_collision hs (range_code (start, end) full_token))) [
        | inr free ↦ absurd (
            shared (
              (collision_exact hs (range_code (start, end) full_token) nonempties nonempty).0 free))
        | inl hit ↦
            let hit_row : is_range_collision hs bm.rng_code ≡ true = same_answer ∙ hit in
            rw (row, reads, decoded, partial, found, read_back, ranges, hit_row) refl
      ]
