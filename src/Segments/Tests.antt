-- ===== src/Segments/Tests.antt =====
-- Tests of the segments table, and its theorems at concrete tables.
use mathlib.Core.List.{Perm}
use riverpass.Prelude.{
  ℕ, ◌+◌, ◌≡◌, refl, true, false, Option, none, some, List, [], ◌∷◌, arith, All, map, if◌then◌else◌,
}
use riverpass.Prelude.Int.{ℤ, pos}
use riverpass.Prelude.Text.{Bytes, codes, str_eq, str_eq_self}
use riverpass.Prelude.Result.{ok, err, crash, range_collision}
use riverpass.RangeCode.{RangeCode, to_db_entry}
use riverpass.RangeList.{insert_range_code_list}
use riverpass.RangeList.Collision.{Covers}
use riverpass.RangeList.Insert.{IsOrdered}
use riverpass.Token.{full2partial_token, get_blob_id_from_token, find_blob_id}
use riverpass.Meta.{
  FileMeta, DbFileMeta, MetaJson, db_file_meta2file_meta, file_meta2db_file_meta, to_range_codes,
}
use riverpass.Meta.Split.{split, join}
use riverpass.FileTable.{FileRow, row_of, pending, unmarshal_meta}
use riverpass.Segments.{
  BlobMeta, SegJson, SegRow, range_code, children_of, seg_of, create_blob_seg_in_db,
  list_blob_segs_by_fid_from_db, commit_blob_in_db,
}
use riverpass.Segments.Sorting.{IsSorted, list_blob_segs_by_fid_from_db-IsSorted}
use riverpass.Segments.Commit.{inserted, commit_blob_in_db-IsOrdered, commit_blob_in_db-collides}

-- The text of a segment is its first offset.
abbrev offset_of : ℤ → ℕ
offset_of (pos n) = n
offset_of z = 0

abbrev meta_at : ℕ → BlobMeta
meta_at n = record {
  rng_code = range_code (pos n, pos (n + 4)) (codes "tr__bb_c");
  owner_id = codes "a";
}

abbrev read_at : Bytes → Option BlobMeta
read_at [] = none
read_at (n ∷ s) = some (meta_at n)

abbrev json : SegJson
json = record { seg_text = λ bm. offset_of bm.rng_code.start ∷ []; seg_read = read_at }

abbrev seg_at : ℕ → SegRow
seg_at n = record {
  parent_id = codes "a";
  child_name = to_db_entry (meta_at n).rng_code;
  seg_meta = n ∷ [];
  state = pending;
}

abbrev metas : SegRow → BlobMeta
metas r = elim r.seg_meta [ [] ↦ meta_at 0 | n ∷ s ↦ meta_at n ]

abbrev segs : List SegRow
segs = seg_at 4 ∷ seg_at 0 ∷ []

created :
    (create_blob_seg_in_db json true
      (seg_at 4 ∷ [])
      (pos 0 ∷ pos 4 ∷ [])
      (codes "a")
      (codes "tr__bb_c"))
    ≡ ok segs
unfolding create_blob_seg_in_db
created = refl

one_offset : create_blob_seg_in_db json true [] (pos 0 ∷ []) (codes "a") (codes "t") ≡ crash
unfolding create_blob_seg_in_db
one_offset = refl

children : children_of (codes "a") segs ≡ segs
unfolding children_of str_eq
children = refl

segments-IsSorted :
    (rows : List SegRow) × (list_blob_segs_by_fid_from_db json true segs (codes "a")
      ≡ ok (map metas rows))
    × Perm rows (children_of (codes "a") segs)
    × IsSorted (map metas rows)
segments-IsSorted =
    list_blob_segs_by_fid_from_db-IsSorted json metas segs (codes "a") (
      rw children
        ((refl, refl, (4, refl, omega arith)), ((refl, refl, (0, refl, omega arith)), tt)))

-- A range's text is its token: `t` stands for 0 to 4, any other token for 4 to 8.
abbrev range_t : RangeCode
range_t = record { start = pos 0; end = pos 4; token = codes "t" }

abbrev read_meta : Bytes → Option DbFileMeta
read_meta [] = none
read_meta (x ∷ s) =
    some
      (record { name = []; id = []; owner_list = codes "x"; blob_id = []; rng_list = s; etag = [] })

abbrev meta_json : MetaJson
meta_json = record {
  range_text = λ rc. rc.token;
  range_read = λ s.
      some (
        if str_eq s (codes "t") then range_t else record { start = pos 4; end = pos 8; token = s });
  meta_text = λ m. b'm' ∷ m.rng_list;
  meta_read = read_meta;
}

abbrev row_a : FileRow
row_a = record { fid = codes "a"; file_meta = codes "mt"; owners = []; state = pending }

abbrev db_a : DbFileMeta
db_a = record {
  name = [];
  id = [];
  owner_list = codes "x";
  blob_id = [];
  rng_list = codes "t";
  etag = [];
}

abbrev meta_a : FileMeta
meta_a = record {
  name = [];
  id = [];
  owner_list = some (codes "x" ∷ []);
  blob_id = [];
  rng_code_list = some (range_t ∷ []);
  etag = [];
}

abbrev token : Bytes
token = codes "tr_u_bb_c"

found_row : row_of (codes "a") (row_a ∷ []) ≡ some row_a
unfolding row_of str_eq
found_row = refl

decoded_a : db_file_meta2file_meta meta_json db_a ≡ ok meta_a
unfolding db_file_meta2file_meta split to_range_codes str_eq
decoded_a = refl

partial_of : full2partial_token token ≡ ok (codes "tr__bb_c")
unfolding full2partial_token get_blob_id_from_token find_blob_id
partial_of = refl

-- The segment of the range from the first to the second offset.
abbrev json_of : ℕ → ℕ → SegJson
json_of x y = record {
  seg_text = λ bm. [];
  seg_read = λ s.
      some
        (record { rng_code = range_code (pos x, pos y) (codes "tr__bb_c"); owner_id = codes "a" });
}

abbrev seg_named : Bytes → SegRow
seg_named name = record { parent_id = codes "a"; child_name = name; seg_meta = []; state = pending }

found_named : (name : Bytes) → seg_of (codes "a") name (seg_named name ∷ []) ≡ some (seg_named name)
unfolding seg_of
found_named name = rw (str_eq_self name, str_eq_self (codes "a")) refl

abbrev range_c : RangeCode
range_c = range_code (pos 4, pos 8) token

inserted_c : insert_range_code_list (range_t ∷ []) range_c ≡ range_t ∷ range_c ∷ []
unfolding insert_range_code_list
inserted_c = refl

abbrev after : FileMeta
after = inserted meta_a (range_t ∷ []) range_c

trips : db_file_meta2file_meta meta_json (file_meta2db_file_meta meta_json after) ≡ ok after
unfolding db_file_meta2file_meta file_meta2db_file_meta split join to_range_codes str_eq
trips = rw inserted_c refl

text_back :
    meta_json.meta_read (meta_json.meta_text (file_meta2db_file_meta meta_json after))
    ≡ some (file_meta2db_file_meta meta_json after)
unfolding file_meta2db_file_meta join
text_back = refl

apart : (x : ℤ) → Covers range_c x → All (λ h. ¬ Covers h x) (range_t ∷ [])
apart x c = ((λ d. omega arith), tt)

commit_blob_in_db-IsOrdered_example :
    (segs2 : List SegRow) × (rows2 : List FileRow) × (r2 : FileRow) × (commit_blob_in_db
        (json_of 4 8)
        meta_json
        true
        true
        true
        true
        true
        true
        (seg_named (to_db_entry (range_code (pos 4, pos 8) (codes "tr__bb_c"))) ∷ [], row_a ∷ [])
        (pos 4 ∷ pos 8 ∷ [])
        (codes "a")
        token
      ≡ ok (segs2, rows2))
    × (row_of (codes "a") rows2 ≡ some r2)
    × (unmarshal_meta meta_json r2.file_meta ≡ ok after)
    × IsOrdered (insert_range_code_list (range_t ∷ []) range_c)
    × Perm (insert_range_code_list (range_t ∷ []) range_c) (range_c ∷ range_t ∷ [])
    × ((j : Bytes) → str_eq (codes "a") j ≡ false → row_of j rows2 ≡ row_of j (row_a ∷ []))
commit_blob_in_db-IsOrdered_example =
    commit_blob_in_db-IsOrdered (json_of 4 8) meta_json
      (seg_named (to_db_entry (range_code (pos 4, pos 8) (codes "tr__bb_c"))) ∷ []) (row_a ∷ [])
      (codes "a") token (codes "tr__bb_c") (pos 4) (pos 8) row_a db_a meta_a (range_t ∷ [])
      (seg_named (to_db_entry (range_code (pos 4, pos 8) (codes "tr__bb_c")))) (meta_at 4) found_row
      refl decoded_a refl partial_of (found_named _) refl refl (omega arith) (omega arith)
      (omega arith, tt) (tt, tt) apart trips text_back

shared : ¬ (
    (x : ℤ) → Covers (range_code (pos 2, pos 6) token) x → All (λ h. ¬ Covers h x) (range_t ∷ []))
shared f = (f (pos 3) (omega arith, omega arith)).0 (omega arith, omega arith)

commit_blob_in_db-collides_example :
    commit_blob_in_db
      (json_of 2 6)
      meta_json
      true
      true
      true
      true
      true
      true
      (seg_named (to_db_entry (range_code (pos 2, pos 6) (codes "tr__bb_c"))) ∷ [], row_a ∷ [])
      (pos 2 ∷ pos 6 ∷ [])
      (codes "a")
      token
    ≡ err range_collision
commit_blob_in_db-collides_example =
    commit_blob_in_db-collides (json_of 2 6) meta_json
      (seg_named (to_db_entry (range_code (pos 2, pos 6) (codes "tr__bb_c"))) ∷ []) (row_a ∷ [])
      (codes "a") token (codes "tr__bb_c") (pos 2) (pos 6) row_a db_a meta_a (range_t ∷ [])
      (seg_named (to_db_entry (range_code (pos 2, pos 6) (codes "tr__bb_c"))))
      (record { rng_code = range_code (pos 2, pos 6) (codes "tr__bb_c"); owner_id = codes "a" })
      found_row refl decoded_a refl partial_of (found_named _) refl refl (omega arith)
      (omega arith, tt) shared
