-- ===== src/FileTable/Tests.antt =====
-- Tests of the files table, and its theorems at concrete tables.
use riverpass.Prelude.{
  ◌≡◌, refl, inl, inr, true, false, Option, none, some, List, [], ◌∷◌, arith, if◌then◌else◌,
}
use riverpass.Prelude.Int.{ℤ, pos, ◌≤ℤ◌, ◌<ℤ◌}
use riverpass.Prelude.Text.{Bytes, codes, str_eq}
use riverpass.Prelude.Result.{ok, err, not_ready, json_error}
use riverpass.RangeCode.{RangeCode}
use riverpass.RangeList.Coverage.{Covered}
use riverpass.Token.{get_triplet_id_from_token, find_triplet_id}
use riverpass.Meta.{
  FileMeta, DbFileMeta, MetaJson, db_file_meta2file_meta, file_meta2db_file_meta, is_empty,
  to_range_codes,
}
use riverpass.Meta.Split.{split, join}
use riverpass.FileTable.{
  FileRow, row_of, pending, ready, whole_range, unmarshal_meta, commit_file_in_db,
  commit_cache_file_in_db, list_file_from_db, delete_all_pending_file_in_db, delete_where,
}
use riverpass.FileTable.Commit.{
  commit_cache_file_in_db-listed, commit_file_in_db-ready, commit_file_in_db-not_ready,
}

abbrev read_text : Bytes → Option DbFileMeta
read_text [] = none
read_text (x ∷ s) =
    some
      (record { name = []; id = []; owner_list = codes "x"; blob_id = []; rng_list = s; etag = [] })

-- Meta data whose text is the list of its ranges; a range's text is its token.
abbrev json : MetaJson
json = record {
  range_text = λ rc. rc.token;
  range_read = λ s. some (record { start = pos 0; end = pos 4; token = s });
  meta_text = λ m. b'm' ∷ m.rng_list;
  meta_read = read_text;
}

abbrev token : Bytes
token = codes "tr_a_bb_c"

abbrev file_a : FileRow
file_a = record { fid = codes "a"; file_meta = codes "m"; owners = []; state = pending }

abbrev file_b : FileRow
file_b = record { fid = codes "b"; file_meta = codes "mt"; owners = []; state = pending }

abbrev rows : List FileRow
rows = file_a ∷ file_b ∷ []

abbrev meta_a : FileMeta
meta_a = record {
  name = [];
  id = [];
  owner_list = some (codes "x" ∷ []);
  blob_id = [];
  rng_code_list = some [];
  etag = [];
}

abbrev meta_b : FileMeta
meta_b = record meta_a {
  rng_code_list = some (record { start = pos 0; end = pos 4; token = codes "t" } ∷ []);
}

abbrev db_b : DbFileMeta
db_b = record {
  name = [];
  id = [];
  owner_list = codes "x";
  blob_id = [];
  rng_list = codes "t";
  etag = [];
}

no_row : commit_file_in_db json true true true true [] (codes "a") ≡ err json_error
unfolding commit_file_in_db row_of
no_row = refl

none_pending : delete_all_pending_file_in_db true rows ≡ ok []
unfolding delete_all_pending_file_in_db delete_where
none_pending = refl

found_a : row_of (codes "a") rows ≡ some file_a
unfolding row_of str_eq
found_a = refl

found_b : row_of (codes "b") rows ≡ some file_b
unfolding row_of str_eq
found_b = refl

decoded_a : unmarshal_meta json (codes "m") ≡ ok meta_a
unfolding unmarshal_meta db_file_meta2file_meta split
decoded_a = refl

decoded_b : db_file_meta2file_meta json db_b ≡ ok meta_b
unfolding db_file_meta2file_meta split to_range_codes
decoded_b = refl

tid_of_token : get_triplet_id_from_token token ≡ ok (codes "a")
unfolding get_triplet_id_from_token find_triplet_id
tid_of_token = refl

abbrev meta_done : FileMeta
meta_done = record meta_a { rng_code_list = some (whole_range json token (pos 4) ∷ []) }

trips : db_file_meta2file_meta json (file_meta2db_file_meta json meta_done) ≡ ok meta_done
unfolding db_file_meta2file_meta file_meta2db_file_meta split join to_range_codes
trips = refl

reads_back :
    json.meta_read (json.meta_text (file_meta2db_file_meta json meta_done))
    ≡ some (file_meta2db_file_meta json meta_done)
unfolding file_meta2db_file_meta join
reads_back = refl

text_nonempty : is_empty (json.meta_text (file_meta2db_file_meta json meta_done)) ≡ false
text_nonempty = refl

commit_cache_file_in_db-listed_example :
    (after : List FileRow) × (commit_cache_file_in_db json true true true true rows
        (codes "a")
        token
        (pos 4)
      ≡ ok after)
    × (list_file_from_db json true after (codes "a") ready ≡ ok (some meta_done))
    × ((j : Bytes)
        → row_of j after ≡ (
            if str_eq (codes "a") j
            then some (record file_a {
              state = ready;
              owners = codes "a";
              file_meta = json.meta_text (file_meta2db_file_meta json meta_done);
            })
            else row_of j rows))
commit_cache_file_in_db-listed_example =
    commit_cache_file_in_db-listed json rows (codes "a") token (codes "a") (pos 4) file_a meta_a
      found_a decoded_a tid_of_token trips reads_back refl

abbrev range_b : RangeCode
range_b = record { start = pos 0; end = pos 4; token = codes "t" }

b-Covered : (x : ℤ) → pos 0 ≤ℤ x → x <ℤ pos 4 → Covered (range_b ∷ []) x
b-Covered x lo hi = inl (lo, hi)

commit_file_in_db-ready_example :
    (after : List FileRow) × (commit_file_in_db json true true true true rows (codes "b")
      ≡ ok after)
    × ((j : Bytes)
        → row_of j after ≡ (
            if str_eq (codes "b") j then some (record file_b { state = ready }) else row_of j rows))
commit_file_in_db-ready_example =
    commit_file_in_db-ready json rows (codes "b") file_b db_b meta_b range_b [] found_b refl
      decoded_b refl refl (omega arith, tt) (tt, tt) b-Covered

-- Two ranges with a gap: the token `t` is read as 0 to 4, the token `u` as 6 to 8.
abbrev range_c : RangeCode
range_c = record { start = pos 6; end = pos 8; token = codes "u" }

abbrev gapped : MetaJson
gapped = record json { range_read = λ s. some (if str_eq s (codes "u") then range_c else range_b) }

abbrev file_c : FileRow
file_c = record { fid = codes "c"; file_meta = codes "mt|u"; owners = []; state = pending }

abbrev db_c : DbFileMeta
db_c = record {
  name = [];
  id = [];
  owner_list = codes "x";
  blob_id = [];
  rng_list = codes "t|u";
  etag = [];
}

abbrev meta_c : FileMeta
meta_c = record meta_a { rng_code_list = some (range_b ∷ range_c ∷ []) }

found_c : row_of (codes "c") (file_c ∷ []) ≡ some file_c
unfolding row_of str_eq
found_c = refl

decoded_c : db_file_meta2file_meta gapped db_c ≡ ok meta_c
unfolding db_file_meta2file_meta split to_range_codes str_eq
decoded_c = refl

five_missing : ¬ Covered (range_b ∷ range_c ∷ []) (pos 5)
five_missing (inl c) = omega arith
five_missing (inr (inl c)) = omega arith
five_missing (inr (inr c)) = c

c_missing : ¬ ((x : ℤ) → pos 0 ≤ℤ x → x <ℤ pos 8 → Covered (range_b ∷ range_c ∷ []) x)
c_missing all = five_missing (all (pos 5) (omega arith) (omega arith))

commit_file_in_db-not_ready_example :
    commit_file_in_db gapped true true true true (file_c ∷ []) (codes "c") ≡ err not_ready
commit_file_in_db-not_ready_example =
    commit_file_in_db-not_ready gapped (file_c ∷ []) (codes "c") file_c db_c meta_c range_b
      (range_c ∷ []) found_c refl decoded_c refl refl (omega arith, (omega arith, tt))
      ((omega arith, tt), (tt, tt)) c_missing
