-- ===== src/Meta/Trip.antt =====
-- The meta data of a file survives its row.
use riverpass.Prelude.{◌≡◌, refl, false, some, List, [], ◌∷◌, ◌++◌, if◌then◌else◌, All}
use riverpass.Prelude.Text.{Bytes}
use riverpass.Prelude.Result.{ok}
use riverpass.RangeCode.{RangeCode}
use riverpass.Meta.Split.{split, join, Free, split-join}
use riverpass.Meta.{
  FileMeta, MetaJson, to_range_codes, db_file_meta2file_meta, file_meta2db_file_meta, range_texts,
  is_empty, joined_ranges,
}

-- The text of a range code is read back, is not empty, and has no bar.
abbrev pub IsReadable : MetaJson → RangeCode → Type 0
IsReadable json rc =
    (json.range_read (json.range_text rc) ≡ some rc)
    × (is_empty (json.range_text rc) ≡ false)
    × Free b'|' (json.range_text rc)

texts-Free :
    (json : MetaJson) (rcs : List RangeCode)
    → All (λ rc. IsReadable json rc) rcs
    → All (λ s. Free b'|' s) (range_texts json rcs)
texts-Free json [] f = tt
texts-Free json (rc ∷ rcs) f = (f.0.2, texts-Free json rcs f.1)

-- A part that is not empty is read.
read-part :
    (json : MetaJson) (s : Bytes) (parts : List Bytes) (rc : RangeCode) (rcs : List RangeCode)
    → is_empty s ≡ false
    → json.range_read s ≡ some rc
    → to_range_codes json parts ≡ ok rcs
    → to_range_codes json (s ∷ parts) ≡ ok (rc ∷ rcs)
unfolding to_range_codes
read-part json [] parts rc rcs n r t = cc
read-part json (x ∷ s) parts rc rcs n r t = rw (r, t)

read-texts :
    (json : MetaJson) (rcs : List RangeCode)
    → All (λ rc. IsReadable json rc) rcs
    → to_range_codes json (range_texts json rcs) ≡ ok rcs
unfolding to_range_codes
read-texts json [] f = refl
read-texts json (rc ∷ rcs) f =
    read-part json (json.range_text rc) (range_texts json rcs) rc rcs f.0.1 f.0.0
      (read-texts json rcs f.1)

is_empty-append : (s t : Bytes) → is_empty s ≡ false → is_empty (s ++ t) ≡ false
is_empty-append [] t h = cc
is_empty-append (x ∷ s) t h = refl

is_empty-join :
    (s : Bytes) (parts : List Bytes) → is_empty s ≡ false → is_empty (join b'|' (s ∷ parts)) ≡ false
unfolding join
is_empty-join s [] h = h
is_empty-join s (t ∷ parts) h = is_empty-append s (b'|' ∷ join b'|' (t ∷ parts)) h

read-joined :
    (json : MetaJson) (rcs : List RangeCode)
    → All (λ rc. IsReadable json rc) rcs
    → (if is_empty (joined_ranges json (some rcs))
        then ok []
        else to_range_codes json (split b'|' (joined_ranges json (some rcs))))
      ≡ ok rcs
read-joined json [] f = unfold join in refl
read-joined json (rc ∷ rcs) f =
    rw
      (
        is_empty-join (json.range_text rc) (range_texts json rcs) f.0.1,
        split-join b'|' (json.range_text rc) (range_texts json rcs) (texts-Free json (rc ∷ rcs) f),
      )
      (read-texts json (rc ∷ rcs) f)

-- A file with at least one owner, no comma in an owner, and range codes whose JSON text is read
-- back, is not empty and has no bar, is what its row is read as.
pub file_meta_round_trip :
    (json : MetaJson) (fm : FileMeta) (owner : Bytes) (owners : List Bytes) (rcs : List RangeCode)
    → fm.owner_list ≡ some (owner ∷ owners)
    → All (λ s. Free b',' s) (owner ∷ owners)
    → fm.rng_code_list ≡ some rcs
    → All (λ rc. IsReadable json rc) rcs
    → db_file_meta2file_meta json (file_meta2db_file_meta json fm) ≡ ok fm
unfolding db_file_meta2file_meta file_meta2db_file_meta
file_meta_round_trip json fm owner owners rcs o free r readable =
    rw (o, r, read-joined json rcs readable, split-join b',' owner owners free)
