-- ===== src/Meta/Sample.antt =====
-- A concrete encoding that reads every range at offsets of 0 or more back, for the tests.
use riverpass.Prelude.{ℕ, ◌+◌, ◌-◌, ◌≡◌, refl, Option, none, some, [], ◌∷◌, map, arith}
use riverpass.Prelude.Int.{pos, pos_part}
use riverpass.Prelude.Text.{Bytes}
use riverpass.RangeCode.{RangeCode}
use riverpass.Meta.{DbFileMeta, MetaJson}
use riverpass.Meta.Split.{Free}
use riverpass.Meta.Trip.{IsReadable}

abbrev range_at : Bytes → Option RangeCode
range_at (x ∷ y ∷ s) =
    some (record { start = pos (x - 1000); end = pos (y - 1000); token = map (λ c. c - 1000) s })
range_at s = none

abbrev row_at : Bytes → Bytes → Bytes → Bytes → Option DbFileMeta
row_at name owners etag [] = none
row_at name owners etag (x ∷ s) =
    some (record {
      name = name;
      id = [];
      owner_list = owners;
      blob_id = [];
      rng_list = s;
      etag = etag;
    })

-- Every number is moved up by 1000, so that none is a bar.
abbrev pub sample_json : Bytes → Bytes → Bytes → MetaJson
sample_json name owners etag = record {
  range_text =
      λ rc. (pos_part rc.start + 1000) ∷ (pos_part rc.end + 1000) ∷ map (λ c. c + 1000) rc.token;
  range_read = range_at;
  meta_text = λ m. b'm' ∷ m.rng_list;
  meta_read = row_at name owners etag;
}

down_up : (s : Bytes) → map (λ c. c - 1000) (map (λ c. c + 1000) s) ≡ s
down_up [] = refl
down_up (x ∷ s) = let e : x + 1000 - 1000 ≡ x = omega arith in rw (e, down_up s)

up-Free : (s : Bytes) → Free b'|' (map (λ c. c + 1000) s)
up-Free [] = tt
up-Free (x ∷ s) = ((λ e. omega arith), up-Free s)

pub sample-IsReadable :
    (name owners etag : Bytes) (a b : ℕ) (token : Bytes)
    → IsReadable
        (sample_json name owners etag)
        (record { start = pos a; end = pos b; token = token })
sample-IsReadable name owners etag a b token =
    let x : a + 1000 - 1000 ≡ a = omega arith in
    let y : b + 1000 - 1000 ≡ b = omega arith in
    (rw (x, y, down_up token) refl, refl, ((λ e. omega arith), ((λ e. omega arith), up-Free token)))
