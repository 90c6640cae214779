-- ===== src/FileReader.antt =====
-- server/holder/src/file_handler/file_reader.go: reading a part of a file from its blobs. Offsets and
-- sizes are int32 values, whose sums and differences wrap around. `math.Max` and `math.Min` of
-- float64 values are exact on them. The goroutines of `ReadAt` are taken in the order in which they
-- are started; each copies to the part of its own segment.
pub mod Slices
mod Tests
use riverpass.Prelude.{
  ℕ, ◌+◌, ◌-◌, Bool, ◌||◌, Option, none, some, List, [], ◌∷◌, ◌++◌, inl, inr, leb, if◌then◌else◌,
  length, take, drop, replicate,
}
use riverpass.Prelude.Int.{ℤ, pos, negsuc, ◌+ℤ◌, ◌-ℤ◌, leb_ℤ, ltb_ℤ, wrap32, to_int32}
use riverpass.Prelude.Text.{Bytes}
use riverpass.Prelude.Result.{Result, ok, err, crash, Error, require, out_of_range, ◌>>=◌, ◌>>◌}
use riverpass.RangeCode.{RangeCode}
use riverpass.Holder.Triplet.{Config, PhyBh}
use riverpass.Holder.Put.{attempt}
use riverpass.Holder.Get.{get}
use riverpass.Segments.{BlobMeta, SegJson, SegRow, list_blob_segs_by_fid_from_db}

unfoldable pub add32 : ℤ → ℤ → ℤ
add32 a b = wrap32 (a +ℤ b)

unfoldable pub sub32 : ℤ → ℤ → ℤ
sub32 a b = wrap32 (a -ℤ b)

unfoldable pub max_ℤ : ℤ → ℤ → ℤ
max_ℤ a b = if ltb_ℤ a b then b else a

unfoldable pub min_ℤ : ℤ → ℤ → ℤ
min_ℤ a b = if ltb_ℤ b a then b else a

-- `make([]byte, size)`
unfoldable pub make_bytes : ℤ → Result Bytes
make_bytes (pos n) = ok (replicate n 0)
make_bytes (negsuc n) = crash

-- `data[start:end]`
unfoldable pub slice_bytes : Bytes → ℤ → ℤ → Result Bytes
slice_bytes bytes (negsuc s) e = crash
slice_bytes bytes (pos s) (negsuc e) = crash
slice_bytes bytes (pos s) (pos e) = do
  require (leb s e)
  require (leb e (length bytes))
  ok (take (e - s) (drop s bytes))

-- `copy(dst[lo:hi], src)`
unfoldable pub copy_into : Bytes → ℤ → ℤ → Bytes → Result Bytes
copy_into dst (negsuc lo) hi src = crash
copy_into dst (pos lo) (negsuc hi) src = crash
copy_into dst (pos lo) (pos hi) src = do
  require (leb lo hi)
  require (leb hi (length dst))
  let copied = take (hi - lo) src
  ok (take lo dst ++ (copied ++ drop (lo + length copied) dst))

-- What one goroutine of `ReadAt` is started with.
pub record Piece : Type 0 where
  pub token : Bytes
  pub start : ℤ
  pub end : ℤ
  pub lo : ℤ
  pub hi : ℤ

abbrev pub piece_of : BlobMeta → ℤ → ℤ → Piece
piece_of bm offset size =
    let cur_start = max_ℤ bm.rng_code.start offset in
    let cur_end = min_ℤ bm.rng_code.end (add32 offset size) in
    record {
      token = bm.rng_code.token;
      start = sub32 cur_start bm.rng_code.start;
      end = sub32 cur_end bm.rng_code.start;
      lo = sub32 cur_start offset;
      hi = sub32 cur_end offset;
    }

-- The loop that starts them, with its `continue` and its `break`.
unfoldable pub pieces : List BlobMeta → ℤ → ℤ → List Piece
pieces [] offset size = []
pieces (bm ∷ bms) offset size =
    let rest = pieces bms offset size in
    if ltb_ℤ bm.rng_code.end offset
    then rest
    else if leb_ℤ (add32 offset size) bm.rng_code.start
    then []
    else piece_of bm offset size ∷ rest

abbrev pub outcome : Bytes → Option Error → Result Bytes
outcome all_bytes none = ok all_bytes
outcome all_bytes (some e) = err e

module _ (config : Config) where
  unfoldable pub read_piece : PhyBh → Bytes → ℤ → ℤ → Result (PhyBh × Result Bytes)
  unfolding slice_bytes
  read_piece pbh token start end = do
    (pbh1, r) ← get config pbh token
    got ← attempt r
    elim got [
      | inr e ↦ ok (pbh1, err e)
      | inl bytes ↦
          let data_len = to_int32 (length bytes) in
          if leb_ℤ data_len start || ltb_ℤ data_len end
          then ok (pbh1, err out_of_range)
          else (slice_bytes bytes start end >>= λ piece. ok (pbh1, ok piece))
    ]

  -- What is out of the range is only logged.
  unfoldable pub read_from_cache : PhyBh → ℤ → ℤ → List RangeCode → Result (PhyBh × Result Bytes)
  read_from_cache pbh offset size [] = crash
  read_from_cache pbh offset size (rc ∷ rng_code_list) = do
    all_bytes ← make_bytes size
    let cur_start = max_ℤ rc.start offset
    let cur_end = min_ℤ rc.end (add32 offset size)
    (pbh1, r) ← read_piece pbh rc.token (sub32 cur_start rc.start) (sub32 cur_end rc.start)
    got ← attempt r
    elim got [
      | inr e ↦ ok (pbh1, err e)
      | inl bytes ↦
          copy_into all_bytes (sub32 cur_start offset) (sub32 cur_end offset) bytes >>= λ out.
          ok (pbh1, ok out)
    ]

  -- The last error wins.
  unfoldable pub run_pieces :
      List Piece → PhyBh → Bytes → Option Error → Result (PhyBh × Bytes × Option Error)
  run_pieces [] pbh all_bytes tmp_err = ok (pbh, all_bytes, tmp_err)
  run_pieces (p ∷ ps) pbh all_bytes tmp_err = do
    (pbh1, r) ← read_piece pbh p.token p.start p.end
    got ← attempt r
    elim got [
      | inr e ↦ run_pieces ps pbh1 all_bytes (some e)
      | inl bytes ↦ copy_into all_bytes p.lo p.hi bytes >>= λ out. run_pieces ps pbh1 out tmp_err
    ]

  unfoldable pub read_at :
      SegJson → Bool → List SegRow → PhyBh → Bytes → ℤ → ℤ → Result (PhyBh × Result Bytes)
  read_at json runs segs pbh fid offset size = do
    listed ← attempt (list_blob_segs_by_fid_from_db json runs segs fid)
    elim listed [
      | inr e ↦ ok (pbh, err e)
      | inl bms ↦
          (make_bytes size >>= λ all_bytes.
          run_pieces (pieces bms offset size) pbh all_bytes none >>= λ done.
          ok (done.0, outcome done.1 done.2))
    ]
