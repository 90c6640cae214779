-- ===== src/FileReader/Slices.antt =====
-- What the reader returns of a blob.
use riverpass.Prelude.{
  ℕ, zero, suc, ◌+◌, ◌-◌, ◌^◌, ◌≤◌, ◌<◌, ◌≡◌, refl, ap, ◌∙◌, true, false, List, [], ◌∷◌, arith,
  length, take, drop, replicate, length-take, length-drop, length-replicate, take_all, append-nil,
  leb, ltb, le→leb,
}
use riverpass.Prelude.Int.{pos, ltb_ℤ, leb_ℤ, wrap32-+ℤ, wrap32--ℤ, to_int32_small}
use riverpass.Prelude.Text.{Bytes}
use riverpass.Prelude.Result.{ok, err, out_of_range}
use riverpass.RangeCode.{RangeCode}
use riverpass.Holder.Triplet.{Config, PhyBh}
use riverpass.Holder.Get.{get}
use riverpass.Segments.{SegJson, SegRow, list_blob_segs_by_fid_from_db}
use riverpass.FileReader.{
  make_bytes, pieces, run_pieces, read_at, slice_bytes, copy_into, read_piece, read_from_cache,
  add32, sub32, max_ℤ, min_ℤ,
}

not_le : (a b : ℕ) → a < b → leb b a ≡ false
not_le a b h = ground arith

not_lt : (a b : ℕ) → a ≤ b → ltb b a ≡ false
not_lt a b h = ground arith

drop_all : (n : ℕ) (s : Bytes) → length s ≤ n → drop n s ≡ []
drop_all zero [] h = refl
drop_all zero (x ∷ s) h = absurd (omega arith)
drop_all (suc n) [] h = refl
drop_all (suc n) (x ∷ s) h = drop_all n s (omega arith)

max_pos : (a o : ℕ) → a ≤ o → max_ℤ (pos a) (pos o) ≡ pos o
unfolding max_ℤ
max_pos a o h = ground arith

min_pos : (b e : ℕ) → e ≤ b → min_ℤ (pos b) (pos e) ≡ pos e
unfolding min_ℤ
min_pos b e h = ground arith

min_first : (b e : ℕ) → b ≤ e → min_ℤ (pos b) (pos e) ≡ pos b
unfolding min_ℤ
min_first b e h = ground arith

add32_pos : (a b : ℕ) → a + b < 2 ^ 31 → add32 (pos a) (pos b) ≡ pos (a + b)
unfolding add32
add32_pos a b h = wrap32-+ℤ a b h

sub32_pos : (a b : ℕ) → b ≤ a → a < 2 ^ 31 → sub32 (pos a) (pos b) ≡ pos (a - b)
unfolding sub32
sub32_pos a b le h = wrap32--ℤ a b le h

-- A copy over a whole array.
copy_into_whole :
    (n : ℕ) (dst src : Bytes)
    → length dst ≡ n
    → length src ≡ n
    → copy_into dst (pos 0) (pos n) src ≡ ok src
unfolding copy_into
copy_into_whole n dst src d s =
    let k : n - 0 ≡ n = omega arith in
    let t : take n src ≡ src = take_all n src (omega arith) in
    let rest : drop (0 + length src) dst ≡ [] = drop_all (0 + length src) dst (omega arith) in
    rw (le→leb 0 n (omega arith), le→leb n (length dst) (omega arith), k, t, rest)
      (ap ok (append-nil src))

module _ (config : Config) (pbh later : PhyBh) (token body : Bytes)
    (got : get config pbh token ≡ ok (later, ok body)) (small : length body < 2 ^ 31) where
  read_piece-slice :
      (s e : ℕ)
      → s < length body
      → e ≤ length body
      → s ≤ e
      → read_piece config pbh token (pos s) (pos e) ≡ ok (later, ok (take (e - s) (drop s body)))
  unfolding read_piece slice_bytes
  read_piece-slice s e lo hi le =
      rw (got, to_int32_small (length body) small)
        (rw
          (
            not_le (s + 0) (length body + 0) (omega arith),
            not_lt (e + 0) (length body + 0) (omega arith),
            le→leb s e le,
            le→leb e (length body) hi,
          )
          refl)

  read_piece-out_of_range :
      (s e : ℕ)
      → length body ≤ s
      → read_piece config pbh token (pos s) (pos e) ≡ ok (later, err out_of_range)
  unfolding read_piece
  read_piece-out_of_range s e h =
      rw (got, to_int32_small (length body) small)
        (rw (le→leb (length body + 0) (s + 0) (omega arith)) refl)

  module _ (a b o n : ℕ) (rest : List RangeCode) (len : length body ≡ b - a) (lo : a ≤ o)
      (hi : o + n ≤ b) (below : b < 2 ^ 31) where
    -- `ReadFromCache` of some bytes inside the range of its first segment, whose blob has the length of
    -- the range and ends below 2 ^ 31: it returns the bytes of the blob from that offset on, as many as
    -- are asked for.
    pub read_from_cache-slice :
        0 < n
        → read_from_cache config pbh
            (pos o)
            (pos n)
            (record { start = pos a; end = pos b; token = token } ∷ rest)
          ≡ ok (later, ok (take n (drop (o - a) body)))
    unfolding read_from_cache make_bytes
    read_from_cache-slice some_bytes =
        let from : max_ℤ (pos a) (pos o) ≡ pos o = max_pos a o lo in
        let sum : add32 (pos o) (pos n) ≡ pos (o + n) = add32_pos o n (omega arith) in
        let to : min_ℤ (pos b) (pos (o + n)) ≡ pos (o + n) = min_pos b (o + n) hi in
        let s : sub32 (pos o) (pos a) ≡ pos (o - a) = sub32_pos o a lo (omega arith) in
        let e : sub32 (pos (o + n)) (pos a) ≡ pos (o + n - a) =
          sub32_pos (o + n) a (omega arith) (omega arith) in
        let dst : sub32 (pos o) (pos o) ≡ pos 0 =
          sub32_pos o o (omega arith) (omega arith) ∙ ap pos (omega arith) in
        let dst_end : sub32 (pos (o + n)) (pos o) ≡ pos n =
          sub32_pos (o + n) o (omega arith) (omega arith) ∙ ap pos (omega arith) in
        let width : o + n - a - (o - a) ≡ n = omega arith in
        let part : read_piece config pbh token (pos (o - a)) (pos (o + n - a))
            ≡ ok (later, ok (take n (drop (o - a) body))) =
          read_piece-slice (o - a) (o + n - a) (omega arith) (omega arith) (omega arith)
          ∙ rw width refl in
        let whole : copy_into (replicate n 0) (pos 0) (pos n) (take n (drop (o - a) body))
            ≡ ok (take n (drop (o - a) body)) =
          copy_into_whole n (replicate n 0) (take n (drop (o - a) body)) (length-replicate n 0)
            (omega (arith, length-take n (drop (o - a) body), length-drop (o - a) body)) in
        rw (from, sum, to, s, e, part, from, sum, to, dst, dst_end, whole) refl

    -- `ReadFromCache` of no bytes at the end of its first segment, as of the whole of an empty file,
    -- is an error although the range and the blob agree.
    pub read_from_cache-empty :
        n ≡ 0
        → o ≡ b
        → read_from_cache config pbh
            (pos o)
            (pos n)
            (record { start = pos a; end = pos b; token = token } ∷ rest)
          ≡ ok (later, err out_of_range)
    unfolding read_from_cache make_bytes
    read_from_cache-empty zero_bytes at_end =
        let from : max_ℤ (pos a) (pos o) ≡ pos o = max_pos a o lo in
        let sum : add32 (pos o) (pos n) ≡ pos (o + n) = add32_pos o n (omega arith) in
        let to : min_ℤ (pos b) (pos (o + n)) ≡ pos (o + n) = min_pos b (o + n) hi in
        let s : sub32 (pos o) (pos a) ≡ pos (o - a) = sub32_pos o a lo (omega arith) in
        let e : sub32 (pos (o + n)) (pos a) ≡ pos (o + n - a) =
          sub32_pos (o + n) a (omega arith) (omega arith) in
        rw (from, sum, to, s, e, read_piece-out_of_range (o - a) (o + n - a) (omega arith)) refl

module _ (config : Config) (json : SegJson) (segs : List SegRow) (fid owner : Bytes)
    (pbh pbh1 pbh2 : PhyBh) (token1 token2 body1 body2 : Bytes) (a b c n : ℕ)
    (listed : list_blob_segs_by_fid_from_db json true segs fid
      ≡ ok (
          record {
            rng_code = record { start = pos a; end = pos b; token = token1 };
            owner_id = owner;
          }
          ∷ record {
            rng_code = record { start = pos b; end = pos c; token = token2 };
            owner_id = owner;
          }
          ∷ []))
    (got1 : get config pbh token1 ≡ ok (pbh1, ok body1)) (len1 : length body1 ≡ b - a)
    (got2 : get config pbh1 token2 ≡ ok (pbh2, ok body2)) (len2 : length body2 ≡ c - b)
    (first : a < b) (some_bytes : 0 < n) (inside : b + n ≤ c) (below : c < 2 ^ 31) where
  two_pieces :
      pieces
        (record {
          rng_code = record { start = pos a; end = pos b; token = token1 };
          owner_id = owner;
        }
          ∷ record {
            rng_code = record { start = pos b; end = pos c; token = token2 };
            owner_id = owner;
          }
          ∷ [])
        (pos b)
        (pos n)
      ≡ record { token = token1; start = pos (b - a); end = pos (b - a); lo = pos 0; hi = pos 0 }
        ∷ record { token = token2; start = pos 0; end = pos n; lo = pos 0; hi = pos n }
        ∷ []
  unfolding pieces
  two_pieces =
      let sum : add32 (pos b) (pos n) ≡ pos (b + n) = add32_pos b n (omega arith) in
      let skip1 : ltb_ℤ (pos b) (pos b) ≡ false = not_lt (b + 0) (b + 0) (omega arith) in
      let stop1 : leb_ℤ (pos (b + n)) (pos a) ≡ false = not_le (a + 0) (b + n + 0) (omega arith) in
      let skip2 : ltb_ℤ (pos c) (pos b) ≡ false = not_lt (b + 0) (c + 0) (omega arith) in
      let stop2 : leb_ℤ (pos (b + n)) (pos b) ≡ false = not_le (b + 0) (b + n + 0) (omega arith) in
      let from1 : max_ℤ (pos a) (pos b) ≡ pos b = max_pos a b (omega arith) in
      let from2 : max_ℤ (pos b) (pos b) ≡ pos b = max_pos b b (omega arith) in
      let to1 : min_ℤ (pos b) (pos (b + n)) ≡ pos b = min_first b (b + n) (omega arith) in
      let to2 : min_ℤ (pos c) (pos (b + n)) ≡ pos (b + n) = min_pos c (b + n) inside in
      let w1 : sub32 (pos b) (pos a) ≡ pos (b - a) = sub32_pos b a (omega arith) (omega arith) in
      let z : sub32 (pos b) (pos b) ≡ pos 0 =
        sub32_pos b b (omega arith) (omega arith) ∙ ap pos (omega arith) in
      let w2 : sub32 (pos (b + n)) (pos b) ≡ pos n =
        sub32_pos (b + n) b (omega arith) (omega arith) ∙ ap pos (omega arith) in
      rw (sum, skip1, stop1, skip2, stop2, from1, from2, to1, to2, w1, z, w2) refl

  -- `ReadAt` of a file of two adjacent segments, whose blobs are there with the lengths of their
  -- ranges, from the offset where the second one begins: although all bytes that are asked for lie in
  -- the second segment, the result is an error, since the first one is not passed over.
  pub read_at-boundary :
      read_at config json true segs pbh fid (pos b) (pos n) ≡ ok (pbh2, err out_of_range)
  unfolding read_at make_bytes run_pieces
  read_at-boundary =
      let p1 : read_piece config pbh token1 (pos (b - a)) (pos (b - a))
          ≡ ok (pbh1, err out_of_range) =
        read_piece-out_of_range config pbh pbh1 token1 body1 got1 (omega arith) (b - a) (b - a)
          (omega arith) in
      let p2 : read_piece config pbh1 token2 (pos 0) (pos n)
          ≡ ok (pbh2, ok (take (n - 0) (drop 0 body2))) =
        read_piece-slice config pbh1 pbh2 token2 body2 got2 (omega arith) 0 n (omega arith)
          (omega arith) (omega arith) in
      let whole : copy_into (replicate n 0) (pos 0) (pos n) (take (n - 0) body2)
          ≡ ok (take (n - 0) body2) =
        copy_into_whole n (replicate n 0) (take (n - 0) body2) (length-replicate n 0)
          (omega (arith, length-take (n - 0) body2)) in
      rw (listed, two_pieces, p1, p2, whole) refl
