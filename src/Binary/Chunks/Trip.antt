-- ===== src/Binary/Chunks/Trip.antt =====
-- Decode4K of what Encode4K wrote.
use riverpass.Prelude.{
  ℕ, zero, suc, ◌+◌, ◌-◌, ◌/◌, ◌^◌, ◌≤◌, ◌<◌, ◌≡◌, refl, sym, ap, ◌∙◌, inl, inr, true, false,
  Bool-cases, List, [], ◌∷◌, ◌++◌, arith, ltb, ltb→lt, leb, le→leb, ◌==◌, length, take, drop,
  length-append, length-take, length-drop, All, take_all, append-nil, append_assoc,
  take-append_length, drop-append_length, take-append-drop, take-append_right, leb→le,
}
use riverpass.Prelude.Int.{ℤ, pos}
use riverpass.Prelude.Text.{Bytes, slice}
use riverpass.Prelude.Result.{ok}
use riverpass.Binary.Words.{
  le_bytes, le_value, to_int64, copy_new, length-copy_new, length-le_bytes, copy_new_exact,
  copy_new_fits, le_value-le_bytes, to_int64_small,
}
use riverpass.Binary.Files.{slice-mid}
use riverpass.Binary.Codec.{content_size}
use riverpass.Binary.Chunks.{
  Chunk, make_chunk, chunk_bytes, write_chunks, read_chunk, decode_loop, join_content,
  fake_checksum,
}
use riverpass.Binary.Chunks.Loop.{chunks_of}

-- A chunk with its arrays at their sizes.
pub record IsChunk (c : Chunk) : Type 0 where
  count : ℕ
  size : c.size ≡ pos count
  bound : count < 2 ^ 63
  name : length c.blob_id ≡ 128
  sum : length c.checksum ≡ 32
  body : length c.content ≡ 3928

pub length-chunk_bytes : (c : Chunk) → IsChunk c → length (chunk_bytes c) ≡ 4096
unfolding chunk_bytes
length-chunk_bytes c w = rw w.size (
    omega (
      arith,
      length-append c.blob_id (le_bytes 8 w.count ++ (c.checksum ++ c.content)),
      length-append (le_bytes 8 w.count) (c.checksum ++ c.content),
      length-append c.checksum c.content,
      length-le_bytes 8 w.count,
      w.name,
      w.sum,
      w.body,
    ))

-- Four fields in a row, cut at the sizes of the chunk's arrays.
module _ (a b c d : Bytes) (at_a : length a ≡ 128) (at_b : length b ≡ 8) (at_c : length c ≡ 32)
    (at_d : length d ≡ 3928) where
  cut-size : slice (a ++ (b ++ (c ++ d))) 128 136 ≡ b
  cut-size = slice-mid a b (c ++ d) 128 136 (omega arith) (omega arith)

  cut-sum : slice (a ++ (b ++ (c ++ d))) 136 168 ≡ c
  cut-sum =
      ap (λ (t : Bytes). slice t 136 168) (sym (append_assoc a b (c ++ d)))
      ∙ slice-mid (a ++ b) c d 136 168 (omega (arith, length-append a b)) (omega arith)

  cut-content : slice (a ++ (b ++ (c ++ d))) 168 4096 ≡ d
  cut-content =
      ap (λ (t : Bytes). slice t 168 4096)
        (sym (append_assoc a b (c ++ d))
          ∙ sym (append_assoc (a ++ b) c d)
          ∙ ap (λ (t : Bytes). ((a ++ b) ++ c) ++ t) (sym (append-nil d)))
      ∙ slice-mid ((a ++ b) ++ c) d [] 168 4096
          (omega (arith, length-append a b, length-append (a ++ b) c)) (omega arith)

module _ (a c d : Bytes) (n : ℕ) (at_a : length a ≡ 128) (at_c : length c ≡ 32)
    (at_d : length d ≡ 3928) (bound : n < 2 ^ 63) where
  abbrev written : Bytes
  written = a ++ (le_bytes 8 n ++ (c ++ d))

  size-read : to_int64 (le_value (slice written 128 136)) ≡ pos n
  size-read = rw (
    cut-size a (le_bytes 8 n) c d at_a (length-le_bytes 8 n) at_c at_d,
    le_value-le_bytes 8 n (omega arith),
    to_int64_small n bound,
  )

  read_chunk-written :
      read_chunk written ≡ record { blob_id = a; size = pos n; checksum = c; content = d }
  unfolding read_chunk
  read_chunk-written = λ i. record {
    blob_id = take-append_length a (le_bytes 8 n ++ (c ++ d)) 128 (sym at_a) i;
    size = size-read i;
    checksum = cut-sum a (le_bytes 8 n) c d at_a (length-le_bytes 8 n) at_c at_d i;
    content = cut-content a (le_bytes 8 n) c d at_a (length-le_bytes 8 n) at_c at_d i;
  }

read_chunk-chunk_bytes : (c : Chunk) → IsChunk c → read_chunk (chunk_bytes c) ≡ c
unfolding chunk_bytes
read_chunk-chunk_bytes c w =
    ap (λ (z : ℤ). read_chunk (chunk_bytes (record c { size = z }))) w.size
    ∙ read_chunk-written c.blob_id c.checksum c.content w.count w.name w.sum w.body w.bound
    ∙ (λ i. record c { size = sym w.size i })

pub decode_loop-write_chunks :
    (fuel : ℕ) (cs : List Chunk)
    → All IsChunk cs
    → length cs ≤ fuel
    → decode_loop fuel (write_chunks cs) ≡ ok cs
unfolding decode_loop write_chunks
decode_loop-write_chunks zero [] w h = refl
decode_loop-write_chunks zero (c ∷ cs) w h = absurd (omega arith)
decode_loop-write_chunks (suc fuel) [] w h = refl
decode_loop-write_chunks (suc fuel) (c ∷ cs) w h =
    let n : length (chunk_bytes c) ≡ 4096 = length-chunk_bytes c w.0 in
    let m : length (chunk_bytes c ++ write_chunks cs) ≡ 4096 + length (write_chunks cs) =
      omega (arith, n, length-append (chunk_bytes c) (write_chunks cs)) in
    let some_left : (length (chunk_bytes c ++ write_chunks cs) == 0) ≡ false = ground arith in
    let enough : leb 4096 (length (chunk_bytes c ++ write_chunks cs)) ≡ true =
      le→leb _ _ (omega arith) in
    rw (
      some_left,
      enough,
      drop-append_length (chunk_bytes c) (write_chunks cs) 4096 (sym n),
      take-append_length (chunk_bytes c) (write_chunks cs) 4096 (sym n),
      decode_loop-write_chunks fuel cs w.1 (omega arith),
      read_chunk-chunk_bytes c w.0,
    )

abbrev IsNamed : Bytes → List Chunk → Type 0
IsNamed name [] = Unit {0}
IsNamed name (c ∷ cs) = c.blob_id ≡ name

-- The last piece is followed by zeros; an earlier one fills its array.
piece-last :
    (rest tail : Bytes)
    → length rest ≤ content_size
    → take (length rest) (copy_new content_size (take content_size rest) ++ tail) ≡ rest
piece-last rest tail h =
    rw (take_all content_size rest h, copy_new_fits content_size rest h, append_assoc)
      (take-append_length rest _ (length rest) refl)

piece-long :
    (rest tail : Bytes)
    → content_size < length rest
    → take (length rest - content_size) tail ≡ drop content_size rest
    → take (length rest) (copy_new content_size (take content_size rest) ++ tail) ≡ rest
piece-long rest tail h ih =
    let n : length (take content_size rest) ≡ content_size =
      omega (arith, length-take content_size rest) in
    rw
      (
        copy_new_exact content_size (take content_size rest) (sym n),
        take-append_right (length rest) (take content_size rest) tail (omega arith),
        n,
        ih,
      )
      (take-append-drop content_size rest)

module _ (blob_id : Bytes) where
  make_chunk-IsChunk : (n : ℕ) (piece : Bytes) → n < 2 ^ 63 → IsChunk (make_chunk blob_id n piece)
  unfolding make_chunk
  make_chunk-IsChunk n piece h = record {
    count = n;
    size = refl;
    bound = h;
    name = length-copy_new 128 blob_id;
    sum = length-copy_new 32 fake_checksum;
    body = length-copy_new 3928 piece;
  }

  pub chunks_of-IsChunk :
      (fuel : ℕ) (rest : Bytes) → length rest < 2 ^ 63 → All IsChunk (chunks_of fuel blob_id rest)
  unfolding chunks_of
  chunks_of-IsChunk zero rest h = tt
  chunks_of-IsChunk (suc fuel) rest h = elim (Bool-cases (ltb 0 (length rest))) [
    | inr done ↦ rw done tt
    | inl more ↦ rw more (
      make_chunk-IsChunk (length rest) (take content_size rest) h,
      chunks_of-IsChunk fuel (drop content_size rest)
          (omega (arith, length-drop content_size rest)),
    )
  ]

  -- The contents of the chunks begin with the data, and zeros follow.
  pub take-join_content :
      (fuel : ℕ) (rest : Bytes)
      → length rest ≤ fuel
      → take (length rest) (join_content (chunks_of fuel blob_id rest)) ≡ rest
  unfolding chunks_of join_content make_chunk
  take-join_content zero [] h = refl
  take-join_content zero (x ∷ rest) h = absurd (omega arith)
  take-join_content (suc fuel) [] h = refl
  take-join_content (suc fuel) (x ∷ xs) h =
      let rest : Bytes = x ∷ xs in
      let tail : Bytes = join_content (chunks_of fuel blob_id (drop content_size rest)) in
      let more : ltb 0 (length rest) ≡ true = ground arith in
      elim (Bool-cases (leb (length rest) content_size)) [
        | inl last ↦ rw more (piece-last rest tail (leb→le _ _ last))
        | inr long ↦
            let over : content_size < length rest = ground arith in
            rw more (
              piece-long rest tail over (
                ap (λ (n : ℕ). take n tail) (sym (length-drop content_size rest))
                ∙ take-join_content fuel (drop content_size rest)
                    (omega (arith, length-drop content_size rest))))
      ]

  pub length-chunks_of :
      (fuel : ℕ) (rest : Bytes)
      → length rest ≤ fuel
      → length (chunks_of fuel blob_id rest) ≡ (length rest + content_size - 1) / content_size
  unfolding chunks_of
  length-chunks_of zero rest h = omega arith
  length-chunks_of (suc fuel) rest h = elim (Bool-cases (ltb 0 (length rest))) [
    | inr done ↦ rw done (ground arith)
    | inl more ↦ rw more (
        omega (
          arith,
          ltb→lt _ _ more,
          length-drop content_size rest,
          length-chunks_of fuel (drop content_size rest)
              (omega (arith, ltb→lt _ _ more, length-drop content_size rest)),
        ))
  ]

  pub chunks_of-cons :
      (body : Bytes)
      → 0 < length body
      → (cs : List Chunk) × (chunks_of (length body) blob_id body
          ≡ make_chunk blob_id (length body) (take content_size body) ∷ cs)
  unfolding chunks_of
  chunks_of-cons [] h = absurd (omega arith)
  chunks_of-cons (x ∷ xs) h =
      (chunks_of (length xs) blob_id (drop content_size (x ∷ xs)), ground arith)
