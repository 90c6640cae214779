-- ===== src/Binary/Chunks/Whole.antt =====
-- The whole 4K encoding: its length, what decoding gives, and where it lies in a file.
use riverpass.Prelude.{
  ℕ, ◌*◌, ◌^◌, ◌≤◌, ◌<◌, ◌≡◌, refl, ap, true, List, [], ◌∷◌, arith, leb, le→leb, length, take,
  length-append, length-take, All,
}
use riverpass.Prelude.Int.{pos}
use riverpass.Prelude.Text.{Bytes}
use riverpass.Prelude.Result.{ok}
use riverpass.Binary.Words.{take-copy_new}
use riverpass.Binary.Codec.{content_size, get_payload_size}
use riverpass.Binary.Chunks.{
  Chunk, make_chunk, chunk_bytes, write_chunks, encode4k, join_content, assemble, decode4k,
}
use riverpass.Binary.Chunks.Loop.{chunks_of, encode4k-chunks_of}
use riverpass.Binary.Chunks.Trip.{
  IsChunk, length-chunk_bytes, decode_loop-write_chunks, chunks_of-IsChunk, take-join_content,
  length-chunks_of, chunks_of-cons,
}

length-write_chunks :
    (cs : List Chunk) → All IsChunk cs → length (write_chunks cs) ≡ 4096 * length cs
unfolding write_chunks
length-write_chunks [] w = refl
length-write_chunks (c ∷ cs) w = omega (
  arith,
  length-append (chunk_bytes c) (write_chunks cs),
  length-chunk_bytes c w.0,
  length-write_chunks cs w.1,
)

assemble-cons :
    (c : Chunk) (cs : List Chunk) (n : ℕ) (blob_id body : Bytes)
    → c.size ≡ pos n
    → take 8 c.blob_id ≡ blob_id
    → n ≤ length (join_content (c ∷ cs))
    → take n (join_content (c ∷ cs)) ≡ body
    → assemble (c ∷ cs) ≡ ok (blob_id, body)
unfolding assemble
assemble-cons c cs n blob_id body sized named enough joined =
    let fits : leb n (length (join_content (c ∷ cs))) ≡ true = le→leb _ _ enough in
    rw (sized, fits, named, joined)

module _ (blob_id body : Bytes) where
  abbrev chunks : List Chunk
  chunks = chunks_of (length body) blob_id body

  -- The 4K encoding of a body shorter than 2 ^ 63 has the size that the handler reserves for it.
  pub length-encode4k :
      length body < 2 ^ 63 → length (encode4k blob_id body) ≡ get_payload_size true (length body)
  unfolding get_payload_size
  length-encode4k fits =
      rw
        (
          encode4k-chunks_of blob_id body,
          length-write_chunks chunks (chunks_of-IsChunk blob_id (length body) body fits),
        )
        (omega (arith, length-chunks_of blob_id (length body) body (omega arith)))

  assemble-chunks : length blob_id ≡ 8 → 0 < length body → assemble chunks ≡ ok (blob_id, body)
  unfolding make_chunk
  assemble-chunks named more =
      let (cs, e) = chunks_of-cons blob_id body more in
      let joined : take (length body) (join_content chunks) ≡ body =
        take-join_content blob_id (length body) body (omega arith) in
      let enough : length body ≤ length (join_content chunks) =
        omega (arith, ap length joined, length-take (length body) (join_content chunks)) in
      rw e (
        assemble-cons (make_chunk blob_id (length body) (take content_size body)) cs (length body)
          blob_id body refl (take-copy_new 128 8 blob_id (omega arith) (omega arith))
          (rw e at enough) (rw e at joined))

  -- For an id of eight bytes and a body that is not empty and shorter than 2 ^ 63, Decode4K of the
  -- 4K encoding gives both back.
  pub decode4k-encode4k :
      length blob_id ≡ 8
      → 0 < length body
      → length body < 2 ^ 63
      → decode4k (encode4k blob_id body) ≡ ok (blob_id, body)
  unfolding decode4k
  decode4k-encode4k named more fits =
      let w : All IsChunk chunks = chunks_of-IsChunk blob_id (length body) body fits in
      rw
        (
          encode4k-chunks_of blob_id body,
          decode_loop-write_chunks (length (write_chunks chunks)) chunks w
              (omega (arith, length-write_chunks chunks w)),
        )
        (assemble-chunks named more)
