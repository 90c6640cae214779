-- ===== src/Binary/Chunks.antt =====
-- The 4K layout of blob_binary.go: Chunk, Encode4K and Decode4K.
pub mod Loop
pub mod Trip
pub mod Whole
use riverpass.Prelude.{
  ℕ, zero, suc, ◌+◌, ◌-◌, ◌*◌, ◌^◌, ◌<◌, ◌≡◌, Bool, List, [], ◌∷◌, ◌++◌, ltb, leb, ◌==◌,
  if◌then◌else◌, length, take, drop,
}
use riverpass.Prelude.Int.{ℤ, pos, negsuc}
use riverpass.Prelude.Text.{Bytes, codes, slice}
use riverpass.Prelude.Result.{Result, ok, crash, require, ◌>>=◌, ◌>>◌}
use riverpass.Binary.Words.{le_bytes, le_value, to_int64, copy_new}
use riverpass.Binary.Codec.{blobid_size, checksum_size, content_size, make_size}

pub record Chunk : Type 0 where
  pub blob_id : Bytes
  pub size : ℤ
  pub checksum : Bytes
  pub content : Bytes

abbrev pub fake_checksum : Bytes
fake_checksum = codes "12345678123456781234567812345678"

-- The header of a chunk being written: `size` is what is left to write, this chunk included.
unfoldable pub make_chunk : Bytes → ℕ → Bytes → Chunk
make_chunk blob_id size piece = record {
  blob_id = copy_new blobid_size blob_id;
  size = pos size;
  checksum = copy_new checksum_size fake_checksum;
  content = copy_new content_size piece;
}

-- `for size > 0`, on the data from `start`. Each round takes `content_size` off `size`, so the
-- length of the data is enough fuel.
unfoldable pub encode_loop : ℕ → Bytes → Bytes → ℕ → ℕ → List Chunk
encode_loop zero blob_id body start size = []
encode_loop (suc fuel) blob_id body start size =
    let piece : Bytes =
      if ltb (length body) (start + content_size)
      then drop start body
      else slice body start (start + content_size) in
    let rest = encode_loop fuel blob_id body (start + content_size) (size - content_size) in
    if ltb 0 size then make_chunk blob_id size piece ∷ rest else []

-- `binary.Write` of a chunk whose size is not negative.
size_bits : ℤ → ℕ
size_bits (pos n) = n
size_bits (negsuc n) = 2 ^ 64 - 1 - n

unfoldable pub chunk_bytes : Chunk → Bytes
unfolding size_bits
chunk_bytes c = c.blob_id ++ (le_bytes 8 (size_bits c.size) ++ (c.checksum ++ c.content))

unfoldable pub write_chunks : List Chunk → Bytes
unfolding chunk_bytes
write_chunks [] = []
write_chunks (c ∷ cs) = chunk_bytes c ++ write_chunks cs

unfoldable pub encode4k : Bytes → Bytes → Bytes
unfolding encode_loop write_chunks
encode4k blob_id body = write_chunks (encode_loop (length body) blob_id body 0 (length body))

-- `binary.Read` of a chunk from 4096 bytes.
unfoldable pub read_chunk : Bytes → Chunk
read_chunk bytes = record {
  blob_id = take 128 bytes;
  size = to_int64 (le_value (slice bytes 128 136));
  checksum = slice bytes 136 168;
  content = slice bytes 168 4096;
}

-- `for i := 0; i < len(encoded); i += 4096`: a last piece that is too short is a panic. The number
-- of bytes is enough fuel.
unfoldable pub decode_loop : ℕ → Bytes → Result (List Chunk)
unfolding read_chunk
decode_loop zero bytes = ok []
decode_loop (suc fuel) bytes =
    let rest = decode_loop fuel (drop 4096 bytes) in
    if length bytes == 0
    then ok []
    else (do require (leb 4096 (length bytes)); cs ← rest; ok (read_chunk (take 4096 bytes) ∷ cs))

unfoldable pub join_content : List Chunk → Bytes
join_content [] = []
join_content (c ∷ cs) = c.content ++ join_content cs

-- `chunks[0]` of no chunks is a panic, and so is a size beyond the content. Go tests the slice against
-- the capacity, which append may have made larger than the content; a size between the two, which no
-- encoded blob has, would give zeros after the content.
unfoldable pub assemble : List Chunk → Result (Bytes × Bytes)
unfolding join_content
assemble [] = crash
assemble (c ∷ cs) = do
  n ← make_size c.size
  require (leb n (length (join_content (c ∷ cs))))
  ok (take 8 c.blob_id, take n (join_content (c ∷ cs)))

unfoldable pub decode4k : Bytes → Result (Bytes × Bytes)
unfolding decode_loop assemble
decode4k encoded = do chunks ← decode_loop (length encoded) encoded; assemble chunks
