-- ===== src/Binary/Store/Chunked.antt =====
-- Reads of the 4K layout.
use riverpass.Prelude.{
  ◌+◌, ◌-◌, ◌*◌, ◌/◌, ◌^◌, ◌<◌, ◌≡◌, refl, sym, ap, ◌∙◌, some, [], ◌++◌, append_assoc, arith,
  length, length-append, take,
}
use riverpass.Prelude.Text.{Bytes, slice, str_eq_self}
use riverpass.Prelude.Result.{ok}
use riverpass.Binary.Words.{le_bytes, copy_new, length-le_bytes, length-copy_new, copy_new_exact}
use riverpass.Binary.Files.{read_at, read_at-mid, slice-mid}
use riverpass.Binary.Codec.{
  content_size, get_payload_size, decode_name-copy_new, decode_size-le_bytes,
}
use riverpass.Binary.Chunks.{make_chunk, write_chunks, encode4k, fake_checksum}
use riverpass.Binary.Chunks.Loop.{encode4k-chunks_of}
use riverpass.Binary.Chunks.Trip.{chunks_of-cons}
use riverpass.Binary.Chunks.Whole.{length-encode4k, decode4k-encode4k}
use riverpass.Binary.Store.{BinHeader, read_blob4k}

module _ (blob_id body : Bytes) (more : 0 < length body) where
  -- The header of the first chunk, in front of its content and the other chunks.
  record Front : Type 0 where
    size : Bytes
    tail : Bytes
    sized : size ≡ le_bytes 8 (length body)
    same :
        encode4k blob_id body
        ≡ copy_new 128 blob_id ++ (size ++ (copy_new 32 fake_checksum ++ tail))

  front : Front
  unfolding write_chunks make_chunk
  front =
      let (cs, e) = chunks_of-cons blob_id body more in
      record {
        size = le_bytes 8 (length body);
        tail = copy_new content_size (take content_size body) ++ write_chunks cs;
        sized = refl;
        same = encode4k-chunks_of blob_id body ∙ ap write_chunks e ∙ simp append_assoc;
      }

  abbrev header : Bytes
  header = copy_new 128 blob_id ++ (front.size ++ copy_new 32 fake_checksum)

  length-header : 168 ≡ length header
  length-header = omega (
    arith,
    length-append (copy_new 128 blob_id) (front.size ++ copy_new 32 fake_checksum),
    length-append front.size (copy_new 32 fake_checksum),
    length-copy_new 128 blob_id,
    length-copy_new 32 fake_checksum,
    ap length front.sized,
    length-le_bytes 8 (length body),
  )

  header-name : slice header 0 128 ≡ copy_new 128 blob_id
  header-name =
      slice-mid [] (copy_new 128 blob_id) (front.size ++ copy_new 32 fake_checksum) 0 128 refl
        (omega (arith, length-copy_new 128 blob_id))

  header-size : slice header 128 136 ≡ copy_new 8 (le_bytes 8 (length body))
  header-size =
      slice-mid (copy_new 128 blob_id) front.size (copy_new 32 fake_checksum) 128 136
        (omega (arith, length-copy_new 128 blob_id))
        (omega (arith, ap length front.sized, length-le_bytes 8 (length body)))
      ∙ front.sized
      ∙ sym (copy_new_exact 8 (le_bytes 8 (length body)) (sym (length-le_bytes 8 (length body))))

  read-header :
      (p q : Bytes) → read_at (p ++ (encode4k blob_id body ++ q)) (length p) 168 ≡ ok header
  read-header p q =
      ap (λ (t : Bytes). read_at (p ++ t) (length p) 168)
        (ap (λ (t : Bytes). t ++ q) front.same ∙ simp append_assoc)
      ∙ read_at-mid p header (front.tail ++ q) (length p) 168 refl length-header

  read-chunks :
      (p q : Bytes)
      → length body < 2 ^ 63
      → read_at
          (p ++ (encode4k blob_id body ++ q))
          (length p)
          ((length body + content_size - 1) / content_size * 4 * 1024)
        ≡ ok (encode4k blob_id body)
  unfolding get_payload_size
  read-chunks p q fits =
      read_at-mid p (encode4k blob_id body) q (length p) _ refl
        (omega (arith, length-encode4k blob_id body fits))

  -- Wherever the encoding of a blob stands in the file, a read at its offset gives the body.
  pub read_blob4k-encode4k :
      (bh : BinHeader) (p q : Bytes)
      → length blob_id ≡ 8
      → length body < 2 ^ 63
      → bh.file ≡ some (p ++ (encode4k blob_id body ++ q))
      → read_blob4k bh blob_id (length p) ≡ ok body
  unfolding read_blob4k
  read_blob4k-encode4k bh p q named fits e = rw (
    e,
    read-header p q,
    header-name,
    decode_name-copy_new blob_id named,
    str_eq_self blob_id,
    header-size,
    decode_size-le_bytes (length body) fits,
    read-chunks p q fits,
    decode4k-encode4k blob_id body named more fits,
    str_eq_self blob_id,
  )
