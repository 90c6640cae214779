-- ===== src/Binary/Store/Plain.antt =====
-- Reads of the plain layout.
use riverpass.Prelude.{
  ◌+◌, ◌^◌, ◌<◌, ◌≡◌, refl, sym, ap, ◌∙◌, true, leb, le→leb, some, [], ◌++◌, append_assoc,
  append-nil, arith, length, length-append,
}
use riverpass.Prelude.Text.{Bytes, slice, str_eq_self}
use riverpass.Prelude.Result.{ok}
use riverpass.Binary.Words.{le_bytes, copy_new, length-copy_new, copy_new_exact}
use riverpass.Binary.Files.{read_at, read_at-mid, slice-mid}
use riverpass.Binary.Codec.{
  encode, decode, length-encode, decode_name-copy_new, decode_size-le_bytes,
}
use riverpass.Binary.Store.{BinHeader, read_blob}

module _ (blob_id body : Bytes) where
  abbrev name : Bytes
  name = copy_new 128 blob_id

  abbrev size : Bytes
  size = copy_new 8 (le_bytes 8 (length body))

  -- The encoding in front of the rest of a file, cut where the reader cuts it.
  encode-parts : (q : Bytes) → encode blob_id body ++ q ≡ (name ++ size) ++ (body ++ q)
  unfolding encode
  encode-parts q = simp (append_assoc, copy_new_exact (length body) body refl)

  length-header : 136 ≡ length (name ++ size)
  length-header = omega (
    arith,
    length-append name size,
    length-copy_new 128 blob_id,
    length-copy_new 8 (le_bytes 8 (length body)),
  )

  header-name : slice (name ++ size) 0 128 ≡ name
  header-name = slice-mid [] name size 0 128 refl (omega (arith, length-copy_new 128 blob_id))

  header-size : slice (name ++ size) 128 136 ≡ size
  header-size =
      ap (λ (t : Bytes). slice (name ++ t) 128 136) (sym (append-nil size))
      ∙ slice-mid name size [] 128 136 (omega (arith, length-copy_new 128 blob_id))
          (omega (arith, length-copy_new 8 (le_bytes 8 (length body))))

  read-header :
      (p q : Bytes) → read_at (p ++ (encode blob_id body ++ q)) (length p) 136 ≡ ok (name ++ size)
  read-header p q =
      rw (encode-parts q)
        (read_at-mid p (name ++ size) (body ++ q) (length p) 136 refl length-header)

  read-body :
      (p q : Bytes)
      → read_at (p ++ (encode blob_id body ++ q)) (length p + 136) (length body) ≡ ok body
  read-body p q =
      rw (encode-parts q, ← append_assoc p (name ++ size) (body ++ q))
        (read_at-mid (p ++ (name ++ size)) body q (length p + 136) (length body)
          (omega (arith, length-append p (name ++ size), length-header)) refl)

  -- Wherever the encoding of a blob stands in the file, a read at its offset gives the body.
  pub read_blob-encode :
      (bh : BinHeader) (p q : Bytes)
      → length blob_id ≡ 8
      → length body < 2 ^ 63
      → bh.file ≡ some (p ++ (encode blob_id body ++ q))
      → read_blob bh blob_id (length p) ≡ ok body
  unfolding read_blob
  read_blob-encode bh p q named fits e = rw (
    e,
    read-header p q,
    header-name,
    decode_name-copy_new blob_id named,
    str_eq_self blob_id,
    header-size,
    decode_size-le_bytes (length body) fits,
    read-body p q,
  )

  whole : encode blob_id body ≡ name ++ (size ++ body)
  unfolding encode
  whole = ap (λ (t : Bytes). name ++ (size ++ t)) (copy_new_exact (length body) body refl)

  -- For an id of eight bytes and a body whose length is an int64, Decode gives both back.
  pub decode-encode :
      length blob_id ≡ 8 → length body < 2 ^ 63 → decode (encode blob_id body) ≡ ok (blob_id, body)
  unfolding decode
  decode-encode named fits =
      let n : length (name ++ (size ++ body)) ≡ 136 + length body =
        omega (arith, ap length (sym whole), length-encode blob_id body) in
      let first : leb 128 (length (name ++ (size ++ body))) ≡ true = le→leb _ _ (omega arith) in
      let second : leb 136 (length (name ++ (size ++ body))) ≡ true = le→leb _ _ (omega arith) in
      let third : leb (136 + length body) (length (name ++ (size ++ body))) ≡ true =
        le→leb _ _ (omega arith) in
      let at_name : slice (name ++ (size ++ body)) 0 128 ≡ name =
        slice-mid [] name (size ++ body) 0 128 refl (omega (arith, length-copy_new 128 blob_id)) in
      let at_size : slice (name ++ (size ++ body)) 128 136 ≡ size =
        slice-mid name size body 128 136 (omega (arith, length-copy_new 128 blob_id))
          (omega (arith, length-copy_new 8 (le_bytes 8 (length body)))) in
      let at_body : slice (name ++ (size ++ body)) 136 (136 + length body) ≡ body =
        ap (λ (t : Bytes). slice t 136 (136 + length body))
          (sym (append_assoc name size body)
            ∙ ap (λ (t : Bytes). (name ++ size) ++ t) (sym (append-nil body)))
        ∙ slice-mid (name ++ size) body [] 136 (136 + length body) length-header refl in
      rw (
        whole,
        first,
        at_name,
        decode_name-copy_new blob_id named,
        second,
        at_size,
        decode_size-le_bytes (length body) fits,
        third,
        at_body,
        copy_new_exact (length body) body refl,
      )
