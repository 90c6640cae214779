-- ===== src/Binary/Store/Laws.antt =====
-- What BinHeader promises: what is put is read back, and stays readable.
use riverpass.Prelude.{
  ℕ, ◌+◌, ◌-◌, ◌*◌, ◌/◌, ◌^◌, ◌<◌, ◌≡◌, refl, sym, ap, ◌∙◌, inl, inr, Bool, true, false, Option,
  none, some, Option-cases, List, [], ◌++◌, append-nil, arith, leb, length, length-append,
}
use riverpass.Prelude.Text.{Bytes, slice, str_eq}
use riverpass.Prelude.Result.{ok, crash, require, >>=-eq-ok, ok_injective}
use riverpass.Binary.Files.{read_at, read_at-append}
use riverpass.Binary.Codec.{
  content_size, encode, decode_name, decode_size, make_size, get_payload_size, length-encode,
}
use riverpass.Binary.Chunks.{encode4k}
use riverpass.Binary.Chunks.Whole.{length-encode4k}
use riverpass.Binary.Store.{
  BinHeader, contents, encode_as, bin_put, bin_get, read_blob, read_blob4k,
}
use riverpass.Binary.Store.Plain.{read_blob-encode}
use riverpass.Binary.Store.Chunked.{read_blob4k-encode4k}

-- The offset that the header hands out next is the end of the file.
abbrev pub IsSynced : BinHeader → Type 0
IsSynced bh = bh.cur_off ≡ length (contents bh.file)

-- A blob that can be put: ids have eight characters, and the 4K layout has no empty blob.
abbrev pub IsBlob : Bool → Bytes → Bytes → Type 0
IsBlob align blob_id body =
    (length blob_id ≡ 8) × (length body < 2 ^ 63) × (align ≡ true → 0 < length body)

-- The header after a put.
abbrev pub appended : Bool → BinHeader → Bytes → Bytes → BinHeader
appended align bh blob_id body = record {
  file = some (contents bh.file ++ encode_as align blob_id body);
  cur_off = bh.cur_off + length (encode_as align blob_id body);
}

length-encode_as :
    (align : Bool) (blob_id body : Bytes)
    → length body < 2 ^ 63
    → length (encode_as align blob_id body) ≡ get_payload_size align (length body)
length-encode_as true blob_id body h = length-encode4k blob_id body h
length-encode_as false blob_id body h = unfold get_payload_size in length-encode blob_id body

-- A put appends the encoding, and returns the old offset and the reserved size.
pub bin_put_lem :
    (align : Bool) (bh : BinHeader) (blob_id body : Bytes)
    → length body < 2 ^ 63
    → bin_put align true bh blob_id body
      ≡ ok (appended align bh blob_id body, bh.cur_off, get_payload_size align (length body))
unfolding bin_put
bin_put_lem align bh blob_id body h = rw (length-encode_as align blob_id body h)

put-then-get :
    (align : Bool) (bh : BinHeader) (blob_id body : Bytes)
    → IsSynced bh
    → IsBlob align blob_id body
    → bin_get align (appended align bh blob_id body) blob_id bh.cur_off ≡ ok body
unfolding bin_get
put-then-get true bh blob_id body s (named, fits, more) =
    ap (read_blob4k (appended true bh blob_id body) blob_id) s
    ∙ read_blob4k-encode4k blob_id body (more refl) (appended true bh blob_id body)
        (contents bh.file) [] named fits
        (ap some (ap (◌++◌ (contents bh.file)) (sym (append-nil (encode4k blob_id body)))))
put-then-get false bh blob_id body s (named, fits, more) =
    ap (read_blob (appended false bh blob_id body) blob_id) s
    ∙ read_blob-encode blob_id body (appended false bh blob_id body) (contents bh.file) [] named
        fits (ap some (ap (◌++◌ (contents bh.file)) (sym (append-nil (encode blob_id body)))))

-- A successful read gives the same bytes after the file has grown.
module _ (xs ys : Bytes) (bh bh' : BinHeader) (e : bh.file ≡ some xs)
    (e' : bh'.file ≡ some (xs ++ ys)) (blob_id : Bytes) (off : ℕ) (out : Bytes) where
  read_blob-append : read_blob bh blob_id off ≡ ok out → read_blob bh' blob_id off ≡ ok out
  unfolding read_blob
  read_blob-append h =
      let h1 = rw e at h in
      let (head, a, r1) = >>=-eq-ok (read_at xs off 136) _ h1 in
      let (name, b, r2) = >>=-eq-ok (decode_name (slice head 0 128)) _ r1 in
      let (u, c, r3) = >>=-eq-ok (require (str_eq blob_id name)) _ r2 in
      let (size, d, r4) = >>=-eq-ok (decode_size (slice head 128 136)) _ r3 in
      let (n, f, r5) = >>=-eq-ok (make_size size) _ r4 in
      rw (e', read_at-append xs ys off 136 head a, b, c, d, f)
        (read_at-append xs ys (off + 136) n out r5)

  read_blob4k-append : read_blob4k bh blob_id off ≡ ok out → read_blob4k bh' blob_id off ≡ ok out
  unfolding read_blob4k
  read_blob4k-append h =
      let h1 = rw e at h in
      let (head, a, r1) = >>=-eq-ok (read_at xs off 168) _ h1 in
      let (name, b, r2) = >>=-eq-ok (decode_name (slice head 0 128)) _ r1 in
      let (u, c, r3) = >>=-eq-ok (require (str_eq blob_id name)) _ r2 in
      let (size, d, r4) = >>=-eq-ok (decode_size (slice head 128 136)) _ r3 in
      let (n, f, r5) = >>=-eq-ok (make_size size) _ r4 in
      let (total, g, r6) =
        >>=-eq-ok (read_at xs off ((n + content_size - 1) / content_size * 4 * 1024)) _ r5 in
      rw (e', read_at-append xs ys off 168 head a, b, c, d, f, read_at-append xs ys off _ total g)
        r6

  bin_get-append :
      (align : Bool)
      → bin_get align bh blob_id off ≡ ok out
      → bin_get align bh' blob_id off ≡ ok out
  unfolding bin_get
  bin_get-append true = read_blob4k-append
  bin_get-append false = read_blob-append

bin_get-missing :
    (align : Bool) (bh : BinHeader)
    → bh.file ≡ none
    → (blob_id : Bytes) (off : ℕ) → bin_get align bh blob_id off ≡ crash
unfolding bin_get read_blob read_blob4k
bin_get-missing true bh e blob_id off = rw e
bin_get-missing false bh e blob_id off = rw e

module _ (align : Bool) (bh : BinHeader) (blob_id body : Bytes) where
  -- From a header whose offset is the end of its file, a put, whose write succeeds, of a blob with an
  -- id of eight bytes and a body shorter than 2 ^ 63 (not empty, in the 4K layout) returns the old end
  -- and the payload size, leaves the offset at the new end, and a get at the returned offset gives the
  -- body.
  pub bin_put-bin_get :
      IsSynced bh
      → IsBlob align blob_id body
      → (bin_put align true bh blob_id body
          ≡ ok (appended align bh blob_id body, bh.cur_off, get_payload_size align (length body)))
        × IsSynced (appended align bh blob_id body)
        × (bin_get align (appended align bh blob_id body) blob_id bh.cur_off ≡ ok body)
  bin_put-bin_get s b = (
    bin_put_lem align bh blob_id body b.1,
    omega (arith, length-append (contents bh.file) (encode_as align blob_id body)),
    put-then-get align bh blob_id body s b,
  )

  appended-file :
      (bh' : BinHeader) (res : ℕ × ℕ)
      → bin_put align true bh blob_id body ≡ ok (bh', res.0, res.1)
      → (xs : Bytes) → bh.file ≡ some xs
      → bh'.file ≡ some (xs ++ encode_as align blob_id body)
  unfolding bin_put
  appended-file bh' res p xs e =
      let written : List ℕ = encode_as align blob_id body in
      let q : ◌≡◌ {A = BinHeader × ℕ × ℕ}
          (appended align bh blob_id body, bh.cur_off, length written) (bh', res.0, res.1) =
        ok_injective p in
      sym (λ i. (q i).0.file) ∙ ap (λ (f : Option Bytes). some (contents f ++ written)) e

  -- A get that succeeds before a put, of any blob at any offset, gives the same after it.
  pub bin_get-bin_put :
      (bh' : BinHeader) (res : ℕ × ℕ) (other : Bytes) (off : ℕ) (out : Bytes)
      → bin_put align true bh blob_id body ≡ ok (bh', res.0, res.1)
      → bin_get align bh other off ≡ ok out
      → bin_get align bh' other off ≡ ok out
  bin_get-bin_put bh' res other off out p g = elim (Option-cases bh.file) [
    | inl gone ↦ cc (bin_get-missing align bh gone other off, g)
    | inr (xs, e) ↦
        bin_get-append xs (encode_as align blob_id body) bh bh' e (appended-file bh' res p xs e)
          other off out align g
  ]

-- In the 4K layout an empty blob has no chunk: when the file ends at the offset that its put
-- returned, the get of it ends the process.
pub empty_blob_crashes :
    (bh : BinHeader) (blob_id : Bytes)
    → IsSynced bh
    → (bin_put true true bh blob_id [] ≡ ok (appended true bh blob_id [], bh.cur_off, 0))
      × (bin_get true (appended true bh blob_id []) blob_id bh.cur_off ≡ crash)
unfolding bin_put bin_get read_blob4k read_at encode4k
empty_blob_crashes bh blob_id s =
    let past : leb (bh.cur_off + 168) (length (contents bh.file ++ [])) ≡ false =
      rw (append-nil (contents bh.file)) (ground arith) in
    (refl, rw past)
