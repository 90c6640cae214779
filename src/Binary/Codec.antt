-- ===== src/Binary/Codec.antt =====
-- Encode, Decode, DecodeName and DecodeSize of blob_binary.go, and the size of a payload
-- (common/util/persistence_format.go).
use riverpass.Prelude.{
  ℕ, ◌+◌, ◌-◌, ◌*◌, ◌/◌, ◌^◌, ◌<◌, ◌≡◌, Bool, ◌++◌, arith, leb, if◌then◌else◌, length, take,
  length-append, take_all,
}
use riverpass.Prelude.Int.{ℤ, pos, negsuc}
use riverpass.Prelude.Text.{Bytes, slice}
use riverpass.Prelude.Result.{Result, ok, crash, require, ◌>>=◌, ◌>>◌}
use riverpass.Binary.Words.{
  le_bytes, le_value, to_int64, copy_new, length-le_bytes, le_value-le_bytes, length-copy_new,
  take-copy_new,
}

abbrev pub blobid_size : ℕ
blobid_size = 128

abbrev pub checksum_size : ℕ
checksum_size = 32

-- 4096 - 128 - 8 - 32
abbrev pub content_size : ℕ
content_size = 4 * 1024 - blobid_size - 8 - checksum_size

-- `align` is the flag `F_4K_Align`.
unfoldable pub get_payload_size : Bool → ℕ → ℕ
get_payload_size align data_len =
    if align
    then 4 * 1024 * ((data_len + content_size - 1) / content_size)
    else (blobid_size + 8) + data_len

unfoldable pub encode : Bytes → Bytes → Bytes
encode blob_id body =
    copy_new 128 blob_id ++ (copy_new 8 (le_bytes 8 (length body)) ++ copy_new (length body) body)

-- Only the first eight of the 128 bytes are the name.
unfoldable pub decode_name : Bytes → Result Bytes
decode_name encoded = do require (leb 128 (length encoded)); ok (take 8 (take 128 encoded))

unfoldable pub decode_size : Bytes → Result ℤ
decode_size encoded = do require (leb 8 (length encoded)); ok (to_int64 (le_value (take 8 encoded)))

-- `make([]byte, size)` panics on a negative size.
abbrev pub make_size : ℤ → Result ℕ
make_size (pos n) = ok n
make_size (negsuc n) = crash

unfoldable pub decode : Bytes → Result (Bytes × Bytes)
unfolding decode_name decode_size
decode encoded = do
  require (leb 128 (length encoded))
  blob_id ← decode_name (slice encoded 0 128)
  require (leb 136 (length encoded))
  size ← decode_size (slice encoded 128 136)
  n ← make_size size
  require (leb (136 + n) (length encoded))
  ok (blob_id, copy_new n (slice encoded 136 (136 + n)))

-- The plain encoding has the size that the handler reserved for it.
pub length-encode : (blob_id body : Bytes) → length (encode blob_id body) ≡ 136 + length body
unfolding encode
length-encode blob_id body = omega (
  arith,
  length-append (copy_new 128 blob_id)
      (copy_new 8 (le_bytes 8 (length body)) ++ copy_new (length body) body),
  length-append (copy_new 8 (le_bytes 8 (length body))) (copy_new (length body) body),
  length-copy_new 128 blob_id,
  length-copy_new 8 (le_bytes 8 (length body)),
  length-copy_new (length body) body,
)

pub decode_name-copy_new :
    (blob_id : Bytes) → length blob_id ≡ 8 → decode_name (copy_new 128 blob_id) ≡ ok blob_id
unfolding decode_name
decode_name-copy_new blob_id e = rw (
  length-copy_new 128 blob_id,
  take_all 128 (copy_new 128 blob_id) (omega (arith, length-copy_new 128 blob_id)),
  take-copy_new 128 8 blob_id (omega arith) (omega arith),
)

pub decode_size-le_bytes :
    (n : ℕ) → n < 2 ^ 63 → decode_size (copy_new 8 (le_bytes 8 n)) ≡ ok (pos n)
unfolding decode_size to_int64
decode_size-le_bytes n h =
    rw
      (
        length-copy_new 8 (le_bytes 8 n),
        take-copy_new 8 8 (le_bytes 8 n) (omega (arith, length-le_bytes 8 n)) (omega arith),
        le_value-le_bytes 8 n (omega arith),
      )
      (ground arith)
