-- ===== src/Binary/Store.antt =====
-- BinHeader of blob_binary.go: the content file of a triplet. `file` is what stands on disk, `none`
-- if it is not there yet; `io` says whether the system's call succeeds.
pub mod Plain
pub mod Chunked
pub mod Laws
use riverpass.Prelude.{
  ℕ, ◌+◌, ◌-◌, ◌*◌, ◌/◌, ◌≤◌, ◌≡◌, refl, Bool, true, false, Option, none, some, [], ◌++◌,
  if◌then◌else◌, length,
}
use riverpass.Prelude.Int.{ℤ}
use riverpass.Prelude.Text.{Bytes, slice, str_eq}
use riverpass.Prelude.Result.{Result, ok, crash, require, ◌>>=◌, ◌>>◌}
use riverpass.Binary.Files.{read_at}
use riverpass.Binary.Codec.{
  blobid_size, checksum_size, content_size, encode, decode_name, decode_size, make_size,
}
use riverpass.Binary.Chunks.{encode4k, decode4k}

pub record BinHeader : Type 0 where
  pub file : Option Bytes
  pub cur_off : ℕ

abbrev pub contents : Option Bytes → Bytes
contents none = []
contents (some bytes) = bytes

-- `BinHeader.New` on what the disk holds, and the size that it returns.
unfoldable pub bin_new : Option Bytes → BinHeader × ℕ
bin_new none = (record { file = none; cur_off = 0 }, 0)
bin_new (some bytes) = (record { file = some bytes; cur_off = length bytes }, length bytes)

-- Appends, and returns the offset that the header had and the bytes written.
unfoldable pub bin_flush : Bool → BinHeader → Bytes → Result (BinHeader × ℕ × ℕ)
bin_flush false bh bytes = crash
bin_flush true bh bytes =
    ok (record bh { file = some (contents bh.file ++ bytes) }, bh.cur_off, length bytes)

abbrev pub encode_as : Bool → Bytes → Bytes → Bytes
encode_as align blob_id body = if align then encode4k blob_id body else encode blob_id body

unfoldable pub bin_put : Bool → Bool → BinHeader → Bytes → Bytes → Result (BinHeader × ℕ × ℕ)
unfolding bin_flush
bin_put align io bh blob_id body = do
  (bh', offset, size) ← bin_flush io bh (encode_as align blob_id body)
  ok (record bh' { cur_off = bh'.cur_off + size }, offset, size)

-- `os.OpenFile(..., O_RDONLY)`: a file that is not there ends the process.
abbrev open_file : Option Bytes → Result Bytes
open_file none = crash
open_file (some bytes) = ok bytes

unfoldable pub read_blob : BinHeader → Bytes → ℕ → Result Bytes
read_blob bh blob_id offset = do
  file ← open_file bh.file
  id_and_size ← read_at file offset 136
  id_on_disk ← decode_name (slice id_and_size 0 128)
  require (str_eq blob_id id_on_disk)
  size ← decode_size (slice id_and_size 128 136)
  n ← make_size size
  read_at file (offset + 136) n

pub read_blob4k : BinHeader → Bytes → ℕ → Result Bytes
read_blob4k bh blob_id offset = do
  file ← open_file bh.file
  header ← read_at file offset (blobid_size + 8 + checksum_size)
  id_on_disk ← decode_name (slice header 0 blobid_size)
  require (str_eq blob_id id_on_disk)
  size ← decode_size (slice header blobid_size (blobid_size + 8))
  n ← make_size size
  total ← read_at file offset ((n + content_size - 1) / content_size * 4 * 1024)
  (id_in_chunks, body) ← decode4k total
  require (str_eq id_in_chunks id_on_disk)
  ok body

unfoldable pub bin_get : Bool → BinHeader → Bytes → ℕ → Result Bytes
bin_get align bh blob_id offset =
    if align then read_blob4k bh blob_id offset else read_blob bh blob_id offset
