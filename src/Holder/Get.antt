-- ===== src/Holder/Get.antt =====
-- PhyBH.Get: the token says in which cache the triplet is.
use riverpass.Prelude.{ℕ, Option, none, some, [], leb, if◌then◌else◌, length, take, drop}
use riverpass.Prelude.Int.{ℤ, pos, negsuc}
use riverpass.Prelude.Text.{Bytes, codes, str_eq}
use riverpass.Prelude.Result.{Result, ok, err, crash, require, blob_not_exist, ◌>>=◌, ◌>>◌}
use riverpass.Lru as Lru
use riverpass.Lru.{LruCache}
use riverpass.Index.{IndexEntry, index_get}
use riverpass.Binary.Store.{bin_get}
use riverpass.Token.{get_triplet_id_from_token, get_blob_id_from_token}
use riverpass.Holder.Triplet.{Config, Triplet, PhyBh, deref}

-- An index entry with a negative offset cannot be read.
abbrev pub read_offset : ℤ → Result ℕ
read_offset (pos n) = ok n
read_offset (negsuc n) = crash

-- A blob that is not in the index gives no bytes and no error.
abbrev pub read_entry : Config → Triplet → Bytes → Option IndexEntry → Result Bytes
read_entry config t blb_id none = ok []
read_entry config t blb_id (some e) = do
  offset ← read_offset e.offset
  bin_get config.align t.bin_header blb_id offset

unfoldable pub read_triplet : Config → PhyBh → ℕ → Bytes → Result Bytes
read_triplet config pbh p blb_id = do
  t ← deref (pbh.heap p)
  read_entry config t blb_id (index_get t.idx_header blb_id)

abbrev pub read_found : Config → PhyBh → Bytes → Option ℕ → Result Bytes
read_found config pbh blb_id none = err blob_not_exist
read_found config pbh blb_id (some p) = read_triplet config pbh p blb_id

abbrev pub large_prefix : Bytes
large_prefix = codes "lobj"

unfoldable pub get_large : Config → PhyBh → Bytes → Result (PhyBh × Result Bytes)
unfolding read_triplet
get_large config pbh token = do
  tplt_id ← get_triplet_id_from_token token
  blb_id ← get_blob_id_from_token token
  let got = Lru.get pbh.large_obj_tplt tplt_id
  let pbh1 = record pbh { large_obj_tplt = got.0 }
  ok (pbh1, read_found config pbh1 blb_id got.1)

-- The open triplets are asked first; the closed ones only if there is none.
abbrev pub get_closed : Config → PhyBh → Bytes → Bytes → Option ℕ → PhyBh × Result Bytes
get_closed config pbh tplt_id blb_id (some p) = (pbh, read_triplet config pbh p blb_id)
get_closed config pbh tplt_id blb_id none =
    let got = Lru.get pbh.closed_tplt tplt_id in
    let pbh1 = record pbh { closed_tplt = got.0 } in (pbh1, read_found config pbh1 blb_id got.1)

unfoldable pub get_small : Config → PhyBh → Bytes → Result (PhyBh × Result Bytes)
unfolding read_triplet
get_small config pbh token = do
  tplt_id ← get_triplet_id_from_token token
  blb_id ← get_blob_id_from_token token
  let got = Lru.get pbh.open_tplt tplt_id
  ok (get_closed config (record pbh { open_tplt = got.0 }) tplt_id blb_id got.1)

-- The inner result is the error, or the bytes, or the panic of the read.
unfoldable pub get : Config → PhyBh → Bytes → Result (PhyBh × Result Bytes)
unfolding get_large get_small
get config pbh token = do
  require (leb (length large_prefix) (length token))
  if str_eq (take (length large_prefix) token) large_prefix
      then get_large config pbh (drop (length large_prefix) token)
      else get_small config pbh token
