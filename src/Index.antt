-- ===== src/Index.antt =====
-- server/holder/src/blob_handler/blob_index.go: the index of a triplet. `file` is what stands on
-- disk under `LocalName`, `none` if it is not there. The locks make each method one step;
-- `RemoteName` is never used. `encoding/json` is the two parameters of the section.
pub mod Reload
pub mod Closing
mod Tests
use riverpass.Prelude.{
  ℕ, ◌+◌, ◌-◌, Bool, true, false, Option, none, some, List, [], ◌∷◌, ◌++◌, ◌==◌, if◌then◌else◌, leb,
  length, drop,
}
use riverpass.Prelude.Int.{ℤ}
use riverpass.Prelude.Text.{Bytes, codes}
use riverpass.Prelude.Result.{
  Result, ok, err, crash, require, check, ◌>>=◌, ◌>>◌, header_closed, entry_deleted,
}
use riverpass.Prelude.Maps.{Map, load, store, delete}
use riverpass.RangeCode.{itoa}
use riverpass.Log.{flush, or_default}

-- `State` holds the character `2` (open), `3` (closed) or `4` (large).
abbrev pub open_state : ℕ
open_state = 50

abbrev pub closed_state : ℕ
closed_state = 51

abbrev pub large_state : ℕ
large_state = 52

abbrev pub index_entry_len : ℕ
index_entry_len = 252

pub record IndexEntry : Type 0 where
  pub blob_id : Bytes
  pub offset : ℤ
  pub size : ℤ
  pub checksum : Bytes
  pub fid : Bytes
  pub padding : Bytes

pub record IndexHeader : Type 0 where
  pub state : ℕ
  pub shard_id : ℤ
  pub triplet_id : Bytes
  pub local_name : Bytes
  pub file : Option Bytes
  pub entries : List IndexEntry
  pub ref_map : Map IndexEntry
  pub empty : Bool

-- An entry with a padding, as text.
abbrev pub text_of : (IndexEntry → Bytes) → IndexEntry → Bytes → Bytes
text_of marshal entry p = marshal (record entry { padding = p })

pub index_name : Bytes → ℤ → Bytes → Bytes
index_name prefix shard_id tri_id =
    or_default prefix (codes "/var/lib/docker/.cache")
    ++ (codes "/idx_h_" ++ (itoa shard_id ++ (codes "_" ++ (tri_id ++ codes ".dat"))))

-- `New` before it looks at the disk.
abbrev pub blank : Bytes → ℤ → Bytes → IndexHeader
blank prefix shard_id tri_id = record {
  state = 0;
  shard_id = shard_id;
  triplet_id = tri_id;
  local_name = index_name prefix shard_id tri_id;
  file = none;
  entries = [];
  ref_map = [];
  empty = true;
}

-- The file gets the state that is asked for; the header in memory is open in any case.
unfoldable pub create : IndexHeader → ℕ → IndexHeader × ℕ
create ih state =
    let bytes = state ∷ codes "\n[\n]" in
    (record ih { file = some bytes; state = open_state }, length bytes)

-- The loop of `load` over the entries of the file.
unfoldable pub refs : List IndexEntry → Map IndexEntry → Map IndexEntry
refs [] m = m
refs (e ∷ es) m = refs es (store e.blob_id e m)

-- The state byte; a file without one leaves the zero of the buffer.
abbrev pub first_byte : Bytes → ℕ
first_byte [] = 0
first_byte (b ∷ bytes) = b

abbrev pub is_nil {ℓ} : {A : Type ℓ} → List A → Bool
is_nil [] = true
is_nil (x ∷ xs) = false

-- `Check(err)` panics.
abbrev pub parsed : Option (List IndexEntry) → Result (List IndexEntry)
parsed none = crash
parsed (some es) = ok es

abbrev pub fresh_entry : Bytes → ℤ → ℤ → IndexEntry
fresh_entry blob_id offset size = record {
  blob_id = blob_id;
  offset = offset;
  size = size;
  checksum = [];
  fid = [];
  padding = [];
}

module _ (marshal : IndexEntry → Bytes) (unmarshal : Bytes → Option (List IndexEntry)) where
  unfoldable pub index_load : IndexHeader → Bytes → Result IndexHeader
  unfolding refs
  index_load ih file = do
    require (leb 2 (length file))
    ies ← parsed (unmarshal (drop 2 file))
    require (is_nil ih.entries)
    ok (record ih {
      state = first_byte file;
      file = some file;
      entries = ies;
      ref_map = refs ies [];
    })

  -- `New` on what the disk holds, and the size that it returns.
  unfoldable pub index_new : Bytes → ℤ → Bytes → Bool → Option Bytes → Result (IndexHeader × ℕ)
  unfolding create index_load
  index_new prefix shard_id tri_id is_large none =
      ok (create (blank prefix shard_id tri_id) (if is_large then large_state else open_state))
  index_new prefix shard_id tri_id is_large (some file) = do
    ih ← index_load (blank prefix shard_id tri_id) file
    ok (record ih { empty = is_nil ih.ref_map }, length file)

unfoldable pub index_put :
    (IndexEntry → Bytes) → IndexHeader → Bytes → ℤ → ℤ → Result (IndexHeader × ℕ)
index_put marshal ih blob_id offset size = do
  check (if ih.state == closed_state then false else true) header_closed
  let ie = fresh_entry blob_id offset size
  (file, idx_bytes) ← flush index_entry_len ih.empty (text_of marshal ie) ih.file
  ok (
    record ih {
      file = some file;
      empty = false;
      entries = ih.entries ++ ie ∷ [];
      ref_map = store blob_id ie ih.ref_map;
    },
    idx_bytes,
  )

unfoldable pub index_get : IndexHeader → Bytes → Option IndexEntry
index_get ih blob_id = load blob_id ih.ref_map

-- Only the map in memory forgets the entry.
abbrev pub delete_ref : IndexHeader → Bytes → Option IndexEntry → Result IndexHeader
delete_ref ih blob_id none = err entry_deleted
delete_ref ih blob_id (some e) = ok (record ih { ref_map = delete blob_id ih.ref_map })

unfoldable pub index_delete : IndexHeader → Bytes → Result IndexHeader
index_delete ih blob_id = delete_ref ih blob_id (load blob_id ih.ref_map)

-- The state byte of the file; the receiver is a copy, so the header in memory keeps its state.
abbrev pub close_file : IndexHeader → Option Bytes → Result IndexHeader
close_file ih none = crash
close_file ih (some file) = ok (record ih { file = some (closed_state ∷ drop 1 file) })

unfoldable pub close : IndexHeader → Result IndexHeader
close ih = if ih.state == closed_state then ok ih else close_file ih ih.file
