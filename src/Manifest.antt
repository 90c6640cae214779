-- ===== src/Manifest.antt =====
-- server/holder/src/blob_handler/blob_manifest.go: the log of the actions on a triplet. `file` is
-- what stands on disk under `LocalName`; `RemoteName` is never used. `encoding/json` is the two
-- parameters of the section.
pub mod Reload
mod Tests
use riverpass.Prelude.{
  ℕ, ◌+◌, Bool, true, false, Option, none, some, List, [], ◌∷◌, ◌++◌, ◌==◌, if◌then◌else◌, length,
}
use riverpass.Prelude.Int.{ℤ}
use riverpass.Prelude.Text.{Bytes, codes}
use riverpass.Prelude.Result.{Result, ok, err, crash, ◌>>=◌}
use riverpass.Prelude.Maps.{Map, store}
use riverpass.RangeCode.{itoa}
use riverpass.Log.{flush, or_default}

-- `P` and `D`.
abbrev pub put_action : ℕ
put_action = 80

abbrev pub delete_action : ℕ
delete_action = 68

abbrev pub mf_entry_len : ℕ
mf_entry_len = 202

pub record MfEntry : Type 0 where
  pub blob_id : Bytes
  pub action : ℕ
  pub padding : Bytes

pub record MfHeader : Type 0 where
  pub empty : Bool
  pub shard_id : ℤ
  pub triplet_id : Bytes
  pub local_name : Bytes
  pub file : Option Bytes
  pub deletion_log : Map ℕ

abbrev pub mf_text_of : (MfEntry → Bytes) → MfEntry → Bytes → Bytes
mf_text_of marshal entry p = marshal (record entry { padding = p })

pub mf_name : Bytes → ℤ → Bytes → Bytes
mf_name prefix shard_id tri_id =
    or_default prefix (codes "/var/lib/docker/.cache")
    ++ (codes "/mf_h_" ++ (itoa shard_id ++ (codes "_" ++ (tri_id ++ codes ".dat"))))

abbrev pub mf_blank : Bytes → ℤ → Bytes → MfHeader
mf_blank prefix shard_id tri_id = record {
  empty = true;
  shard_id = shard_id;
  triplet_id = tri_id;
  local_name = mf_name prefix shard_id tri_id;
  file = none;
  deletion_log = [];
}

unfoldable pub mf_create : MfHeader → MfHeader × ℕ
mf_create mfh = let bytes = codes "[\n]" in (record mfh { file = some bytes }, length bytes)

-- The loop of `load`.
unfoldable pub deletions : List MfEntry → Map ℕ → Map ℕ
deletions [] log = log
deletions (e ∷ es) log =
    let next = if e.action == delete_action then store e.blob_id e.action log else log in
    deletions es next

abbrev pub no_entries : List MfEntry → Bool
no_entries [] = true
no_entries (e ∷ es) = false

-- `Check(err)` panics.
abbrev pub mf_parsed : Option (List MfEntry) → Result (List MfEntry)
mf_parsed none = crash
mf_parsed (some es) = ok es

module _ (marshal : MfEntry → Bytes) (unmarshal : Bytes → Option (List MfEntry)) where
  unfoldable pub mf_load : MfHeader → Bytes → Result MfHeader
  unfolding deletions
  mf_load mfh file = do
    ies ← mf_parsed (unmarshal file)
    ok (record mfh {
      file = some file;
      deletion_log = deletions ies mfh.deletion_log;
      empty = if no_entries ies then mfh.empty else false;
    })

  -- `New` on what the disk holds, and the size that it returns.
  unfoldable pub mf_new : Bytes → ℤ → Bytes → Option Bytes → Result (MfHeader × ℕ)
  unfolding mf_create mf_load
  mf_new prefix shard_id tri_id none = ok (mf_create (mf_blank prefix shard_id tri_id))
  mf_new prefix shard_id tri_id (some file) = do
    mfh ← mf_load (mf_blank prefix shard_id tri_id) file
    ok (mfh, length file)

abbrev pub mf_entry : Bytes → ℕ → MfEntry
mf_entry blob_id action = record { blob_id = blob_id; action = action; padding = [] }

unfoldable pub mf_flush : (MfEntry → Bytes) → MfHeader → MfEntry → Result (MfHeader × ℕ)
mf_flush marshal mfh entry = do
  (file, n) ← flush mf_entry_len mfh.empty (mf_text_of marshal entry) mfh.file
  ok (record mfh { file = some file; empty = false }, n)

unfoldable pub mf_put : (MfEntry → Bytes) → MfHeader → Bytes → Result (MfHeader × ℕ)
unfolding mf_flush
mf_put marshal mfh blob_id = mf_flush marshal mfh (mf_entry blob_id put_action)

-- The log in memory is not changed.
unfoldable pub mf_delete : (MfEntry → Bytes) → MfHeader → Bytes → Result (MfHeader × ℕ)
unfolding mf_flush
mf_delete marshal mfh blob_id = mf_flush marshal mfh (mf_entry blob_id delete_action)

pub get_deletion_log : MfHeader → Map ℕ
get_deletion_log mfh = mfh.deletion_log

pub clear_deletion_log : MfHeader → MfHeader
clear_deletion_log mfh = record mfh { deletion_log = [] }
