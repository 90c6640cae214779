-- ===== src/Holder.antt =====
-- server/holder/src/blob_handler/physical_blob_handler.go: triplets, and the handler that holds
-- them in three caches. `encoding/json` is the parameter `Json`.
pub mod Triplet
pub mod Put
pub mod Get
pub mod Swap
pub mod Account
pub mod Sound
pub mod Stored
pub mod Startup
pub mod Concurrent
pub mod Trip
mod Tests
use riverpass.Prelude.{Option, List}
use riverpass.Prelude.Int.{ℤ}
use riverpass.Prelude.Text.{Bytes}
use riverpass.Index.{IndexEntry}
use riverpass.Manifest.{MfEntry}
use riverpass.Lru.{LruCache}

-- `json.Marshal` and `json.Unmarshal` of the two kinds of entries.
pub record Json : Type 0 where
  pub index_text : IndexEntry → Bytes
  pub index_read : Bytes → Option (List IndexEntry)
  pub mf_text : MfEntry → Bytes
  pub mf_read : Bytes → Option (List MfEntry)
