-- ===== src/Holder/Triplet.antt =====
-- A triplet: the index, the manifest and the content file of one identifier.
use riverpass.Prelude.{ℕ, ◌+◌, Bool, Option, none, some}
use riverpass.Prelude.Int.{ℤ}
use riverpass.Prelude.Text.{Bytes}
use riverpass.Prelude.Result.{Result, ok, crash, ◌>>=◌}
use riverpass.Lru.{LruCache, set_at}
use riverpass.Index.{IndexHeader, index_new}
use riverpass.Manifest.{MfHeader, mf_new}
use riverpass.Binary.Store.{BinHeader, bin_new}
use riverpass.Holder.{Json}

-- The flags of variable.go that the handler reads.
pub record Config : Type 0 where
  pub prefix : Bytes
  pub align : Bool
  pub cache_max : ℤ
  pub large_threshold : ℤ
  pub closing_threshold : ℤ

pub record Triplet : Type 0 where
  pub id : Bytes
  pub idx_header : IndexHeader
  pub mf_header : MfHeader
  pub bin_header : BinHeader

-- What the disk holds under the three names of an identifier.
pub record Found : Type 0 where
  pub idx_file : Option Bytes
  pub mf_file : Option Bytes
  pub bin_file : Option Bytes

abbrev pub nothing : Found
nothing = record { idx_file = none; mf_file = none; bin_file = none }

-- `heap` holds what the `*Triplet` pointers point to.
pub record PhyBh : Type 0 where
  pub shard_id : ℤ
  pub open_tplt : LruCache ℕ
  pub closed_tplt : LruCache ℕ
  pub large_obj_tplt : LruCache ℕ
  pub heap : ℕ → Option Triplet
  pub allocated : ℕ
  pub total_bytes : ℤ

-- A nil pointer panics.
abbrev pub deref : {A : Type 0} → Option A → Result A
deref none = crash
deref (some a) = ok a

module _ (json : Json) (config : Config) where
  unfoldable pub triplet_new : ℤ → Bytes → Bool → Found → Result (Triplet × ℕ)
  triplet_new shard_id tri_id is_large found = do
    (idx, idx_size) ←
        index_new json.index_text json.index_read config.prefix shard_id tri_id is_large
          found.idx_file
    (mf, mf_size) ← mf_new json.mf_text json.mf_read config.prefix shard_id tri_id found.mf_file
    let bin = bin_new found.bin_file
    ok (
      record { id = tri_id; idx_header = idx; mf_header = mf; bin_header = bin.0 },
      idx_size + mf_size + bin.1,
    )

  -- `uuid` is what `GenerateTriId` returns. The result has the address of the triplet.
  unfoldable pub open_new_tplt : PhyBh → Bool → Bytes → Found → Result (PhyBh × ℕ × ℕ)
  unfolding triplet_new
  open_new_tplt pbh is_large uuid found = do
    (tplt, size) ← triplet_new pbh.shard_id uuid is_large found
    let p = pbh.allocated
    ok (record pbh { heap = set_at pbh.heap p (some tplt); allocated = p + 1 }, p, size)
