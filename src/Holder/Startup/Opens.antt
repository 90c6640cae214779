-- ===== src/Holder/Startup/Opens.antt =====
-- After New there is an open triplet, and the account is the size of what is kept.
use riverpass.Prelude.{
  ℕ, ◌≡◌, ◌⊎◌, true, false, Bool, Option, none, some, List, [], ◌∷◌, ◌==◌, if◌then◌else◌,
}
use riverpass.Prelude.Int.{pos, ◌<ℤ◌}
use riverpass.Prelude.Text.{Bytes}
use riverpass.Prelude.Result.{Result}
use riverpass.Lru as Lru
use riverpass.Lru.{LruCache}
use riverpass.Index.{first_byte, open_state}
use riverpass.Holder.Triplet.{Triplet, Found, PhyBh}

-- The size of a cache counts its keys, as long as none is taken out.
IsCounted : LruCache ℕ → Type 0
IsCounted c = ((c.dict ≡ []) × (c.size ≡ pos 0)) ⊎ (pos 0 <ℤ c.size)

-- The cache of open triplets is counted, and is not empty once one was counted.
IsOpening : PhyBh → ℕ → Type 0
IsOpening pbh cnt = IsCounted pbh.open_tplt × ((cnt ≡ 0) ⊎ (pos 0 <ℤ pbh.open_tplt.size))

-- The index of a triplet is open: its file says so, or it has none and is made anew.
abbrev pub is_open : Option Bytes → Bool
is_open none = true
is_open (some file) = first_byte file == open_state

abbrev pub any_open : (Bytes → Found) → List Bytes → Bool
any_open disk [] = false
any_open disk (id ∷ ids) = if is_open (disk id).idx_file then true else any_open disk ids
