-- ===== src/Holder/Put.antt =====
-- PhyBH.Put: the room is reserved before the triplet is chosen, and given back afterwards.
use riverpass.Prelude.{
  ℕ, ◌+◌, Bool, true, some, List, [], ◌∷◌, ◌++◌, leb, ◌==◌, if◌then◌else◌, length, inl, inr, ◌⊎◌,
}
use riverpass.Prelude.Int.{ℤ, pos, ◌+ℤ◌, ◌-ℤ◌, ltb_ℤ}
use riverpass.Prelude.Text.{Bytes, codes}
use riverpass.Prelude.Result.{
  Result, ok, err, crash, Error, require, cache_full, bin_put_error, ◌>>=◌, ◌>>◌,
}
use riverpass.Prelude.Maps.{Map}
use riverpass.Lru as Lru
use riverpass.Lru.{LruCache, set_at}
use riverpass.Index.{index_put}
use riverpass.Manifest.{mf_put}
use riverpass.Binary.Codec.{get_payload_size}
use riverpass.Binary.Store.{bin_put}
use riverpass.Token.{generate_blob_token}
use riverpass.Holder.{Json}
use riverpass.Holder.Triplet.{Config, Triplet, Found, PhyBh, deref, open_new_tplt}

-- What the call gets from outside: the identifier of a new triplet with what the disk holds under
-- it, the outcome of the write to the content file, `rand.Intn`, and the order in which
-- `sync.Map.Range` visits the keys.
pub record Env : Type 0 where
  pub uuid : Bytes
  pub found : Found
  pub io : Bool
  pub rand : ℤ → ℕ
  pub range : Map ℕ → List Bytes

-- An error of a callee that `Put` handles, as a value; a panic stays one.
abbrev pub attempt : {A : Type 0} → Result A → Result (A ⊎ Error)
attempt (ok a) = ok (inl a)
attempt (err e) = ok (inr e)
attempt crash = crash

-- The callback of `dict.Range`.
unfoldable pub pick_loop : ℕ → ℕ → List Bytes → Bytes
pick_loop rand_num i [] = []
pick_loop rand_num i (k ∷ ks) =
    let rest = pick_loop rand_num (i + 1) ks in if leb i rand_num then k else rest

abbrev pub max_alloc_size : ℕ → ℤ
max_alloc_size payload_size = pos (8 + payload_size + 252 + 202 + 4)

abbrev pub add_bytes : PhyBh → ℤ → PhyBh
add_bytes pbh n = record pbh { total_bytes = pbh.total_bytes +ℤ n }

-- `atomic.AddInt64(&pbh.totalBytes, ^int64(maxAllocSize-1))`
abbrev pub release : PhyBh → ℤ → PhyBh
release pbh n = record pbh { total_bytes = pbh.total_bytes -ℤ n }

abbrev pub set_triplet : PhyBh → ℕ → Triplet → PhyBh
set_triplet pbh p t = record pbh { heap = set_at pbh.heap p (some t) }

module _ (json : Json) (config : Config) (env : Env) where
  -- The handler, the address of the triplet, the bytes that it added, and the token.
  unfoldable pub choose_large : PhyBh → Bytes → Result (PhyBh × ℕ × ℕ × Bytes)
  choose_large pbh blb_id = do
    (pbh1, p, size) ← open_new_tplt json config pbh true env.uuid env.found
    ok (
      record pbh1 { large_obj_tplt = Lru.put pbh1.large_obj_tplt env.uuid (some p) },
      p,
      size,
      codes "lobj" ++ generate_blob_token env.uuid blb_id,
    )

  -- `rand.Intn` panics unless its argument is positive.
  unfoldable pub choose_open : PhyBh → Bytes → Result (PhyBh × ℕ × ℕ × Bytes)
  unfolding pick_loop
  choose_open pbh blb_id = do
    require (ltb_ℤ (pos 0) pbh.open_tplt.size)
    let pick = pick_loop (env.rand pbh.open_tplt.size) 0 (env.range pbh.open_tplt.dict)
    let got = Lru.get pbh.open_tplt pick
    p ← deref got.1
    ok (record pbh { open_tplt = got.0 }, p, 0, generate_blob_token pick blb_id)

  unfoldable pub choose : ℕ → PhyBh → Bytes → Result (PhyBh × ℕ × ℕ × Bytes)
  unfolding choose_large choose_open
  choose payload_size pbh blb_id =
      if ltb_ℤ config.large_threshold (pos payload_size)
      then choose_large pbh blb_id
      else choose_open pbh blb_id

  -- Step 3 and the final accounts.
  unfoldable pub put_mf :
      ℕ → PhyBh → ℕ → Triplet → ℕ → Bytes → Bytes → ℕ → Result (PhyBh × Result Bytes)
  put_mf payload_size pbh p t size token blb_id idx_bytes = do
    r ← attempt (mf_put json.mf_text t.mf_header blb_id)
    elim r [
      | inr e ↦ ok (release pbh (max_alloc_size payload_size), err e)
      | inl done ↦
          let pbh1 = set_triplet pbh p (record t { mf_header = done.0 }) in
          ok (
            release (add_bytes pbh1 (pos (size + payload_size + idx_bytes + done.1)))
                (max_alloc_size payload_size),
            ok token,
          )
    ]

  -- Step 2.
  unfoldable pub put_idx :
      ℕ → PhyBh → ℕ → Triplet → ℕ → Bytes → Bytes → ℕ → ℕ → Result (PhyBh × Result Bytes)
  unfolding put_mf
  put_idx payload_size pbh p t size token blb_id offset written = do
    r ← attempt (index_put json.index_text t.idx_header blb_id (pos offset) (pos written))
    elim r [
      | inr e ↦ ok (release pbh (max_alloc_size payload_size), err e)
      | inl done ↦
          let t1 = record t { idx_header = done.0 } in
          put_mf payload_size (set_triplet pbh p t1) p t1 size token blb_id done.1
    ]

  -- Step 1.
  unfoldable pub put_bin : ℕ → PhyBh → ℕ → ℕ → Bytes → Bytes → Bytes → Result (PhyBh × Result Bytes)
  unfolding put_idx
  put_bin payload_size pbh p size token blb_id body = do
    t ← deref (pbh.heap p)
    (bin, offset, written) ← bin_put config.align env.io t.bin_header blb_id body
    let t1 = record t { bin_header = bin }
    let pbh1 = set_triplet pbh p t1
    if written == payload_size
        then put_idx payload_size pbh1 p t1 size token blb_id offset written
        else ok (release pbh1 (max_alloc_size payload_size), err bin_put_error)

  unfoldable pub put_reserved : ℕ → PhyBh → Bytes → Bytes → Result (PhyBh × Result Bytes)
  unfolding choose put_bin
  put_reserved payload_size pbh blb_id body = do
    (pbh1, p, size, token) ← choose payload_size pbh blb_id
    put_bin payload_size pbh1 p size token blb_id body

  unfoldable pub put : PhyBh → Bytes → Bytes → Result (PhyBh × Result Bytes)
  unfolding put_reserved
  put pbh blb_id body =
      let payload_size = get_payload_size config.align (length body) in
      let max_alloc = max_alloc_size payload_size in
      if ltb_ℤ (config.cache_max -ℤ pbh.total_bytes) max_alloc
      then ok (pbh, err cache_full)
      else put_reserved payload_size (add_bytes pbh max_alloc) blb_id body
