-- ===== src/Server/Served.antt =====
-- A cached file is served, and a file that was not cached is served after one round of the manager.
use riverpass.Prelude.{
  ℕ, ◌≤◌, ◌<◌, ◌^◌, ◌≡◌, refl, ap, ◌∙◌, true, false, some, [], ◌∷◌, length, take_all, arith, ltb,
}
use riverpass.Prelude.Int.{pos}
use riverpass.Prelude.Text.{Bytes, str_eq_self}
use riverpass.Prelude.Result.{ok}
use riverpass.Meta.{FileMeta, MetaJson, file_meta2db_file_meta}
use riverpass.Holder.{Json}
use riverpass.Holder.Triplet.{Config}
use riverpass.Holder.Put.{Env}
use riverpass.FileReader.{read_from_cache}
use riverpass.FileReader.Slices.{read_from_cache-slice}
use riverpass.Manager.{cache_purge_waiting_ms}
use riverpass.Manager.Fetch.{Web}
use riverpass.Manager.Cached.{IsCached, whole_file}
use riverpass.Server.{
  Server, replied, Request, file_for, list_file_and_state, read_ranges, read_ready, read_state,
  try_read_from_cache,
}
use riverpass.Server.Requests.{listed_row}

module _ (json : MetaJson) (config : Config) (s : Server) (file_name bytes : Bytes)
    (fm : FileMeta) where
  -- A request for a cached file of at least one byte and fewer than 2 ^ 31, with the entity tag of its
  -- row, when the mutex is free and the listing runs, that reads in time: the answer is the bytes of the file, the mutex is free, and the table is as
  -- it was.
  pub try_read_from_cache-serves :
      (req : Request)
      → s.locked ≡ false
      → req.lists ≡ true
      → req.elapsed ≤ cache_purge_waiting_ms
      → 0 < length bytes
      → length bytes < 2 ^ 31
      → IsCached json config s.mgr file_name fm bytes
      → (after : Server) × (try_read_from_cache json config req s file_name fm.etag
          ≡ ok (after, replied (ok (some bytes))))
        × (after.locked ≡ false)
        × (after.mgr.rows ≡ s.mgr.rows)
  unfolding try_read_from_cache list_file_and_state read_state read_ready read_ranges
  try_read_from_cache-serves req free lists fast some_bytes short c =
      let n : ℕ = length bytes in
      let read : read_from_cache config s.mgr.pbh (pos 0) (pos n)
            (record { start = pos 0; end = pos n; token = c.token } ∷ [])
          ≡ ok (c.later, ok bytes) =
        read_from_cache-slice config s.mgr.pbh c.later c.token bytes c.got short 0 n 0 n []
          (omega arith) (omega arith) (omega arith) short some_bytes
        ∙ ap (λ z. ok (c.later, ok z)) (take_all n bytes (omega arith)) in
      let in_time : ltb cache_purge_waiting_ms req.elapsed ≡ false = ground arith in
      (
        record { mgr = record s.mgr { pbh = c.later }; locked = false },
        rw
            (
              free,
              lists,
              listed_row json s.mgr.rows file_name c.row (whole_file json fm c.token bytes) c.found
                  c.has_text c.decoded,
              c.has_state,
              str_eq_self fm.etag,
              in_time,
              read,
            )
            refl,
        refl,
        refl,
      )

module _ (json : Json) (meta_json : MetaJson) (config : Config) (env : Env) (web : Web) (now : ℕ)
    (s : Server) (file_name blob_id bytes : Bytes) (fm : FileMeta) where
  abbrev new_text : Bytes
  new_text = meta_json.meta_text (file_meta2db_file_meta meta_json (file_for file_name fm.etag))
