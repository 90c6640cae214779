-- ===== src/Manager/Cached.antt =====
-- A file that was fetched and written is in the cache.
use riverpass.Prelude.{ℕ, ◌<◌, ◌^◌, ◌≡◌, refl, ◌∙◌, true, false, some, [], ◌∷◌, length}
use riverpass.Prelude.Int.{pos, to_int32_small}
use riverpass.Prelude.Text.{Bytes, str_eq, str_eq_self}
use riverpass.Prelude.Result.{ok}
use riverpass.Meta.{FileMeta, MetaJson, db_file_meta2file_meta, file_meta2db_file_meta, is_empty}
use riverpass.FileTable.{FileRow, row_of, ready, unmarshal_meta, whole_range}
use riverpass.FileTable.Commit.{commit_cache_file_in_db-listed}
use riverpass.Holder.{Json}
use riverpass.Holder.Triplet.{Config, PhyBh}
use riverpass.Holder.Put.{Env}
use riverpass.Holder.Get.{get}
use riverpass.Holder.Trip.{IsTokenOf, CanPut, put-get}
use riverpass.FileWriter.{check_uploader, write_file_to_cache}
use riverpass.Manager.{CacheManager, write_to_cache, download_and_write_cache}
use riverpass.Manager.Fetch.{Web, check_url, download}

-- The meta data of a file that is in the cache as one blob.
abbrev pub whole_file : MetaJson → FileMeta → Bytes → Bytes → FileMeta
whole_file meta_json fm token bytes = record fm {
  rng_code_list = some (whole_range meta_json token (pos (length bytes)) ∷ []);
}

-- The JSON text of the meta data is read back and is not empty, whatever the token of the blob is.
abbrev pub IsStorable : MetaJson → FileMeta → Bytes → Bytes → Type 0
IsStorable meta_json fm blob_id bytes =
    (token : Bytes)
    → IsTokenOf token blob_id
    → let dbfm = file_meta2db_file_meta meta_json (whole_file meta_json fm token bytes) in
      (db_file_meta2file_meta meta_json dbfm ≡ ok (whole_file meta_json fm token bytes))
      × (meta_json.meta_read (meta_json.meta_text dbfm) ≡ some dbfm)
      × (is_empty (meta_json.meta_text dbfm) ≡ false)

-- The row of the file is ready, and its one range is the whole file under a token that gives it.
pub record IsCached (meta_json : MetaJson) (config : Config) (mgr : CacheManager) (fid : Bytes)
    (fm : FileMeta) (bytes : Bytes) : Type 0 where
  pub token : Bytes
  pub later : PhyBh
  pub row : FileRow
  pub found : row_of fid mgr.rows ≡ some row
  pub has_state : row.state ≡ ready
  pub has_text : is_empty row.file_meta ≡ false
  pub decoded : unmarshal_meta meta_json row.file_meta ≡ ok (whole_file meta_json fm token bytes)
  pub got : get config mgr.pbh token ≡ ok (later, ok bytes)

module _ (json : Json) (meta_json : MetaJson) (config : Config) (env : Env) (now : ℕ) (web : Web)
    (mgr : CacheManager) (file_name fid blob_id bytes : Bytes) (r : FileRow) (fm : FileMeta) where
  pub download_and_write_cache-IsCached :
      (check_url web config.cache_max file_name).0 ≡ true
      → download web file_name (check_url web config.cache_max file_name).1 ≡ ok (some bytes)
      → length bytes < 2 ^ 31
      → CanPut json config env mgr.pbh blob_id bytes
      → row_of fid mgr.rows ≡ some r
      → unmarshal_meta meta_json r.file_meta ≡ ok fm
      → IsStorable meta_json fm blob_id bytes
      → (after : CacheManager) × (download_and_write_cache json meta_json config env now true web
            mgr file_name fid blob_id
          ≡ ok after)
        × IsCached meta_json config after fid fm bytes
        × ((j : Bytes) → str_eq fid j ≡ false → row_of j after.rows ≡ row_of j mgr.rows)
  unfolding download_and_write_cache write_to_cache write_file_to_cache check_uploader
      unmarshal_meta
  download_and_write_cache-IsCached there fetched short can row decoded storable =
      let (pbh, token, later, of_token, put, got, kept) =
        put-get json config env mgr.pbh blob_id bytes can in
      let (trips, text_read, has_text) = storable token of_token in
      let (rows, sealed, listed, rows_of) =
        commit_cache_file_in_db-listed meta_json mgr.rows fid token of_token.0 (pos (length bytes))
          r fm row decoded of_token.1 trips text_read has_text in
      let text =
        meta_json.meta_text
          (file_meta2db_file_meta meta_json (whole_file meta_json fm token bytes)) in
      (
        record mgr { rows = rows; pbh = pbh },
        rw (there, fetched, put, to_int32_small (length bytes) short, sealed) refl,
        record {
          token = token;
          later = later;
          row = record r { state = ready; owners = of_token.0; file_meta = text };
          found = rows_of fid ∙ rw (str_eq_self fid) refl;
          has_state = refl;
          has_text = has_text;
          decoded = rw (text_read, trips) refl;
          got = got;
        },
        λ j other. rows_of j ∙ rw other refl,
      )
