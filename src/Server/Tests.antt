-- ===== src/Server/Tests.antt =====
-- Tests of the server, and its theorems and those of the cache manager at a concrete file.
use riverpass.Prelude.{
  ℕ, ◌≡◌, refl, inl, true, false, none, some, [], ◌∷◌, ◌++◌, arith, if◌then◌else◌,
}
use riverpass.Prelude.Int.{pos}
use riverpass.Prelude.Text.{Bytes, codes, str_eq}
use riverpass.Prelude.Result.{ok, err, db_error}
use riverpass.Prelude.Maps.{load}
use riverpass.Meta.{FileMeta, MetaJson, db_file_meta2file_meta, file_meta2db_file_meta}
use riverpass.Meta.Split.{split, join}
use riverpass.Meta.Trip.{file_meta_round_trip}
use riverpass.Meta.Sample.{sample_json, sample-IsReadable}
use riverpass.FileTable.{
  FileRow, row_of, pending, ready, unmarshal_meta, list_file_and_state_from_db,
}
use riverpass.Holder.Trip.Sample.{json, config, env, empty, blb, body_large, sample_large}
use riverpass.Manager.{CacheManager, enqueue_write_req, download_and_write_cache}
use riverpass.Manager.Fetch.{Web, check_url, download}
use riverpass.Manager.Cached.{IsCached, IsStorable, download_and_write_cache-IsCached}
use riverpass.Server.{
  not_found, Server, waits, replied, Request, with_rows, list_file_and_state, try_read_from_cache,
  http_read,
}
use riverpass.Manager.Queue.{IsQueued, occurrences}
use riverpass.Server.Requests.{
  IsEnqueued, try_read_from_cache-pending, try_read_from_cache-outdated, try_read_from_cache-leaks,
}
use riverpass.Server.Served.{try_read_from_cache-serves}

abbrev name : Bytes
name = codes "u"

abbrev etag : Bytes
etag = codes "e"

abbrev meta_json : MetaJson
meta_json = sample_json name [] etag

abbrev web : Web
web = record {
  local_mode = true;
  stat = λ url. some 10;
  read_file = λ url. some body_large;
  head = λ url. none;
  get = λ url. none;
}

abbrev mgr : CacheManager
mgr = record {
  write_item_map = [];
  w_queue = [];
  purge_item_map = [];
  p_queue = [];
  rows = [];
  pbh = empty;
}

abbrev server : Server
server = record { mgr = mgr; locked = false }

abbrev request : Request
request = record { lists = true; creates = true; updates = true; elapsed = 3 }

abbrev meta_u : FileMeta
meta_u = record {
  name = name;
  id = [];
  owner_list = some ([] ∷ []);
  blob_id = [];
  rng_code_list = some [];
  etag = etag;
}

not_there :
    http_read meta_json config request server name (some (404, [])) ≡ ok (server, some not_found)
unfolding http_read
not_there = refl

decoded_u : unmarshal_meta meta_json (codes "m") ≡ ok meta_u
unfolding unmarshal_meta db_file_meta2file_meta split
decoded_u = refl

storable : IsStorable meta_json meta_u blb body_large
storable token h = (
  file_meta_round_trip meta_json _ [] []
      (record { start = pos 0; end = pos 10; token = token } ∷ []) refl (tt, tt) refl
      (sample-IsReadable name [] etag 0 10 token, tt),
  unfold file_meta2db_file_meta join in refl,
  refl,
)

exists : (check_url web config.cache_max name).0 ≡ true
unfolding check_url
exists = refl

fetched : download web name (check_url web config.cache_max name).1 ≡ ok (some body_large)
unfolding check_url download
fetched = refl

abbrev row_u : FileRow
row_u = record { fid = name; file_meta = codes "m"; owners = []; state = pending }

found_u :
    (state : ℕ)
    → row_of name (record row_u { state = state } ∷ []) ≡ some (record row_u { state = state })
unfolding row_of str_eq
found_u state = refl

cached :
    (after : CacheManager) × (download_and_write_cache json meta_json config env 7 true web
        (with_rows mgr (row_u ∷ []))
        name
        name
        blb
      ≡ ok after)
    × IsCached meta_json config after name meta_u body_large
    × ((j : Bytes) → str_eq name j ≡ false → row_of j after.rows ≡ row_of j (row_u ∷ []))
cached =
    download_and_write_cache-IsCached json meta_json config env 7 web (with_rows mgr (row_u ∷ []))
      name name blb body_large row_u meta_u exists fetched (omega arith) sample_large
      (found_u pending) decoded_u storable

no_row : row_of name mgr.rows ≡ none
unfolding row_of
no_row = refl

text_u :
    unmarshal_meta meta_json (
      meta_json.meta_text (
        file_meta2db_file_meta meta_json
          (record meta_u { owner_list = none; rng_code_list = none })))
    ≡ ok meta_u
unfolding file_meta2db_file_meta unmarshal_meta db_file_meta2file_meta split
text_u = refl

no_names : IsQueued mgr.w_queue mgr.write_item_map
unfolding occurrences load
no_names j = refl

try_read_from_cache-pending_example :
    (after : Server) × (row : FileRow) × (id : Bytes) × (try_read_from_cache meta_json config
        request server name etag
      ≡ ok (after, replied (ok none)))
    × (after.locked ≡ false)
    × (after.mgr ≡ enqueue_write_req (with_rows mgr ([] ++ row ∷ [])) name name)
    × (row_of name after.mgr.rows ≡ some row)
    × (row.state ≡ pending)
    × (unmarshal_meta meta_json row.file_meta ≡ ok meta_u)
    × (load name after.mgr.write_item_map ≡ some id)
    × IsEnqueued after.mgr name
    × (try_read_from_cache meta_json config request after name (codes "f")
        ≡ ok (after, replied (ok none)))
try_read_from_cache-pending_example =
    try_read_from_cache-pending meta_json config server name etag refl request request (codes "f")
      meta_u refl refl refl no_names no_row refl text_u

differs : str_eq (codes "f") etag ≡ false
unfolding str_eq
differs = refl

try_read_from_cache-outdated_example :
    (after : Server) × (id : Bytes) × (try_read_from_cache meta_json config request
        (record server { mgr = with_rows mgr (record row_u { state = ready } ∷ []) })
        name
        (codes "f")
      ≡ ok (after, replied (ok none)))
    × (after.locked ≡ false)
    × (load name after.mgr.write_item_map ≡ some id)
    × IsEnqueued after.mgr name
    × ((j : Bytes)
        → row_of j after.mgr.rows ≡ (
            if str_eq name j
            then some (record row_u {
              file_meta =
                  meta_json.meta_text
                    (file_meta2db_file_meta meta_json (record meta_u { etag = codes "f" }));
              state = pending;
            })
            else row_of j (record row_u { state = ready } ∷ [])))
try_read_from_cache-outdated_example =
    try_read_from_cache-outdated meta_json config
      (record server { mgr = with_rows mgr (record row_u { state = ready } ∷ []) }) name (codes "f")
      refl request (record row_u { state = ready }) meta_u refl refl no_names (found_u ready) refl
      refl decoded_u differs

fails : list_file_and_state meta_json config false [] name ≡ err db_error
unfolding list_file_and_state list_file_and_state_from_db
fails = refl

try_read_from_cache-leaks_example :
    (after : Server) × (try_read_from_cache meta_json config
        (record request { lists = false })
        server
        name
        etag
      ≡ ok (after, replied (err db_error)))
    × ((req2 : Request) (file_name2 etag2 : Bytes)
        → try_read_from_cache meta_json config req2 after file_name2 etag2 ≡ ok (after, waits))
try_read_from_cache-leaks_example =
    try_read_from_cache-leaks meta_json config server name etag refl
      (record request { lists = false }) db_error (inl fails)

try_read_from_cache-serves_example :
    (after : Server) × (try_read_from_cache meta_json config request
        (record { mgr = cached.0; locked = false })
        name
        etag
      ≡ ok (after, replied (ok (some body_large))))
    × (after.locked ≡ false)
    × (after.mgr.rows ≡ cached.0.rows)
try_read_from_cache-serves_example =
    try_read_from_cache-serves meta_json config (record { mgr = cached.0; locked = false }) name
      body_large meta_u request refl refl (omega arith) (omega arith) (omega arith) cached.2
