-- ===== src/Server.antt =====
-- server/holder/src/oss_cache_main.go: the server that answers requests from the cache. `mgr` holds
-- the files table and the blobs that the server shares with the cache manager. A request that finds
-- the mutex held waits. What the database and the object store answer is an argument.
pub mod Requests
pub mod Served
mod Tests
use riverpass.Prelude.{
  ℕ, Bool, true, false, not, Option, none, some, List, [], ◌∷◌, ◌++◌, inl, inr, ◌==◌, ltb,
  if◌then◌else◌, length,
}
use riverpass.Prelude.Int.{ℤ, pos, negsuc, eqb_ℤ}
use riverpass.Prelude.Text.{Bytes, codes, str_eq}
use riverpass.Prelude.Result.{
  Result, ok, err, crash, Error, meta_nil, not_in_cache, invalid_state, ◌>>=◌,
}
use riverpass.RangeCode.{RangeCode, itoa}
use riverpass.Meta.{FileMeta, MetaJson}
use riverpass.FileTable.{
  FileRow, list_file_from_db, list_file_and_state_from_db, create_file_with_fid_in_db,
  update_filemeta_and_state_in_db, pending, ready,
}
use riverpass.Holder.Triplet.{Config, PhyBh}
use riverpass.Holder.Put.{attempt}
use riverpass.FileReader.{read_from_cache}
use riverpass.Manager.{CacheManager, enqueue_write_req, rows_after, cache_purge_waiting_ms}

pub record Server : Type 0 where
  pub mgr : CacheManager
  pub locked : Bool

pub data Reply : Type 0 where
  waits : Reply
  replied : Result (Option Bytes) → Reply

-- Which statements run, and how long the request has taken when it reads.
pub record Request : Type 0 where
  pub lists : Bool
  pub creates : Bool
  pub updates : Bool
  pub elapsed : ℕ

abbrev pub with_rows : CacheManager → List FileRow → CacheManager
with_rows mgr rows = record mgr { rows = rows }

abbrev pub file_for : Bytes → Bytes → FileMeta
file_for file_name etag = record {
  name = file_name;
  id = [];
  owner_list = none;
  blob_id = [];
  rng_code_list = none;
  etag = etag;
}

-- The error or the bytes of a read, as the request gives them back.
abbrev pub bytes_of : Result Bytes → Result (Option Bytes)
bytes_of (ok bytes) = ok (some bytes)
bytes_of (err e) = err e
bytes_of crash = crash

-- The answer of the handler.
pub record HttpReply : Type 0 where
  pub status : ℕ
  pub content_type : Bytes
  pub content_disposition : Bytes
  pub content_length : Bytes
  pub body : Bytes

abbrev pub not_found : HttpReply
not_found = record {
  status = 404;
  content_type = [];
  content_disposition = [];
  content_length = [];
  body = [];
}

abbrev pub answer : Bytes → Option Bytes → HttpReply
answer url none = not_found
answer url (some bytes) = record {
  status = 200;
  content_type = codes "application/octet-stream";
  content_disposition = codes "attachment;filename=" ++ url;
  content_length = itoa (pos (length bytes));
  body = bytes;
}

abbrev pub respond : Bytes → Reply → Result (Option HttpReply)
respond url waits = ok none
respond url (replied (ok bytes)) = ok (some (answer url bytes))
respond url (replied (err e)) = ok (some not_found)
respond url (replied crash) = crash

module _ (json : MetaJson) (config : Config) where
  unfoldable pub list_file : Bool → List FileRow → Bytes → ℕ → Result (Option FileMeta)
  list_file runs rows file_name state = list_file_from_db json runs rows file_name state

  unfoldable pub list_file_and_state : Bool → List FileRow → Bytes → Result (Option FileMeta × ℤ)
  list_file_and_state runs rows file_name = list_file_and_state_from_db json runs rows file_name

  unfoldable pub create_file_for_cache :
      Bool → List FileRow → Bytes → Bytes → Result (List FileRow × Bytes)
  create_file_for_cache runs rows file_name etag = do
    rows1 ← create_file_with_fid_in_db json runs rows file_name (file_for file_name etag)
    ok (rows1, file_name)

  -- The offset is the start of the first range and the size its end.
  unfoldable pub read_ranges : ℕ → Server → Option (List RangeCode) → Result (Server × Reply)
  read_ranges elapsed s none = ok (s, replied (ok none))
  read_ranges elapsed s (some []) = crash
  read_ranges elapsed s (some (rc ∷ rcs)) =
      if ltb cache_purge_waiting_ms elapsed
      then ok (s, replied (err not_in_cache))
      else (read_from_cache config s.mgr.pbh rc.start rc.end (rc ∷ rcs) >>= λ done.
          ok (record s { mgr = record s.mgr { pbh = done.0 } }, replied (bytes_of done.1)))

  -- The error of the update is dropped.
  unfoldable pub redownload : Request → Server → Bytes → Bytes → FileMeta → Result (Server × Reply)
  redownload req s file_name etag fm = do
    rows ← rows_after s.mgr.rows (
        update_filemeta_and_state_in_db json req.updates s.mgr.rows file_name
          (record fm { etag = etag }) pending)
    ok (
      record s { mgr = enqueue_write_req (with_rows s.mgr rows) file_name file_name },
      replied (ok none),
    )

  unfoldable pub read_ready :
      Request → Server → Bytes → Bytes → Option FileMeta → Result (Server × Reply)
  unfolding read_ranges redownload
  read_ready req s file_name etag none = ok (s, replied (err meta_nil))
  read_ready req s file_name etag (some fm) =
      if str_eq etag fm.etag
      then read_ranges req.elapsed s fm.rng_code_list
      else redownload req s file_name etag fm

  -- After the unlock.
  unfoldable pub read_state :
      Request → Server → Bytes → Bytes → Option FileMeta → ℤ → Result (Server × Reply)
  unfolding read_ready
  read_state req s file_name etag fm state =
      if eqb_ℤ state (pos pending)
      then ok (s, replied (ok none))
      else if eqb_ℤ state (pos ready)
      then read_ready req s file_name etag fm
      else ok (s, replied (err invalid_state))

  -- The file is not in the table; an error returns with the mutex held.
  unfoldable pub read_missing : Request → Server → Bytes → Bytes → Result (Server × Reply)
  unfolding create_file_for_cache
  read_missing req s file_name etag = do
    created ← attempt (create_file_for_cache req.creates s.mgr.rows file_name etag)
    elim created [
      | inr e ↦ ok (s, replied (err e))
      | inl made ↦ ok (
        record s {
          mgr = enqueue_write_req (with_rows s.mgr made.0) made.1 file_name;
          locked = false;
        },
        replied (ok none),
      )
    ]

  unfoldable pub try_read_from_cache : Request → Server → Bytes → Bytes → Result (Server × Reply)
  unfolding read_missing read_state list_file_and_state
  try_read_from_cache req s file_name etag =
      if s.locked
      then ok (s, waits)
      else let held = record s { locked = true } in
        (attempt (list_file_and_state req.lists held.mgr.rows file_name) >>= λ listed. elim listed [
          | inr e ↦ ok (held, replied (err e))
          | inl found ↦
              if eqb_ℤ found.1 (negsuc 0)
              then read_missing req held file_name etag
              else read_state req (record held { locked = false }) file_name etag found.0 found.1
        ])

  -- `resp` is what `http.Get` finds: the status and the entity tag. `none` in the result waits.
  unfoldable pub http_read :
      Request → Server → Bytes → Option (ℕ × Bytes) → Result (Server × Option HttpReply)
  unfolding try_read_from_cache
  http_read req s url none = crash
  http_read req s url (some resp) =
      if resp.0 == 200
      then (try_read_from_cache req s url resp.1 >>= λ done.
          respond url done.1 >>= λ reply. ok (done.0, reply))
      else ok (s, some not_found)
