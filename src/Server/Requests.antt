-- ===== src/Server/Requests.antt =====
-- What a request does to the files table, to the queue and to the mutex.
use riverpass.Prelude.{
  ◌≡◌, refl, ap, ◌∙◌, ◌⊎◌, inl, inr, true, false, Bool-cases, none, some, Option-cases, List, [],
  ◌∷◌, ◌++◌, if◌then◌else◌,
}
use riverpass.Prelude.Int.{pos, negsuc}
use riverpass.Prelude.Text.{Bytes, str_eq, str_eq_self}
use riverpass.Prelude.Result.{ok, err, Error}
use riverpass.Prelude.Maps.{load, load-store_self}
use riverpass.Meta.{FileMeta, MetaJson, file_meta2db_file_meta, is_empty}
use riverpass.FileTable.{
  FileRow, row_of, update_of, pending, ready, unmarshal_meta, list_file_and_state_from_db,
  create_file_with_fid_in_db, update_filemeta_and_state_in_db,
}
use riverpass.FileTable.Commit.{update-row}
use riverpass.Holder.Triplet.{Config}
use riverpass.Manager.{CacheManager, enqueue_write_req}
use riverpass.Manager.Queue.{IsQueued, occurrences, expected, enqueued-IsQueued}
use riverpass.Server.{
  Server, waits, replied, Request, file_for, with_rows, list_file_and_state, create_file_for_cache,
  redownload, read_ready, read_state, read_missing, try_read_from_cache,
}

row_of-append :
    (fid : Bytes) (rows : List FileRow) (r : FileRow)
    → row_of fid rows ≡ none
    → r.fid ≡ fid
    → row_of fid (rows ++ r ∷ []) ≡ some r
unfolding row_of
row_of-append fid [] r free f = rw (f, str_eq_self fid) refl
row_of-append fid (q ∷ rows) r free f = elim (Bool-cases (str_eq q.fid fid)) [
  | inl hit ↦ cc (rw hit at free)
  | inr miss ↦ rw miss (row_of-append fid rows r (rw miss at free) f)
]

-- The queue and its map agree, and the file stands once in the queue.
abbrev pub IsEnqueued : CacheManager → Bytes → Type 0
IsEnqueued mgr file_name =
    IsQueued mgr.w_queue mgr.write_item_map × (occurrences file_name mgr.w_queue ≡ 1)

in_map :
    (mgr : CacheManager) (fid file_name : Bytes)
    → (id : Bytes) × (load file_name (enqueue_write_req mgr fid file_name).write_item_map ≡ some id)
unfolding enqueue_write_req
in_map mgr fid file_name = elim (Option-cases (load file_name mgr.write_item_map)) [
  | inl new ↦ (fid, rw new (load-store_self file_name fid mgr.write_item_map))
  | inr (id, old) ↦ (id, rw old old)
]

-- An enqueued file is in the map, and once in the queue.
enqueued :
    (mgr : CacheManager) (fid file_name : Bytes)
    → IsQueued mgr.w_queue mgr.write_item_map
    → (id : Bytes) × (load file_name (enqueue_write_req mgr fid file_name).write_item_map ≡ some id)
      × IsEnqueued (enqueue_write_req mgr fid file_name) file_name
enqueued mgr fid file_name queued =
    let (id, here) = in_map mgr fid file_name in
    let agree = enqueued-IsQueued mgr fid file_name queued in
    (id, here, (agree, agree file_name ∙ ap expected here))

enqueued-rows :
    (mgr : CacheManager) (fid file_name : Bytes)
    → (enqueue_write_req mgr fid file_name).rows ≡ mgr.rows
unfolding enqueue_write_req
enqueued-rows mgr fid file_name = elim (Option-cases (load file_name mgr.write_item_map)) [
  | inl new ↦ rw new refl
  | inr (id, old) ↦ rw old refl
]

-- What the table says of a file with a row.
pub listed_row :
    (json : MetaJson) (rows : List FileRow) (fid : Bytes) (r : FileRow) (fm : FileMeta)
    → row_of fid rows ≡ some r
    → is_empty r.file_meta ≡ false
    → unmarshal_meta json r.file_meta ≡ ok fm
    → list_file_and_state_from_db json true rows fid ≡ ok (some fm, pos r.state)
unfolding list_file_and_state_from_db
listed_row json rows fid r fm row text decoded = rw (row, text, decoded) refl

listed_missing :
    (json : MetaJson) (rows : List FileRow) (fid : Bytes)
    → row_of fid rows ≡ none
    → list_file_and_state_from_db json true rows fid ≡ ok (none, negsuc 0)
unfolding list_file_and_state_from_db
listed_missing json rows fid row = rw row refl

module _ (json : MetaJson) (config : Config) (s : Server) (file_name etag : Bytes)
    (free : s.locked ≡ false) where
  abbrev new_text : Bytes
  new_text = json.meta_text (file_meta2db_file_meta json (file_for file_name etag))

  -- A request for a file that is not in the table, when the mutex is free, each name of the queue's map
  -- stands once in the queue and no other name does, the statements run, and the JSON text of the new
  -- meta data is read back and not empty: the answer is that there are no bytes, the mutex is free, the
  -- table has gained a pending row for the file, the file stands once in the queue and is in its map,
  -- which still agree, and a further request, with any entity tag, has the same answer and changes
  -- nothing.
  pub try_read_from_cache-pending :
      (req req2 : Request) (etag2 : Bytes) (fm : FileMeta)
      → req.lists ≡ true
      → req.creates ≡ true
      → req2.lists ≡ true
      → IsQueued s.mgr.w_queue s.mgr.write_item_map
      → row_of file_name s.mgr.rows ≡ none
      → is_empty new_text ≡ false
      → unmarshal_meta json new_text ≡ ok fm
      → (after : Server) × (row : FileRow) × (id : Bytes) × (try_read_from_cache json config req s
            file_name etag
          ≡ ok (after, replied (ok none)))
        × (after.locked ≡ false)
        × (after.mgr
            ≡ enqueue_write_req (with_rows s.mgr (s.mgr.rows ++ row ∷ [])) file_name file_name)
        × (row_of file_name after.mgr.rows ≡ some row)
        × (row.state ≡ pending)
        × (unmarshal_meta json row.file_meta ≡ ok fm)
        × (load file_name after.mgr.write_item_map ≡ some id)
        × IsEnqueued after.mgr file_name
        × (try_read_from_cache json config req2 after file_name etag2
            ≡ ok (after, replied (ok none)))
  unfolding try_read_from_cache list_file_and_state read_missing create_file_for_cache
      create_file_with_fid_in_db read_state
  try_read_from_cache-pending req req2 etag2 fm lists creates lists2 agree row text decoded =
      let made : FileRow = record {
        fid = file_name;
        file_meta = new_text;
        owners = (file_meta2db_file_meta json (file_for file_name etag)).owner_list;
        state = pending;
      } in
      let rows : List FileRow = s.mgr.rows ++ made ∷ [] in
      let mgr : CacheManager = enqueue_write_req (with_rows s.mgr rows) file_name file_name in
      let found : row_of file_name mgr.rows ≡ some made =
        ap (row_of file_name) (enqueued-rows (with_rows s.mgr rows) file_name file_name)
        ∙ row_of-append file_name s.mgr.rows made row refl in
      let (id, here, queued) = enqueued (with_rows s.mgr rows) file_name file_name agree in
      (
        record { mgr = mgr; locked = false },
        made,
        id,
        rw (free, lists, listed_missing json s.mgr.rows file_name row, creates, row) refl,
        refl,
        refl,
        found,
        refl,
        decoded,
        here,
        queued,
        rw (lists2, listed_row json mgr.rows file_name made fm found text decoded) refl,
      )

  -- A request with another entity tag than that of the file's ready row, whose meta data is read, when
  -- the mutex is free, each name of the queue's map stands once in the queue and no other name does, and
  -- the statements run: the answer is that there are no bytes, the mutex is free, the file stands once
  -- in the queue and is in its map, which still agree, its row is pending with the new entity tag in its
  -- meta data, and the rows of the other files are as they were.
  pub try_read_from_cache-outdated :
      (req : Request) (r : FileRow) (fm : FileMeta)
      → req.lists ≡ true
      → req.updates ≡ true
      → IsQueued s.mgr.w_queue s.mgr.write_item_map
      → row_of file_name s.mgr.rows ≡ some r
      → r.state ≡ ready
      → is_empty r.file_meta ≡ false
      → unmarshal_meta json r.file_meta ≡ ok fm
      → str_eq etag fm.etag ≡ false
      → (after : Server) × (id : Bytes) × (try_read_from_cache json config req s file_name etag
          ≡ ok (after, replied (ok none)))
        × (after.locked ≡ false)
        × (load file_name after.mgr.write_item_map ≡ some id)
        × IsEnqueued after.mgr file_name
        × ((j : Bytes)
            → row_of j after.mgr.rows ≡ (
                if str_eq file_name j
                then some (record r {
                  file_meta =
                      json.meta_text (file_meta2db_file_meta json (record fm { etag = etag }));
                  state = pending;
                })
                else row_of j s.mgr.rows))
  unfolding try_read_from_cache list_file_and_state read_state read_ready redownload
      update_filemeta_and_state_in_db
  try_read_from_cache-outdated req r fm lists updates agree row is_ready text decoded outdated =
      let f : FileRow → FileRow = λ q. record q {
        file_meta = json.meta_text (file_meta2db_file_meta json (record fm { etag = etag }));
        state = pending;
      } in
      let mgr1 : CacheManager = with_rows s.mgr (update_of file_name f s.mgr.rows) in
      let (id, here, queued) = enqueued mgr1 file_name file_name agree in
      (
        record { mgr = enqueue_write_req mgr1 file_name file_name; locked = false },
        id,
        rw
            (
              free,
              lists,
              listed_row json s.mgr.rows file_name r fm row text decoded,
              is_ready,
              outdated,
              updates,
            )
            refl,
        refl,
        here,
        queued,
        λ j.
            ap (row_of j) (enqueued-rows mgr1 file_name file_name)
            ∙ update-row file_name j f s.mgr.rows r (λ q. refl) row,
      )

  -- When the state of the file cannot be listed, or a missing file cannot be created, the request
  -- answers with the error, and every later request, for any file, waits.
  pub try_read_from_cache-leaks :
      (req : Request) (e : Error)
      → (list_file_and_state json config req.lists s.mgr.rows file_name ≡ err e)
        ⊎ ((list_file_and_state json config req.lists s.mgr.rows file_name ≡ ok (none, negsuc 0))
            × (create_file_for_cache json config req.creates s.mgr.rows file_name etag ≡ err e))
      → (after : Server) × (try_read_from_cache json config req s file_name etag
          ≡ ok (after, replied (err e)))
        × ((req2 : Request) (file_name2 etag2 : Bytes)
            → try_read_from_cache json config req2 after file_name2 etag2 ≡ ok (after, waits))
  unfolding try_read_from_cache read_missing
  try_read_from_cache-leaks req e failure = (
    record s { locked = true },
    elim failure [
      | inl lists ↦ rw (free, lists) refl
      | inr (lists, creates) ↦ rw (free, lists, creates) refl
    ],
    λ req2 file_name2 etag2. refl,
  )
