-- ===== src/FileWriter.antt =====
-- server/holder/src/file_handler/file_writer.go: writing a blob of a file, or a whole file, and
-- closing a file. A nil pointer is `none`. What a failed step leaves behind stays: the inner result
-- is the method's, and the writer is given back with it. `blob_id` is the random identifier.
pub mod Write
mod Tests
use riverpass.Prelude.{Bool, true, false, Option, none, some, List, [], ◌∷◌, inl, inr}
use riverpass.Prelude.Int.{ℤ}
use riverpass.Prelude.Text.{Bytes}
use riverpass.Prelude.Result.{Result, ok, err, crash, check, writer_not_ready, ◌>>=◌, ◌>>◌}
use riverpass.Token.{generate_blob_token}
use riverpass.Meta.{MetaJson}
use riverpass.FileTable.{FileRow, commit_file_in_db}
use riverpass.Segments.{SegJson, SegRow, create_blob_seg_in_db, commit_blob_in_db}
use riverpass.Holder.{Json}
use riverpass.Holder.Triplet.{Config, PhyBh, deref}
use riverpass.Holder.Put as Put
use riverpass.Holder.Put.{Env, attempt}
use riverpass.FileReader.{add32}

pub record FileWriter : Type 0 where
  pub pbh : Option PhyBh
  pub blob_seg_db : Option (List SegRow)
  pub file_db : Option (List FileRow)

abbrev pub is_some {ℓ} : {A : Type ℓ} → Option A → Bool
is_some none = false
is_some (some a) = true

unfoldable pub check_uploader : FileWriter → Result (Unit {0})
check_uploader fu = do
  check (is_some fu.pbh) writer_not_ready
  check (is_some fu.file_db) writer_not_ready

-- Which statements of the database run.
pub record Statements : Type 0 where
  pub creates : Bool
  pub begins : Bool
  pub selects : Bool
  pub finds : Bool
  pub sets : Bool
  pub updates : Bool
  pub commits : Bool

module _ (json : Json) (config : Config) (env : Env) where
  unfoldable pub write_file_to_cache :
      FileWriter → Bytes → Bytes → Result (FileWriter × Result Bytes)
  unfolding check_uploader
  write_file_to_cache fu blob_id bytes = do
    checked ← attempt (check_uploader fu)
    elim checked [
      | inr e ↦ ok (fu, err e)
      | inl fine ↦
          (deref fu.pbh >>= λ pbh. Put.put json config env pbh blob_id bytes >>= λ done.
          ok (record fu { pbh = some done.0 }, done.1))
    ]

  module _ (seg_json : SegJson) (meta_json : MetaJson) (db : Statements) where
    -- The commit of `WriteAt`, after its `Put`.
    unfoldable pub commit_at :
        FileWriter → Bytes → List ℤ → Result Bytes → Result (FileWriter × Result (Unit {0}))
    commit_at fu fid rng crash = crash
    commit_at fu fid rng (err e) = ok (fu, err e)
    commit_at fu fid rng (ok full_token) = do
      segs ← deref fu.blob_seg_db
      rows ← deref fu.file_db
      committed ← attempt (
          commit_blob_in_db seg_json meta_json db.begins db.selects db.finds db.sets db.updates
            db.commits (segs, rows) rng fid full_token)
      elim committed [
        | inr e ↦ ok (fu, err e)
        | inl tables ↦
            ok (record fu { blob_seg_db = some tables.0; file_db = some tables.1 }, ok tt)
      ]

    unfoldable pub write_at :
        FileWriter → Bytes → Bytes → ℤ → ℤ → Bytes → Result (FileWriter × Result (Unit {0}))
    unfolding check_uploader commit_at
    write_at fu blob_id fid offset size bytes = do
      checked ← attempt (check_uploader fu)
      elim checked [
        | inr e ↦ ok (fu, err e)
        | inl fine ↦
            let rng = offset ∷ add32 offset size ∷ [] in
            let partial_token = generate_blob_token [] blob_id in
            (deref fu.blob_seg_db >>= λ segs.
            attempt (create_blob_seg_in_db seg_json db.creates segs rng fid partial_token)
            >>= λ created. elim created [
              | inr e ↦ ok (fu, err e)
              | inl segs1 ↦
                  (deref fu.pbh >>= λ pbh. Put.put json config env pbh blob_id bytes >>= λ done.
                  commit_at (record fu { pbh = some done.0; blob_seg_db = some segs1 }) fid rng
                    done.1)
            ])
      ]

    unfoldable pub close : FileWriter → Bytes → Result (FileWriter × Result (Unit {0}))
    close fu fid = do
      rows ← deref fu.file_db
      sealed ←
          attempt (commit_file_in_db meta_json db.begins db.selects db.updates db.commits rows fid)
      elim sealed [
        | inr e ↦ ok (fu, err e)
        | inl rows1 ↦ ok (record fu { file_db = some rows1 }, ok tt)
      ]
