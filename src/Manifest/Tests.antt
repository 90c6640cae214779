-- ===== src/Manifest/Tests.antt =====
-- Tests of the manifest, and its theorems at a concrete header.
use riverpass.Prelude.{
  ℕ, ◌≡◌, refl, false, Option, none, some, List, [], ◌∷◌, ◌++◌, arith, if◌then◌else◌, length-append,
  length-replicate, replicate, map,
}
use riverpass.Prelude.Int.{pos}
use riverpass.Prelude.Text.{Bytes, codes, str_eq, str_eq_self}
use riverpass.Prelude.Result.{ok, err, io_error}
use riverpass.Prelude.Maps.{load}
use riverpass.Log.{written_len, flush}
use riverpass.Log.Layout.{log_file}
use riverpass.Manifest.{
  MfEntry, MfHeader, mf_new, mf_put, mf_delete, mf_flush, mf_entry, put_action, delete_action,
  mf_entry_len,
}
use riverpass.Manifest.Reload.{
  IsWritten, MfFits, MfReads, mf_pad, mf_texts, is_deleted, actions-IsWritten, deletion_log-mf_new,
}

abbrev name_a : Bytes
name_a = codes "a"

-- An entry as its name and its padding.
abbrev marshal : MfEntry → Bytes
marshal e = e.blob_id ++ e.padding

abbrev logged : List MfEntry
logged = mf_entry name_a put_action ∷ mf_entry name_a delete_action ∷ []

abbrev held : MfHeader
held = record {
  empty = false;
  shard_id = pos 1;
  triplet_id = codes "t";
  local_name = codes "f";
  file = some (log_file [] (mf_texts marshal logged));
  deletion_log = [];
}

-- A reader of the file of `held` only.
abbrev unmarshal : Bytes → Option (List MfEntry)
unmarshal text =
    if str_eq text (log_file [] (map marshal (map (mf_pad marshal) logged)))
    then some (map (mf_pad marshal) logged)
    else none

held-IsWritten : IsWritten marshal held logged
held-IsWritten = record { on_disk = refl; emptiness = refl }

fits : (action : ℕ) → MfFits marshal (mf_entry name_a action)
fits action = (
  λ n. omega (
    arith,
    length-append name_a (replicate n b'#'),
    length-append name_a [],
    length-replicate {A = ℕ} n b'#',
  ),
  omega (arith, length-append name_a []),
)

no_file : mf_put marshal (record held { file = none }) name_a ≡ err io_error
unfolding mf_put mf_flush flush
no_file = refl

actions-IsWritten_example :
    ((after : MfHeader) × (mf_put marshal held name_a
        ≡ ok (after, written_len mf_entry_len held.empty))
      × IsWritten marshal after (logged ++ mf_entry name_a put_action ∷ []))
    × ((after : MfHeader) × (mf_delete marshal held name_a
          ≡ ok (after, written_len mf_entry_len held.empty))
        × IsWritten marshal after (logged ++ mf_entry name_a delete_action ∷ []))
actions-IsWritten_example =
    actions-IsWritten marshal held logged name_a held-IsWritten (fits put_action)
      (fits delete_action)

held-MfReads : MfReads marshal unmarshal (map (mf_pad marshal) logged)
held-MfReads = rw (str_eq_self (log_file [] (map marshal (map (mf_pad marshal) logged)))) refl

deletion_log-mf_new_example :
    (after : MfHeader) × (size : ℕ) × (mf_new marshal unmarshal [] (pos 1) (codes "t") held.file
      ≡ ok (after, size))
    × IsWritten marshal after logged
    × ((j : Bytes)
        → load j after.deletion_log ≡ (if is_deleted j logged then some delete_action else none))
deletion_log-mf_new_example =
    deletion_log-mf_new marshal unmarshal [] (pos 1) (codes "t") held logged held-IsWritten
      held-MfReads
