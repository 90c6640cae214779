-- ===== src/Manifest/Reload.antt =====
-- The manifest survives a restart: its deletion log is what `Delete` has written.
use riverpass.Prelude.{
  ℕ, ◌+◌, ◌≤◌, ◌≡◌, refl, sym, ap, subst, ◌∙◌, true, false, Bool, ◌&&◌, ◌||◌, inl, inr, Bool-cases,
  Option, none, some, List, [], ◌∷◌, ◌++◌, arith, ◌==◌, if◌then◌else◌, length, map,
}
use riverpass.Prelude.Int.{ℤ}
use riverpass.Prelude.Text.{Bytes, str_eq}
use riverpass.Prelude.Result.{ok}
use riverpass.Prelude.Maps.{Map, load, store, load-store}
use riverpass.Log.{flush, written_len, padding}
use riverpass.Log.Layout.{is_empty, log_file, padded, Pads, flush_lem}
use riverpass.Manifest.{
  MfEntry, MfHeader, mf_text_of, mf_entry_len, mf_entry, put_action, delete_action, deletions,
  no_entries, mf_load, mf_new, mf_flush, mf_put, mf_delete, mf_blank,
}

abbrev pub mf_pad : (MfEntry → Bytes) → MfEntry → MfEntry
mf_pad marshal e = record e { padding = padding mf_entry_len (mf_text_of marshal e) }

abbrev pub mf_texts : (MfEntry → Bytes) → List MfEntry → List Bytes
mf_texts marshal es = map (λ e. padded mf_entry_len (mf_text_of marshal e)) es

-- The file lists the entries.
pub record IsWritten (marshal : MfEntry → Bytes) (mfh : MfHeader) (es : List MfEntry) : Type 0 where
  pub on_disk : mfh.file ≡ some (log_file [] (mf_texts marshal es))
  pub emptiness : mfh.empty ≡ is_empty es

-- `json.Unmarshal` reads the array of what `json.Marshal` writes.
abbrev pub MfReads : (MfEntry → Bytes) → (Bytes → Option (List MfEntry)) → List MfEntry → Type 0
MfReads marshal unmarshal es = unmarshal (log_file [] (map marshal es)) ≡ some es

abbrev pub MfFits : (MfEntry → Bytes) → MfEntry → Type 0
MfFits marshal e =
    Pads (mf_text_of marshal e) × (length (mf_text_of marshal e []) + 2 ≤ mf_entry_len)

-- Whether a list of actions deletes the blob.
unfoldable pub is_deleted : Bytes → List MfEntry → Bool
is_deleted j [] = false
is_deleted j (e ∷ es) = (e.action == delete_action && str_eq e.blob_id j) || is_deleted j es

map-snoc :
    (f : MfEntry → Bytes) (es : List MfEntry) (e : MfEntry)
    → map f (es ++ e ∷ []) ≡ map f es ++ f e ∷ []
map-snoc f [] e = refl
map-snoc f (x ∷ es) e = ap (◌∷◌ (f x)) (map-snoc f es e)

is_empty-map : (f : MfEntry → Bytes) (es : List MfEntry) → is_empty (map f es) ≡ is_empty es
is_empty-map f [] = refl
is_empty-map f (x ∷ es) = refl

is_empty-snoc : (es : List MfEntry) (e : MfEntry) → is_empty (es ++ e ∷ []) ≡ false
is_empty-snoc [] e = refl
is_empty-snoc (x ∷ es) e = refl

texts-pad :
    (marshal : MfEntry → Bytes) (es : List MfEntry)
    → mf_texts marshal (map (mf_pad marshal) es) ≡ mf_texts marshal es
texts-pad marshal [] = refl
texts-pad marshal (e ∷ es) =
    ap (◌∷◌ (padded mf_entry_len (mf_text_of marshal e))) (texts-pad marshal es)

marshal-pad :
    (marshal : MfEntry → Bytes) (es : List MfEntry)
    → map marshal (map (mf_pad marshal) es) ≡ mf_texts marshal es
marshal-pad marshal [] = refl
marshal-pad marshal (e ∷ es) =
    ap (◌∷◌ (padded mf_entry_len (mf_text_of marshal e))) (marshal-pad marshal es)

load-deletions :
    (j : Bytes) (es : List MfEntry) (log : Map ℕ)
    → load j (deletions es log) ≡ (if is_deleted j es then some delete_action else load j log)
unfolding deletions is_deleted
load-deletions j [] log = refl
load-deletions j (e ∷ es) log = elim (Bool-cases (e.action == delete_action)) [
  | inl d ↦
      let a : e.action ≡ delete_action = ground arith in
      rw
        (
          d,
          load-deletions j es (store e.blob_id e.action log),
          load-store e.blob_id j e.action log,
          a,
        )
        (ground arith)
  | inr n ↦ rw n (load-deletions j es log)
]

is_deleted-pad :
    (marshal : MfEntry → Bytes) (j : Bytes) (es : List MfEntry)
    → is_deleted j (map (mf_pad marshal) es) ≡ is_deleted j es
unfolding is_deleted
is_deleted-pad marshal j [] = refl
is_deleted-pad marshal j (e ∷ es) = rw (is_deleted-pad marshal j es)

emptiness-pad :
    (marshal : MfEntry → Bytes) (es : List MfEntry)
    → (if no_entries (map (mf_pad marshal) es) then true else false) ≡ is_empty es
emptiness-pad marshal [] = refl
emptiness-pad marshal (e ∷ es) = refl

-- A flush of an entry that fits succeeds and adds the entry to the file.
flush-IsWritten :
    (marshal : MfEntry → Bytes) (mfh : MfHeader) (es : List MfEntry) (e : MfEntry)
    → IsWritten marshal mfh es
    → MfFits marshal e
    → (mfh' : MfHeader) × (mf_flush marshal mfh e ≡ ok (mfh', written_len mf_entry_len mfh.empty))
      × IsWritten marshal mfh' (es ++ e ∷ [])
unfolding mf_flush
flush-IsWritten marshal mfh es e w fits =
    let text : MfEntry → Bytes = λ x. padded mf_entry_len (mf_text_of marshal x) in
    let ts : List Bytes = mf_texts marshal es in
    let em : mfh.empty ≡ is_empty ts = w.emptiness ∙ sym (is_empty-map text es) in
    let fl : flush mf_entry_len mfh.empty (mf_text_of marshal e) mfh.file
        ≡ ok (log_file [] (ts ++ text e ∷ []), written_len mf_entry_len mfh.empty) =
      rw (em, w.on_disk) (flush_lem mf_entry_len [] ts (mf_text_of marshal e) fits.0 fits.1) in
    (
      record mfh { file = some (log_file [] (ts ++ text e ∷ [])); empty = false },
      rw fl,
      record {
        on_disk = ap (λ z. some (log_file [] z)) (sym (map-snoc text es e));
        emptiness = sym (is_empty-snoc es e);
      },
    )

module _ (marshal : MfEntry → Bytes) (mfh : MfHeader) (es : List MfEntry) (blob_id : Bytes)
    (written : IsWritten marshal mfh es) where
  pub put-IsWritten :
      MfFits marshal (mf_entry blob_id put_action)
      → (after : MfHeader) × (mf_put marshal mfh blob_id
          ≡ ok (after, written_len mf_entry_len mfh.empty))
        × IsWritten marshal after (es ++ mf_entry blob_id put_action ∷ [])
  unfolding mf_put
  put-IsWritten p = flush-IsWritten marshal mfh es (mf_entry blob_id put_action) written p

  -- `Put` and `Delete` of a blob whose entries fit both succeed, return what the file grows by, and
  -- add exactly their action to the file.
  pub actions-IsWritten :
      MfFits marshal (mf_entry blob_id put_action)
      → MfFits marshal (mf_entry blob_id delete_action)
      → ((after : MfHeader) × (mf_put marshal mfh blob_id
            ≡ ok (after, written_len mf_entry_len mfh.empty))
          × IsWritten marshal after (es ++ mf_entry blob_id put_action ∷ []))
        × ((after : MfHeader) × (mf_delete marshal mfh blob_id
              ≡ ok (after, written_len mf_entry_len mfh.empty))
            × IsWritten marshal after (es ++ mf_entry blob_id delete_action ∷ []))
  unfolding mf_put mf_delete
  actions-IsWritten p d =
      (put-IsWritten p, flush-IsWritten marshal mfh es (mf_entry blob_id delete_action) written d)

-- A restart, where `json.Unmarshal` reads the array of the padded entries that the file lists, reads
-- the file back: `New` on the file succeeds, and the deletion log has a blob if and
-- only if `Delete` of it has been written.
pub deletion_log-mf_new :
    (marshal : MfEntry → Bytes) (unmarshal : Bytes → Option (List MfEntry)) (prefix : Bytes)
    (shard : ℤ) (tri : Bytes) (mfh : MfHeader) (es : List MfEntry)
    → IsWritten marshal mfh es
    → MfReads marshal unmarshal (map (mf_pad marshal) es)
    → (after : MfHeader) × (size : ℕ) × (mf_new marshal unmarshal prefix shard tri mfh.file
        ≡ ok (after, size))
      × IsWritten marshal after es
      × ((j : Bytes)
          → load j after.deletion_log ≡ (if is_deleted j es then some delete_action else none))
unfolding mf_new mf_load load
deletion_log-mf_new marshal unmarshal prefix shard tri mfh es w reads =
    let padded_es : List MfEntry = map (mf_pad marshal) es in
    let file : Bytes = log_file [] (mf_texts marshal es) in
    let u : unmarshal file ≡ some padded_es =
      subst (λ z. unmarshal (log_file [] z) ≡ some padded_es) (marshal-pad marshal es) reads in
    (
      record (mf_blank prefix shard tri) {
        file = some file;
        deletion_log = deletions padded_es [];
        empty = if no_entries padded_es then true else false;
      },
      length file,
      rw (w.on_disk, u),
      record { on_disk = refl; emptiness = emptiness-pad marshal es },
      λ j. load-deletions j padded_es [] ∙ rw (is_deleted-pad marshal j es),
    )
