-- ===== src/Index/Reload.antt =====
-- The index survives a restart: the file always lists the entries that have been put.

use riverpass.Prelude.{
  ℕ, ◌+◌, ◌≤◌, ◌≡◌, refl, sym, ap, subst, ◌∙◌, true, false, Bool, inl, inr, Bool-cases, Option,
  none, some, List, [], ◌∷◌, ◌++◌, arith, ◌==◌, if◌then◌else◌, leb, le→leb, length, map,
}
use riverpass.Prelude.Int.{ℤ}
use riverpass.Prelude.Text.{Bytes, str_eq}
use riverpass.Prelude.Result.{ok}
use riverpass.Prelude.Maps.{Map, load, store, load-store}
use riverpass.Log.{flush, written_len, padding}
use riverpass.Log.Layout.{is_empty, log_file, padded, Pads, flush_lem}
use riverpass.Index.{
  IndexEntry, IndexHeader, text_of, index_entry_len, closed_state, open_state, large_state,
  open_state, refs, index_load, index_new, index_put, index_get, fresh_entry, blank, is_nil, create,
}

-- Where a blob stands.
abbrev pub place : Option IndexEntry → Option (ℤ × ℤ)
place none = none
place (some e) = some (e.offset, e.size)

refs-snoc :
    (es : List IndexEntry) (e : IndexEntry) (m : Map IndexEntry)
    → refs (es ++ e ∷ []) m ≡ store e.blob_id e (refs es m)
unfolding refs
refs-snoc [] e m = refl
refs-snoc (x ∷ es) e m = refs-snoc es e (store x.blob_id x m)

-- An entry with the padding that the file gives it.
abbrev pub pad : (IndexEntry → Bytes) → IndexEntry → IndexEntry
pad marshal e = record e { padding = padding index_entry_len (text_of marshal e) }

-- The texts of the entries in the file.
abbrev pub texts : (IndexEntry → Bytes) → List IndexEntry → List Bytes
texts marshal es = map (λ e. padded index_entry_len (text_of marshal e)) es

-- The file has the state `mark` and lists the entries, the map is the one that `load` would make of them.
pub record IsLogged (marshal : IndexEntry → Bytes) (mark : ℕ) (ih : IndexHeader) : Type 0 where
  pub on_disk : ih.file ≡ some (log_file (mark ∷ 10 ∷ []) (texts marshal ih.entries))
  pub emptiness : ih.empty ≡ is_empty ih.entries
  pub mapped : ih.ref_map ≡ refs ih.entries []

-- `json.Unmarshal` reads the array of what `json.Marshal` writes.
abbrev pub Reads :
    (IndexEntry → Bytes) → (Bytes → Option (List IndexEntry)) → List IndexEntry → Type 0
Reads marshal unmarshal es = unmarshal (log_file [] (map marshal es)) ≡ some es

-- Every entry, before its padding, leaves room for the comma and the new line.
abbrev pub Fits : (IndexEntry → Bytes) → IndexEntry → Type 0
Fits marshal e = Pads (text_of marshal e) × (length (text_of marshal e []) + 2 ≤ index_entry_len)

map-snoc :
    (f : IndexEntry → Bytes) (es : List IndexEntry) (e : IndexEntry)
    → map f (es ++ e ∷ []) ≡ map f es ++ f e ∷ []
map-snoc f [] e = refl
map-snoc f (x ∷ es) e = ap (◌∷◌ (f x)) (map-snoc f es e)

is_empty-map : (f : IndexEntry → Bytes) (es : List IndexEntry) → is_empty (map f es) ≡ is_empty es
is_empty-map f [] = refl
is_empty-map f (x ∷ es) = refl

is_empty-snoc : (es : List IndexEntry) (e : IndexEntry) → is_empty (es ++ e ∷ []) ≡ false
is_empty-snoc [] e = refl
is_empty-snoc (x ∷ es) e = refl

texts-pad :
    (marshal : IndexEntry → Bytes) (es : List IndexEntry)
    → texts marshal (map (pad marshal) es) ≡ texts marshal es
texts-pad marshal [] = refl
texts-pad marshal (e ∷ es) =
    ap (◌∷◌ (padded index_entry_len (text_of marshal e))) (texts-pad marshal es)

marshal-pad :
    (marshal : IndexEntry → Bytes) (es : List IndexEntry)
    → map marshal (map (pad marshal) es) ≡ texts marshal es
marshal-pad marshal [] = refl
marshal-pad marshal (e ∷ es) =
    ap (◌∷◌ (padded index_entry_len (text_of marshal e))) (marshal-pad marshal es)

store-nonempty : (k : Bytes) (e : IndexEntry) (m : Map IndexEntry) → is_nil (store k e m) ≡ false
unfolding store
store-nonempty k e m = refl

refs-nonempty :
    (es : List IndexEntry) (m : Map IndexEntry) → is_nil m ≡ false → is_nil (refs es m) ≡ false
unfolding refs
refs-nonempty [] m h = h
refs-nonempty (e ∷ es) m h = refs-nonempty es (store e.blob_id e m) (store-nonempty e.blob_id e m)

nil-refs : (es : List IndexEntry) → is_nil (refs es []) ≡ is_empty es
unfolding refs
nil-refs [] = refl
nil-refs (e ∷ es) = refs-nonempty es (store e.blob_id e []) (store-nonempty e.blob_id e [])

place-store :
    (k : Bytes) (e f : IndexEntry) (m n : Map IndexEntry)
    → place (some e) ≡ place (some f)
    → ((j : Bytes) → place (load j m) ≡ place (load j n))
    → (j : Bytes) → place (load j (store k e m)) ≡ place (load j (store k f n))
place-store k e f m n same h j = elim (Bool-cases (str_eq k j)) [
  | inl here ↦ rw (load-store k j e m, load-store k j f n, here) same
  | inr other ↦ rw (load-store k j e m, load-store k j f n, other) (h j)
]

-- The padding does not move a blob.
place-refs :
    (marshal : IndexEntry → Bytes) (es : List IndexEntry) (m n : Map IndexEntry)
    → ((j : Bytes) → place (load j m) ≡ place (load j n))
    → (j : Bytes) → place (load j (refs (map (pad marshal) es) m)) ≡ place (load j (refs es n))
unfolding refs
place-refs marshal [] m n h j = h j
place-refs marshal (e ∷ es) m n h j =
    place-refs marshal es (store e.blob_id (pad marshal e) m) (store e.blob_id e n)
      (place-store e.blob_id (pad marshal e) e m n refl h) j

module _ (marshal : IndexEntry → Bytes) (unmarshal : Bytes → Option (List IndexEntry)) where
  -- `New` of a triplet without a file writes five bytes, with the mark of a large triplet for a large
  -- one, and makes a header that they describe; in memory it is open in both cases.
  pub create-IsLogged :
      (prefix : Bytes) (shard : ℤ) (tri : Bytes) (is_large : Bool)
      → (ih : IndexHeader) × (index_new marshal unmarshal prefix shard tri is_large none
          ≡ ok (ih, 5))
        × (ih.state ≡ open_state)
        × IsLogged marshal (if is_large then large_state else open_state) ih
  unfolding index_new create refs
  create-IsLogged prefix shard tri is_large = (
    (create (blank prefix shard tri) (if is_large then large_state else open_state)).0,
    refl,
    refl,
    record { on_disk = refl; emptiness = refl; mapped = refl },
  )

  -- `Put` of an entry that fits, in a header that its file describes and that is not closed,
  -- succeeds. It returns what the file
  -- has grown by, the blob is found at its new place, and every other blob where it was.
  pub put-IsLogged :
      {mark : ℕ} (ih : IndexHeader) (blob_id : Bytes) (offset size : ℤ)
      → IsLogged marshal mark ih
      → (ih.state == closed_state) ≡ false
      → Fits marshal (fresh_entry blob_id offset size)
      → (ih' : IndexHeader) × (index_put marshal ih blob_id offset size
          ≡ ok (ih', written_len index_entry_len ih.empty))
        × IsLogged marshal mark ih'
        × ((j : Bytes)
            → place (index_get ih' j)
              ≡ (if str_eq blob_id j then some (offset, size) else place (index_get ih j)))
  unfolding index_put index_get
  put-IsLogged {mark} ih blob_id offset size l o fits =
      let ie : IndexEntry = fresh_entry blob_id offset size in
      let ts : List Bytes = texts marshal ih.entries in
      let em : ih.empty ≡ is_empty ts =
        l.emptiness
        ∙ sym (is_empty-map (λ e. padded index_entry_len (text_of marshal e)) ih.entries) in
      let fl : flush index_entry_len ih.empty (text_of marshal ie) ih.file
          ≡ ok (
            log_file (mark ∷ 10 ∷ []) (ts ++ padded index_entry_len (text_of marshal ie) ∷ []),
            written_len index_entry_len ih.empty,
          ) =
        rw (em, l.on_disk)
          (flush_lem index_entry_len (mark ∷ 10 ∷ []) ts (text_of marshal ie) fits.0 fits.1) in
      (
        record ih {
          file =
              some (
                log_file (mark ∷ 10 ∷ []) (ts ++ padded index_entry_len (text_of marshal ie) ∷ []));
          empty = false;
          entries = ih.entries ++ ie ∷ [];
          ref_map = store blob_id ie ih.ref_map;
        },
        rw (o, fl),
        record {
          on_disk =
              ap (λ z. some (log_file (mark ∷ 10 ∷ []) z))
                (sym (map-snoc (λ e. padded index_entry_len (text_of marshal e)) ih.entries ie));
          emptiness = sym (is_empty-snoc ih.entries ie);
          mapped = ap (store blob_id ie) l.mapped ∙ sym (refs-snoc ih.entries ie []);
        },
        λ j. elim (Bool-cases (str_eq blob_id j)) [
          | inl here ↦ rw (load-store blob_id j ie ih.ref_map, here) refl
          | inr other ↦ rw (load-store blob_id j ie ih.ref_map, other) refl
        ],
      )

  -- A restart of a header that its file describes, where `json.Unmarshal` reads the array of the
  -- padded entries, reads the file back: `New` on the file succeeds, its header is again described by the
  -- file, and `Get` finds every blob at the place where it found it before.
  pub place-index_new :
      {mark : ℕ} (prefix : Bytes) (shard : ℤ) (tri : Bytes) (is_large : Bool) (ih : IndexHeader)
      → IsLogged marshal mark ih
      → Reads marshal unmarshal (map (pad marshal) ih.entries)
      → (ih' : IndexHeader) × (size : ℕ) × (index_new marshal unmarshal prefix shard tri is_large
            ih.file
          ≡ ok (ih', size))
        × IsLogged marshal mark ih'
        × (ih'.state ≡ mark)
        × ((j : Bytes) → place (index_get ih' j) ≡ place (index_get ih j))
  unfolding index_new index_load index_get
  place-index_new {mark} prefix shard tri is_large ih l reads =
      let es : List IndexEntry = map (pad marshal) ih.entries in
      let file : Bytes = log_file (mark ∷ 10 ∷ []) (texts marshal ih.entries) in
      let u : unmarshal (log_file [] (texts marshal ih.entries)) ≡ some es =
        subst (λ z. unmarshal (log_file [] z) ≡ some es) (marshal-pad marshal ih.entries) reads in
      let two : leb 2 (length file) ≡ true = le→leb 2 (length file) (omega arith) in
      let b : IndexHeader = blank prefix shard tri in
      (
        record b {
          state = mark;
          file = some file;
          entries = es;
          ref_map = refs es [];
          empty = is_nil (refs es []);
        },
        length file,
        rw (l.on_disk, two, u),
        record {
          on_disk =
              ap (λ z. some (log_file (mark ∷ 10 ∷ []) z)) (sym (texts-pad marshal ih.entries));
          emptiness = nil-refs es;
          mapped = refl;
        },
        refl,
        λ j.
            place-refs marshal ih.entries [] [] (λ i. refl) j
            ∙ ap (λ z. place (load j z)) (sym l.mapped),
      )
