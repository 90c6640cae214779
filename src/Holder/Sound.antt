-- ===== src/Holder/Sound.antt =====
-- The three steps of `Put` on one triplet: the blob is stored, and the triplet stays healthy.
use mathlib.Core.Path.{fun_ext}
use riverpass.Prelude.{
  ℕ, ◌+◌, ◌≡◌, refl, sym, ap, subst, ◌∙◌, true, false, inl, inr, Bool-cases, Option, none, some,
  List, [], ◌∷◌, ◌++◌, arith, ◌==◌, ==_self, length,
}
use riverpass.Prelude.Int.{ℤ, pos, negsuc}
use riverpass.Prelude.Text.{Bytes, str_eq, str_eq_self}
use riverpass.Prelude.Result.{ok, Result-cases, ok_injective, ◌>>=◌}
use riverpass.Lru.{set_at}
use riverpass.Log.{written_len, flush}
use riverpass.Index.{
  IndexEntry, IndexHeader, index_put, index_get, index_entry_len, closed_state, fresh_entry,
  text_of,
}
use riverpass.Index.Reload.{IsLogged, Fits, place, put-IsLogged}
use riverpass.Manifest.{MfEntry, mf_entry, put_action, mf_entry_len}
use riverpass.Manifest.Reload.{IsWritten, MfFits, put-IsWritten}
use riverpass.Binary.Codec.{get_payload_size}
use riverpass.Binary.Store.{bin_get}
use riverpass.Binary.Store.Laws.{IsSynced, IsBlob, appended, bin_put-bin_get, bin_get-bin_put}
use riverpass.Holder.{Json}
use riverpass.Holder.Triplet.{Config, Triplet, PhyBh}
use riverpass.Holder.Put.{
  Env, put_bin, put_idx, put_mf, add_bytes, release, set_triplet, max_alloc_size,
}
use riverpass.Holder.Get.{read_entry, read_offset}

-- The three headers agree with their files.
pub record IsHealthy (json : Json) (t : Triplet) : Type 0 where
  pub synced : IsSynced t.bin_header
  pub mark : ℕ
  pub logged : IsLogged json.index_text mark t.idx_header
  pub actions : List MfEntry
  pub written : IsWritten json.mf_text t.mf_header actions

abbrev pub IsOpen : Triplet → Type 0
IsOpen t = (t.idx_header.state == closed_state) ≡ false

-- The two entries of a blob leave room for their padding.
abbrev pub HasRoom : Json → Bytes → Type 0
HasRoom json blb_id =
    ((offset size : ℤ) → Fits json.index_text (fresh_entry blb_id offset size))
    × MfFits json.mf_text (mf_entry blb_id put_action)

pub set_at_twice {ℓ} :
    {A : Type ℓ} (f : ℕ → A) (p : ℕ) (v w : A) → set_at (set_at f p v) p w ≡ set_at f p w
set_at_twice f p v w =
    fun_ext λ q. elim (Bool-cases (p == q)) [ inl here ↦ rw here refl | inr other ↦ rw other refl ]

-- An entry at a place.
place-some :
    (o : Option IndexEntry) (off size : ℤ)
    → place o ≡ some (off, size)
    → (e : IndexEntry) × (o ≡ some e) × (e.offset ≡ off)
place-some none off size h = cc
place-some (some e) off size h = (e, refl, cc)

-- The blob is found through the index of the triplet.
abbrev pub Reads : Config → Triplet → Bytes → Bytes → Type 0
Reads config t blb_id body = read_entry config t blb_id (index_get t.idx_header blb_id) ≡ ok body

-- Every other blob is read as before.
abbrev pub Keeps : Config → Bytes → Triplet → Triplet → Type 0
Keeps config blb_id t after =
    (j out : Bytes) → str_eq blb_id j ≡ false → Reads config t j out → Reads config after j out

-- What one triplet of the handler has become, and all else as it was but for the account.
pub record IsStored (json : Json) (config : Config) (before after : PhyBh) (p : ℕ)
    (blb_id body : Bytes) : Type 0 where
  pub triplet : Triplet
  pub heap : after.heap ≡ set_at before.heap p (some triplet)
  pub open_tplt : after.open_tplt ≡ before.open_tplt
  pub closed_tplt : after.closed_tplt ≡ before.closed_tplt
  pub large_obj_tplt : after.large_obj_tplt ≡ before.large_obj_tplt
  pub allocated : after.allocated ≡ before.allocated
  pub healthy : IsHealthy json triplet
  pub opened : IsOpen triplet
  pub reads : Reads config triplet blb_id body
  pub kept : (t : Triplet) → before.heap p ≡ some t → Keeps config blb_id t triplet

place-none : (o : Option IndexEntry) → place o ≡ none → o ≡ none
place-none none h = refl
place-none (some e) h = cc

-- Reading one entry before and after, when the places agree and the content file only grows.
read_entry-kept :
    (config : Config) (t after : Triplet) (j out : Bytes) (o q : Option IndexEntry)
    → ((off : ℕ)
        → bin_get config.align t.bin_header j off ≡ ok out
        → bin_get config.align after.bin_header j off ≡ ok out)
    → place q ≡ place o
    → read_entry config t j o ≡ ok out
    → read_entry config after j q ≡ ok out
read_entry-kept config t after j out none q grows same r = rw (place-none q same) r
read_entry-kept config t after j out (some e) q grows same r =
    let (e2, found, at) = place-some q e.offset e.size same in rw (found, at) (go e.offset r)
  where
    go :
        (off : ℤ)
        → (read_offset off >>= λ n. bin_get config.align t.bin_header j n) ≡ ok out
        → (read_offset off >>= λ n. bin_get config.align after.bin_header j n) ≡ ok out
    go (pos n) h = grows n h
    go (negsuc n) h = cc

some_injective : {t u : Triplet} → some t ≡ some u → t ≡ u
some_injective h = cc

index_put-state :
    (marshal : IndexEntry → Bytes) (ih after : IndexHeader) (blob_id : Bytes) (offset size : ℤ)
    (n : ℕ)
    → index_put marshal ih blob_id offset size ≡ ok (after, n)
    → after.state ≡ ih.state
unfolding index_put
index_put-state marshal ih after blob_id offset size n h =
    elim (Bool-cases (ih.state == closed_state)) [
      | inl closed ↦ cc (rw closed at h)
      | inr opened ↦
          elim (Result-cases (
            flush index_entry_len ih.empty (text_of marshal (fresh_entry blob_id offset size))
              ih.file)) [
                | inr (inr c) ↦ cc (rw (opened, c) at h)
                | inr (inl (e, c)) ↦ cc (rw (opened, c) at h)
                | inl ((file, k), c) ↦
                    sym (ap (λ z. z.0.state) (ok_injective (rw (opened, c) at h)))
              ]
    ]

module _ (json : Json) (config : Config) (env : Env) (pbh : PhyBh) (p : ℕ) (t : Triplet)
    (blb_id body : Bytes) (runs : env.io ≡ true) (here : pbh.heap p ≡ some t)
    (healthy : IsHealthy json t) (opened : IsOpen t) (room : HasRoom json blb_id)
    (blob : IsBlob config.align blb_id body) where
  -- The steps succeed, whatever was added to the account before.
  pub put_bin-IsStored :
      (size : ℕ) (token : Bytes)
      → (after : PhyBh) × (put_bin json config env
            (get_payload_size config.align (length body))
            pbh
            p
            size
            token
            blb_id
            body
          ≡ ok (after, ok token))
        × IsStored json config pbh after p blb_id body
  unfolding put_bin put_idx put_mf
  put_bin-IsStored size token =
      let payload : ℕ = get_payload_size config.align (length body) in
      let off : ℕ = t.bin_header.cur_off in
      let bin = bin_put-bin_get config.align t.bin_header blb_id body healthy.synced blob in
      let (ih, idx_put, logged, places) =
        put-IsLogged json.index_text json.index_read t.idx_header blb_id (pos off) (pos payload)
          healthy.logged opened (room.0 (pos off) (pos payload)) in
      let (mfh, mf_done, written) =
        put-IsWritten json.mf_text t.mf_header healthy.actions blb_id healthy.written room.1 in
      let t1 : Triplet = record t { bin_header = appended config.align t.bin_header blb_id body } in
      let t2 : Triplet = record t1 { idx_header = ih } in
      let t3 : Triplet = record t2 { mf_header = mfh } in
      let h1 = set_at pbh.heap p (some t1) in
      let found : place (index_get ih blb_id) ≡ some (pos off, pos payload) =
        places blb_id ∙ rw (str_eq_self blb_id) refl in
      let (entry, stored, at_off) =
        place-some (index_get ih blb_id) (pos off) (pos payload) found in
      (
        release
            (add_bytes (set_triplet (set_triplet (set_triplet pbh p t1) p t2) p t3) (
              pos (
                size
                + payload
                + written_len index_entry_len t.idx_header.empty
                + written_len mf_entry_len t.mf_header.empty)))
            (max_alloc_size payload),
        rw (here, runs, bin.0, ==_self payload, idx_put, mf_done) refl,
        record {
          triplet = t3;
          heap =
              ap (λ h. set_at h p (some t3)) (set_at_twice pbh.heap p (some t1) (some t2))
              ∙ set_at_twice pbh.heap p (some t2) (some t3);
          open_tplt = refl;
          closed_tplt = refl;
          large_obj_tplt = refl;
          allocated = refl;
          healthy = record {
            synced = bin.1;
            mark = healthy.mark;
            logged = logged;
            actions = healthy.actions ++ mf_entry blb_id put_action ∷ [];
            written = written;
          };
          opened =
              ap (λ s. s == closed_state)
                (index_put-state json.index_text t.idx_header ih blb_id (pos off) (pos payload) _
                  idx_put)
              ∙ opened;
          reads = rw (stored, at_off) bin.2;
          kept = λ u at j out other old.
              let same : t ≡ u = some_injective (sym here ∙ at) in
              read_entry-kept config t t3 j out (index_get t.idx_header j) (index_get ih j)
                (λ n g.
                  bin_get-bin_put config.align t.bin_header blb_id body t1.bin_header (off, payload)
                    j n out bin.0 g)
                (places j ∙ rw other refl) (subst (λ z. Reads config z j out) (sym same) old);
        },
      )

-- Every triplet keeps its other blobs.
pub stored-Keeps :
    (json : Json) (config : Config) (before after : PhyBh) (p : ℕ) (blb_id body : Bytes)
    → IsStored json config before after p blb_id body
    → (q : ℕ) (t : Triplet) → before.heap q ≡ some t
    → (u : Triplet) × (after.heap q ≡ some u) × Keeps config blb_id t u
stored-Keeps json config before after p blb_id body s q t at = elim (Bool-cases (p == q)) [
  | inl same ↦
      let e : p ≡ q = ground arith in
      (s.triplet, rw (s.heap, same) refl, s.kept t (ap before.heap e ∙ at))
  | inr other ↦ (t, rw (s.heap, other) at, λ j out n r. r)
]
