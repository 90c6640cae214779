-- ===== src/Holder/Account/Steps.antt =====
-- The reservation through the three steps of `Put`: given back on an error, and enough otherwise.
use riverpass.Prelude.{
  ℕ, ◌+◌, ◌-◌, ◌≤◌, ◌≡◌, refl, sym, ap, subst, ◌∙◌, Bool, true, false, inl, inr, Bool-cases, Option,
  none, some, [], ◌∷◌, ◌++◌, arith, ◌==◌, length, take,
}
use riverpass.Prelude.Int.{ℤ, pos, ◌-ℤ◌, ◌≤ℤ◌, int_laws}
use riverpass.Prelude.Text.{Bytes}
use riverpass.Prelude.Result.{Result, ok, err, Error, ok_injective, Result-cases}
use riverpass.Log.{flush, flush_to, written_len, leading, padding}
use riverpass.Index.{
  IndexHeader, IndexEntry, index_put, index_entry_len, text_of, fresh_entry, closed_state,
}
use riverpass.Binary.Store.{bin_put}
use riverpass.Manifest.{
  MfEntry, MfHeader, mf_entry, put_action, mf_text_of, mf_put, mf_flush, mf_entry_len,
}
use riverpass.Holder.{Json}
use riverpass.Holder.Triplet.{Config, Triplet, PhyBh, deref}
use riverpass.Holder.Put.{Env, max_alloc_size, put_bin, put_idx, put_mf, set_triplet}

written-bound :
    (entry_len : ℕ) (empty : Bool) (n : ℕ)
    → n ≡ written_len entry_len empty
    → (entry_len ≤ n + 2) × (n ≤ entry_len)
written-bound entry_len true n e = (omega arith, omega arith)
written-bound entry_len false n e = (omega arith, omega arith)

-- A flush writes what its fixed length says.
flush-written :
    (entry_len : ℕ) (empty : Bool) (ser : Bytes → Bytes) (file : Option Bytes) (out : Bytes) (n : ℕ)
    → flush entry_len empty ser file ≡ ok (out, n)
    → (entry_len ≤ n + 2) × (n ≤ entry_len)
unfolding flush flush_to
flush-written entry_len empty ser none out n h = cc
flush-written entry_len empty ser (some file) out n h =
    let bytes : Bytes = leading empty ++ (ser (padding entry_len ser) ++ b']' ∷ []) in
    elim (Bool-cases (length bytes - 1 == written_len entry_len empty)) [
      | inr wrong ↦ cc (rw wrong at h)
      | inl right ↦
          let e : (take (length file - 1) file ++ bytes, length bytes - 1) ≡ (out, n) =
            ok_injective (rw right at h) in
          let m : length bytes - 1 ≡ n = ap (λ z. z.1) e in
          let k : length bytes - 1 ≡ written_len entry_len empty = ground arith in
          written-bound entry_len empty n (sym m ∙ k)
    ]

pub mf_put-bytes :
    (marshal : MfEntry → Bytes) (mfh : MfHeader) (blob_id : Bytes) (after : MfHeader) (n : ℕ)
    → mf_put marshal mfh blob_id ≡ ok (after, n)
    → (mf_entry_len ≤ n + 2) × (n ≤ mf_entry_len)
unfolding mf_put mf_flush
mf_put-bytes marshal mfh blob_id after n h =
    let ser : Bytes → Bytes = mf_text_of marshal (mf_entry blob_id put_action) in
    elim (Result-cases (flush mf_entry_len mfh.empty ser mfh.file)) [
      | inr (inr c) ↦ cc (rw c at h)
      | inr (inl (e, c)) ↦ cc (rw c at h)
      | inl ((file, k), c) ↦
          let same : k ≡ n = ap (λ z. z.1) (ok_injective (rw c at h)) in
          subst (λ m. (mf_entry_len ≤ m + 2) × (m ≤ mf_entry_len)) same
            (flush-written mf_entry_len mfh.empty ser mfh.file file k c)
    ]

pub index_put-bytes :
    (marshal : IndexEntry → Bytes) (ih : IndexHeader) (blob_id : Bytes) (offset size : ℤ)
    (after : IndexHeader) (n : ℕ)
    → index_put marshal ih blob_id offset size ≡ ok (after, n)
    → (index_entry_len ≤ n + 2) × (n ≤ index_entry_len)
unfolding index_put
index_put-bytes marshal ih blob_id offset size after n h =
    let ser : Bytes → Bytes = text_of marshal (fresh_entry blob_id offset size) in
    elim (Bool-cases (ih.state == closed_state)) [
      | inl closed ↦ cc (rw closed at h)
      | inr opened ↦ elim (Result-cases (flush index_entry_len ih.empty ser ih.file)) [
        | inr (inr c) ↦ cc (rw (opened, c) at h)
        | inr (inl (e, c)) ↦ cc (rw (opened, c) at h)
        | inl ((file, k), c) ↦
            let same : k ≡ n = ap (λ z. z.1) (ok_injective (rw (opened, c) at h)) in
            subst (λ m. (index_entry_len ≤ m + 2) × (m ≤ index_entry_len)) same
              (flush-written index_entry_len ih.empty ser ih.file file k c)
      ]
    ]

-- The reservation is given back on an error, and is enough otherwise.
abbrev pub Accounted : ℤ → ℤ → PhyBh → Result Bytes → Type 0
Accounted reserved amount after r =
    (after.total_bytes ≤ℤ reserved)
    × ((e : Error) → r ≡ err e → after.total_bytes ≡ reserved -ℤ amount)

put_mf-Accounted :
    (json : Json) (config : Config) (env : Env) (payload_size : ℕ) (pbh : PhyBh) (p : ℕ)
    (t : Triplet) (size : ℕ) (token blb_id : Bytes) (idx_bytes : ℕ) (after : PhyBh)
    (r : Result Bytes)
    → size + idx_bytes ≤ 8 + 252 + 4
    → put_mf json config env payload_size pbh p t size token blb_id idx_bytes ≡ ok (after, r)
    → Accounted pbh.total_bytes (max_alloc_size payload_size) after r
unfolding put_mf
put_mf-Accounted json config env payload_size pbh p t size token blb_id idx_bytes after r small h =
    let a : ℤ = max_alloc_size payload_size in
    elim (Result-cases (mf_put json.mf_text t.mf_header blb_id)) [
      | inr (inr c) ↦ cc (rw c at h)
      | inr (inl (e, c)) ↦
          subst (λ z. Accounted pbh.total_bytes a z.0 z.1) (ok_injective (rw c at h))
            (omega int_laws, λ f g. refl)
      | inl ((mf, n), c) ↦
          let b : n ≤ 202 = (mf_put-bytes json.mf_text t.mf_header blb_id mf n c).1 in
          subst (λ z. Accounted pbh.total_bytes a z.0 z.1) (ok_injective (rw c at h))
            (omega int_laws, λ f g. cc)
    ]

put_idx-Accounted :
    (json : Json) (config : Config) (env : Env) (payload_size : ℕ) (pbh : PhyBh) (p : ℕ)
    (t : Triplet) (size : ℕ) (token blb_id : Bytes) (offset written : ℕ) (after : PhyBh)
    (r : Result Bytes)
    → size ≤ 8
    → put_idx json config env payload_size pbh p t size token blb_id offset written ≡ ok (after, r)
    → Accounted pbh.total_bytes (max_alloc_size payload_size) after r
unfolding put_idx
put_idx-Accounted json config env payload_size pbh p t size token blb_id offset written after r
      small h =
    let a : ℤ = max_alloc_size payload_size in
    elim (Result-cases (index_put json.index_text t.idx_header blb_id (pos offset) (pos written))) [
      | inr (inr c) ↦ cc (rw c at h)
      | inr (inl (e, c)) ↦
          subst (λ z. Accounted pbh.total_bytes a z.0 z.1) (ok_injective (rw c at h))
            (omega int_laws, λ f g. refl)
      | inl ((idx, n), c) ↦
          let b : n ≤ 252 =
            (index_put-bytes json.index_text t.idx_header blb_id (pos offset) (pos written) idx n
              c).1 in
          let t1 : Triplet = record t { idx_header = idx } in
          put_mf-Accounted json config env payload_size (set_triplet pbh p t1) p t1 size token
            blb_id n after r (omega arith) (rw c at h)
    ]

pub put_bin-Accounted :
    (json : Json) (config : Config) (env : Env) (payload_size : ℕ) (pbh : PhyBh) (p : ℕ) (size : ℕ)
    (token blb_id body : Bytes) (after : PhyBh) (r : Result Bytes)
    → size ≤ 8
    → put_bin json config env payload_size pbh p size token blb_id body ≡ ok (after, r)
    → Accounted pbh.total_bytes (max_alloc_size payload_size) after r
unfolding put_bin
put_bin-Accounted json config env payload_size pbh p size token blb_id body after r small h =
    let a : ℤ = max_alloc_size payload_size in
    elim (Result-cases (deref (pbh.heap p))) [
      | inr (inr c) ↦ cc (rw c at h)
      | inr (inl (e, c)) ↦ cc (rw c at h)
      | inl (t, c) ↦ elim (Result-cases (bin_put config.align env.io t.bin_header blb_id body)) [
        | inr (inr d) ↦ cc (rw (c, d) at h)
        | inr (inl (e, d)) ↦ cc (rw (c, d) at h)
        | inl ((bin, offset, written), d) ↦
            let t1 : Triplet = record t { bin_header = bin } in
            let pbh1 : PhyBh = set_triplet pbh p t1 in
            elim (Bool-cases (written == payload_size)) [
              | inl w ↦
                  put_idx-Accounted json config env payload_size pbh1 p t1 size token blb_id offset
                    written after r small (rw (c, d, w) at h)
              | inr w ↦
                  subst (λ z. Accounted pbh.total_bytes a z.0 z.1)
                    (ok_injective (rw (c, d, w) at h)) (omega int_laws, λ f g. refl)
            ]
      ]
    ]
