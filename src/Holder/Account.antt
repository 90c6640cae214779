-- ===== src/Holder/Account.antt =====
-- The account of the bytes: `Put` never lets the cache grow over its limit.
pub mod Steps
use riverpass.Prelude.{
  ℕ, ◌+◌, ◌-◌, ◌≤◌, ◌≡◌, refl, sym, ap, subst, ◌∙◌, Bool, true, false, inl, inr, Bool-cases, Option,
  none, some, [], ◌∷◌, ◌++◌, arith, ◌==◌, if◌then◌else◌, length, take,
}
use riverpass.Prelude.Int.{ℤ, pos, ◌+ℤ◌, ◌-ℤ◌, ltb_ℤ, ◌≤ℤ◌, int_laws, eq_of_parts}
use riverpass.Prelude.Text.{Bytes}
use riverpass.Prelude.Result.{Result, ok, err, crash, cache_full, Error, ok_injective, Result-cases}
use riverpass.Lru as Lru
use riverpass.Log.{flush, flush_to, written_len, leading, padding}
use riverpass.Index.{
  IndexHeader, IndexEntry, index_put, index_new, create, index_entry_len, text_of, fresh_entry,
  closed_state,
}
use riverpass.Binary.Store.{bin_put, bin_new}
use riverpass.Binary.Codec.{get_payload_size}
use riverpass.Manifest.{
  MfEntry, MfHeader, mf_new, mf_create, mf_entry, put_action, mf_text_of, mf_put, mf_flush,
  mf_entry_len,
}
use riverpass.Holder.{Json}
use riverpass.Holder.Triplet.{Config, Triplet, nothing, PhyBh, deref, open_new_tplt, triplet_new}
use riverpass.Holder.Put.{
  Env, max_alloc_size, put, put_reserved, put_bin, put_idx, put_mf, choose, choose_large,
  choose_open, add_bytes, pick_loop, set_triplet,
}
use riverpass.Holder.Account.Steps.{Accounted, put_bin-Accounted}

not_less : (x y : ℤ) → ltb_ℤ x y ≡ false → y ≤ℤ x
not_less x y h = ground arith

within_limit :
    (total a limit after reserved : ℤ)
    → ltb_ℤ (limit -ℤ total) a ≡ false
    → reserved ≡ total +ℤ a
    → after ≤ℤ reserved
    → after ≤ℤ limit
within_limit total a limit after reserved room e h =
    let r : reserved ≤ℤ limit =
      rw e (let g : a ≤ℤ limit -ℤ total = not_less (limit -ℤ total) a room in omega int_laws) in
    omega arith

given_back : (total a : ℤ) → (total +ℤ a) -ℤ a ≡ total
given_back total a = eq_of_parts (total +ℤ a -ℤ a) total (omega int_laws)

-- What a call adds for the files of a new triplet.
abbrev pub new_size : Config → ℕ → ℕ
new_size config payload_size = if ltb_ℤ config.large_threshold (pos payload_size) then 8 else 0

pub new_size-small : (config : Config) (payload_size : ℕ) → new_size config payload_size ≤ 8
new_size-small config payload_size =
    elim (Bool-cases (ltb_ℤ config.large_threshold (pos payload_size))) [
      | inl large ↦ rw large (omega arith)
      | inr small ↦ rw small (omega arith)
    ]

-- The files of a new triplet are as large as the overhead that is reserved for them, and an open
-- one adds nothing.
pub choose-size :
    (json : Json) (config : Config) (env : Env) (payload_size : ℕ) (pbh : PhyBh) (blb_id : Bytes)
    (after : PhyBh) (p size : ℕ) (token : Bytes)
    → env.found ≡ nothing
    → choose json config env payload_size pbh blb_id ≡ ok (after, p, size, token)
    → (size ≡ new_size config payload_size) × (after.total_bytes ≡ pbh.total_bytes)
unfolding choose choose_large choose_open open_new_tplt triplet_new index_new mf_new create
    mf_create bin_new
choose-size json config env payload_size pbh blb_id after p size token fresh h =
    elim (Bool-cases (ltb_ℤ config.large_threshold (pos payload_size))) [
      | inl large ↦
          let e = ok_injective (rw (large, fresh) at h) in
          let n : 8 ≡ size = ap (λ z. z.2) e in
          (rw large (sym n), sym (ap (λ z. z.0.total_bytes) e))
      | inr small ↦ elim (Bool-cases (ltb_ℤ (pos 0) pbh.open_tplt.size)) [
        | inr empty ↦ cc (rw (small, empty) at h)
        | inl some_open ↦
            elim (Result-cases (
              deref (
                (Lru.get pbh.open_tplt
                  (pick_loop (env.rand pbh.open_tplt.size) 0 (env.range pbh.open_tplt.dict))).1))) [
                    | inr (inr c) ↦ cc (rw (small, some_open, c) at h)
                    | inr (inl (e, c)) ↦ cc (rw (small, some_open, c) at h)
                    | inl (q, c) ↦
                        let e = ok_injective (rw (small, some_open, c) at h) in
                        let n : 0 ≡ size = ap (λ z. z.2) e in
                        (rw small (sym n), sym (ap (λ z. z.0.total_bytes) e))
                  ]
      ]
    ]

abbrev pub is_err {ℓ} : {A : Type ℓ} → Result A → Bool
is_err (ok a) = false
is_err (err e) = true
is_err crash = false

on_error :
    (total before : ℤ) (r : Result Bytes)
    → ((e : Error) → r ≡ err e → total ≡ before)
    → (if is_err r then total else before) ≡ before
on_error total before (ok a) h = refl
on_error total before (err e) h = h e refl
on_error total before crash h = refl

-- A `Put` that returns, with an identifier for a new triplet that is not on the disk: if the handler
-- was within the limit it stays within it, whether a token or an error is returned, and an error
-- leaves the account as it was.
pub put-Accounted :
    (json : Json) (config : Config) (env : Env) (pbh : PhyBh) (blb_id body : Bytes) (after : PhyBh)
    (r : Result Bytes)
    → env.found ≡ nothing
    → pbh.total_bytes ≤ℤ config.cache_max
    → put json config env pbh blb_id body ≡ ok (after, r)
    → (after.total_bytes ≤ℤ config.cache_max)
      × ((if is_err r then after.total_bytes else pbh.total_bytes) ≡ pbh.total_bytes)
unfolding put put_reserved
put-Accounted json config env pbh blb_id body after r fresh within h =
    let payload_size : ℕ = get_payload_size config.align (length body) in
    let a : ℤ = max_alloc_size payload_size in
    elim (Bool-cases (ltb_ℤ (config.cache_max -ℤ pbh.total_bytes) a)) [
      | inl full ↦
          let e : (pbh, err cache_full) ≡ (after, r) = ok_injective (rw full at h) in
          subst
            (λ z.
              (z.total_bytes ≤ℤ config.cache_max)
              × ((if is_err r then z.total_bytes else pbh.total_bytes) ≡ pbh.total_bytes))
            (ap (λ z. z.0) e) (within, on_error pbh.total_bytes pbh.total_bytes r (λ f g. refl))
      | inr room ↦
          let reserved : PhyBh = add_bytes pbh a in
          elim (Result-cases (choose json config env payload_size reserved blb_id)) [
            | inr (inr c) ↦ cc (rw (room, c) at h)
            | inr (inl (e, c)) ↦ cc (rw (room, c) at h)
            | inl ((pbh1, p, size, token), c) ↦
                let s =
                  choose-size json config env payload_size reserved blb_id pbh1 p size token fresh
                    c in
                let w =
                  put_bin-Accounted json config env payload_size pbh1 p size token blb_id body after
                    r (subst (λ n. n ≤ 8) (sym s.0) (new_size-small config payload_size))
                    (rw (room, c) at h) in
                let t : pbh1.total_bytes ≡ pbh.total_bytes +ℤ a = s.1 in
                (
                  within_limit pbh.total_bytes a config.cache_max after.total_bytes pbh1.total_bytes
                      room t w.0,
                  on_error after.total_bytes pbh.total_bytes r
                      (λ f g. w.1 f g ∙ ap (λ z. z -ℤ a) t ∙ given_back pbh.total_bytes a),
                )
          ]
    ]
