-- ===== src/Holder/Concurrent/Single.antt =====
-- The steps that one whole call of `Put` takes on the account.
use riverpass.Prelude.{
  ℕ, ◌+◌, ◌≤◌, ◌≡◌, refl, subst, Bool, true, false, inl, inr, Bool-cases, List, [], ◌∷◌, arith,
  ◌==◌,
}
use riverpass.Prelude.Int.{ℤ, pos, ◌-ℤ◌, ltb_ℤ}
use riverpass.Prelude.Text.{Bytes}
use riverpass.Prelude.Result.{
  Result, ok, err, crash, Error, cache_full, bin_put_error, ok_injective, Result-cases,
}
use riverpass.Index.{index_put}
use riverpass.Binary.Store.{bin_put}
use riverpass.Manifest.{mf_put}
use riverpass.Holder.{Json}
use riverpass.Holder.Triplet.{Config, Triplet, PhyBh, deref}
use riverpass.Holder.Put.{Env, max_alloc_size, put_bin, put_idx, put_mf, set_triplet}
use riverpass.Holder.Account.{new_size}
use riverpass.Holder.Account.Steps.{mf_put-bytes, index_put-bytes}
use riverpass.Holder.Concurrent.{
  Phase, holds, Account, Label, reserve, give_up, add, give_back, gives_up, adds, releases, goes_on,
  Trace, ends, takes,
}

abbrev pub account : PhyBh → List Phase → Account
account pbh ps = record { total_bytes = pbh.total_bytes; running = ps }

-- What a call that has its reservation does to the end: with a token it adds the bytes of a new
-- triplet's files, the payload and the two log entries, which are one of the two lengths of an entry
-- each, and gives the reservation back; with an error it only gives it back.
abbrev pub IsFinish : ℕ → ℕ → List Label → Result Bytes → Type 0
IsFinish size payload_size labels (ok token) =
    (bytes : ℕ) × (labels ≡ add payload_size bytes ∷ give_back payload_size ∷ [])
    × (size + payload_size + 250 + 200 ≤ bytes)
    × (bytes ≤ size + payload_size + 252 + 202)
IsFinish size payload_size labels (err e) = labels ≡ give_up payload_size ∷ []
IsFinish size payload_size labels crash = ⊥

-- A call that is refused takes no step; the others reserve for their own payload first.
abbrev pub IsCallIf : Bool → ℕ → ℕ → List Label → Result Bytes → Type 0
IsCallIf true size payload_size labels r = (labels ≡ []) × (r ≡ err cache_full)
IsCallIf false size payload_size labels r =
    (rest : List Label) × (labels ≡ reserve payload_size ∷ rest) × IsFinish size payload_size rest r

abbrev pub IsCall : Config → ℤ → ℕ → List Label → Result Bytes → Type 0
IsCall config total_bytes payload_size labels r =
    IsCallIf (ltb_ℤ (config.cache_max -ℤ total_bytes) (max_alloc_size payload_size))
      (new_size config payload_size) payload_size labels r

module _ (json : Json) (config : Config) (env : Env) (ps : List Phase) (payload_size : ℕ) where
  abbrev Ended : PhyBh → ℕ → PhyBh × Result Bytes → Type 0
  Ended pbh size z =
      (labels : List Label) × IsFinish size payload_size labels z.1
      × Trace config.cache_max labels (account pbh (holds payload_size ∷ ps)) (account z.0 ps)

  fails :
      (pbh : PhyBh) (size : ℕ) (e : Error)
      → Ended pbh size
          (record pbh { total_bytes = pbh.total_bytes -ℤ max_alloc_size payload_size }, err e)
  fails pbh size e =
      (give_up payload_size ∷ [], refl, takes (goes_on (gives_up [] ps payload_size refl)) ends)

  put_mf-Ended :
      (pbh : PhyBh) (p : ℕ) (t : Triplet) (size : ℕ) (token blb_id : Bytes) (idx_bytes : ℕ)
      (z : PhyBh × Result Bytes)
      → size ≤ 8
      → (252 ≤ idx_bytes + 2) × (idx_bytes ≤ 252)
      → put_mf json config env payload_size pbh p t size token blb_id idx_bytes ≡ ok z
      → Ended pbh size z
  unfolding put_mf
  put_mf-Ended pbh p t size token blb_id idx_bytes z small i h =
      elim (Result-cases (mf_put json.mf_text t.mf_header blb_id)) [
        | inr (inr c) ↦ cc (rw c at h)
        | inr (inl (e, c)) ↦ subst (Ended pbh size) (ok_injective (rw c at h)) (fails pbh size e)
        | inl ((mf, n), c) ↦
            let b = mf_put-bytes json.mf_text t.mf_header blb_id mf n c in
            let i0 = i.0 in
            let i1 = i.1 in
            let bytes : ℕ = size + payload_size + idx_bytes + n in
            subst (Ended pbh size) (ok_injective (rw c at h)) (
              add payload_size bytes ∷ give_back payload_size ∷ [],
              (bytes, refl, omega (arith, b.0), omega (arith, b.1)),
              takes (goes_on (adds [] ps payload_size size idx_bytes n refl (omega arith) b.1))
                  (takes (goes_on (releases [] ps payload_size refl)) ends),
            )
      ]

  put_idx-Ended :
      (pbh : PhyBh) (p : ℕ) (t : Triplet) (size : ℕ) (token blb_id : Bytes) (offset written : ℕ)
      (z : PhyBh × Result Bytes)
      → size ≤ 8
      → put_idx json config env payload_size pbh p t size token blb_id offset written ≡ ok z
      → Ended pbh size z
  unfolding put_idx
  put_idx-Ended pbh p t size token blb_id offset written z small h =
      elim (Result-cases
        (index_put json.index_text t.idx_header blb_id (pos offset) (pos written))) [
          | inr (inr c) ↦ cc (rw c at h)
          | inr (inl (e, c)) ↦ subst (Ended pbh size) (ok_injective (rw c at h)) (fails pbh size e)
          | inl ((idx, n), c) ↦
              let t1 : Triplet = record t { idx_header = idx } in
              put_mf-Ended (set_triplet pbh p t1) p t1 size token blb_id n z small
                (index_put-bytes json.index_text t.idx_header blb_id (pos offset) (pos written) idx
                  n c)
                (rw c at h)
        ]

  pub put_bin-Ended :
      (pbh : PhyBh) (p size : ℕ) (token blb_id body : Bytes) (z : PhyBh × Result Bytes)
      → size ≤ 8
      → put_bin json config env payload_size pbh p size token blb_id body ≡ ok z
      → Ended pbh size z
  unfolding put_bin
  put_bin-Ended pbh p size token blb_id body z small h = elim (Result-cases (deref (pbh.heap p))) [
    | inr (inr c) ↦ cc (rw c at h)
    | inr (inl (e, c)) ↦ cc (rw c at h)
    | inl (t, c) ↦ elim (Result-cases (bin_put config.align env.io t.bin_header blb_id body)) [
      | inr (inr d) ↦ cc (rw (c, d) at h)
      | inr (inl (e, d)) ↦ cc (rw (c, d) at h)
      | inl ((bin, offset, written), d) ↦
          let t1 : Triplet = record t { bin_header = bin } in
          let pbh1 : PhyBh = set_triplet pbh p t1 in
          elim (Bool-cases (written == payload_size)) [
            | inl w ↦
                put_idx-Ended pbh1 p t1 size token blb_id offset written z small (rw (c, d, w) at h)
            | inr w ↦
                subst (Ended pbh size) (ok_injective (rw (c, d, w) at h))
                  (fails pbh1 size bin_put_error)
          ]
    ]
  ]
