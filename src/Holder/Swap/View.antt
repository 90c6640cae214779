-- ===== src/Holder/Swap/View.antt =====
-- What PhyBH.Get answers, as a function of the triplets that it finds and of what it reads in them.
use mathlib.Core.Path.{fun_ext}
use riverpass.Prelude.{
  ℕ, ◌≡◌, refl, sym, ap, ◌∙◌, inl, inr, Bool-cases, Option-cases, Option, none, some, leb, length,
  take, drop,
}
use riverpass.Prelude.Text.{Bytes, str_eq}
use riverpass.Prelude.Result.{Result, ok, err, crash, blob_not_exist, Result-cases, ◌>>=◌}
use riverpass.Lru as Lru
use riverpass.Lru.{LruCache, set_at, delete_from_cache}
use riverpass.Token.{get_triplet_id_from_token, get_blob_id_from_token}
use riverpass.Holder.Triplet.{Config, PhyBh}
use riverpass.Holder.Get.{
  get, get_small, get_large, get_closed, read_found, read_triplet, large_prefix,
}

-- What a call of `Get` returns, without the handler after it.
abbrev pub reply : Result (PhyBh × Result Bytes) → Result (Result Bytes)
reply (ok z) = ok z.1
reply (err e) = err e
reply crash = crash

abbrev pub found_of : Option ℕ → Option ℕ → Option ℕ
found_of (some p) c = some p
found_of none c = c

-- The triplet of an identifier: an open one before a closed one.
abbrev pub finds : PhyBh → Bytes → Option ℕ
finds pbh k = found_of (Lru.get pbh.open_tplt k).1 (Lru.get pbh.closed_tplt k).1

abbrev read_from : (ℕ → Bytes → Result Bytes) → Bytes → Option ℕ → Result Bytes
read_from reads blb_id none = err blob_not_exist
read_from reads blb_id (some p) = reads p blb_id

small_answer : (Bytes → Option ℕ) → (ℕ → Bytes → Result Bytes) → Bytes → Result (Result Bytes)
small_answer found reads token = do
  tplt_id ← get_triplet_id_from_token token
  blb_id ← get_blob_id_from_token token
  ok (read_from reads blb_id (found tplt_id))

reply-get_closed :
    (config : Config) (pbh : PhyBh) (tplt_id blb_id : Bytes) (o : Option ℕ)
    → (get_closed config pbh tplt_id blb_id o).1
      ≡ read_from (read_triplet config pbh) blb_id (found_of o (Lru.get pbh.closed_tplt tplt_id).1)
unfolding read_triplet
reply-get_closed config pbh tplt_id blb_id (some p) = refl
reply-get_closed config pbh tplt_id blb_id none =
    elim (Option-cases (Lru.get pbh.closed_tplt tplt_id).1) [
      | inl e ↦ rw e refl
      | inr (p, e) ↦ rw e refl
    ]

reply-get_small :
    (config : Config) (pbh : PhyBh) (token : Bytes)
    → reply (get_small config pbh token) ≡ small_answer (finds pbh) (read_triplet config pbh) token
unfolding get_small small_answer read_triplet
reply-get_small config pbh token = elim (Result-cases (get_triplet_id_from_token token)) [
  | inr (inr c) ↦ rw c refl
  | inr (inl (e, c)) ↦ rw c refl
  | inl (id, c) ↦ elim (Result-cases (get_blob_id_from_token token)) [
    | inr (inr d) ↦ rw (c, d) refl
    | inr (inl (e, d)) ↦ rw (c, d) refl
    | inl (blb, d) ↦
        rw (c, d)
          (ap ok (
            reply-get_closed config (record pbh { open_tplt = (Lru.get pbh.open_tplt id).0 }) id blb
              (Lru.get pbh.open_tplt id).1))
  ]
]

-- Two handlers in which `Get` finds the same triplets and reads the same in them.
pub record IsSameView (config : Config) (after pbh : PhyBh) : Type 0 where
  pub found : (k : Bytes) → finds after k ≡ finds pbh k
  pub large : after.large_obj_tplt ≡ pbh.large_obj_tplt
  pub reads :
      (p : ℕ) (blb_id : Bytes)
      → read_triplet config after p blb_id ≡ read_triplet config pbh p blb_id

small-same :
    (config : Config) (after pbh : PhyBh) (token : Bytes)
    → IsSameView config after pbh
    → reply (get_small config after token) ≡ reply (get_small config pbh token)
small-same config after pbh token v =
    reply-get_small config after token
    ∙ ap (λ f. small_answer f (read_triplet config after) token) (fun_ext v.found)
    ∙ ap (λ r. small_answer (finds pbh) r token) (fun_ext λ p. fun_ext λ b. v.reads p b)
    ∙ sym (reply-get_small config pbh token)

large_answer : LruCache ℕ → (ℕ → Bytes → Result Bytes) → Bytes → Result (Result Bytes)
large_answer cache reads token = do
  tplt_id ← get_triplet_id_from_token token
  blb_id ← get_blob_id_from_token token
  ok (read_from reads blb_id (Lru.get cache tplt_id).1)

reply-read_found :
    (config : Config) (pbh : PhyBh) (large : LruCache ℕ) (blb_id : Bytes) (o : Option ℕ)
    → read_found config (record pbh { large_obj_tplt = large }) blb_id o
      ≡ read_from (read_triplet config pbh) blb_id o
unfolding read_triplet
reply-read_found config pbh large blb_id none = refl
reply-read_found config pbh large blb_id (some p) = refl

reply-get_large :
    (config : Config) (pbh : PhyBh) (token : Bytes)
    → reply (get_large config pbh token)
      ≡ large_answer pbh.large_obj_tplt (read_triplet config pbh) token
unfolding get_large large_answer read_triplet
reply-get_large config pbh token = elim (Result-cases (get_triplet_id_from_token token)) [
  | inr (inr c) ↦ rw c refl
  | inr (inl (e, c)) ↦ rw c refl
  | inl (id, c) ↦ elim (Result-cases (get_blob_id_from_token token)) [
    | inr (inr d) ↦ rw (c, d) refl
    | inr (inl (e, d)) ↦ rw (c, d) refl
    | inl (blb, d) ↦
        rw (c, d)
          (ap ok (
            reply-read_found config pbh (Lru.get pbh.large_obj_tplt id).0 blb
              (Lru.get pbh.large_obj_tplt id).1))
  ]
]

large-same :
    (config : Config) (after pbh : PhyBh) (token : Bytes)
    → IsSameView config after pbh
    → reply (get_large config after token) ≡ reply (get_large config pbh token)
large-same config after pbh token v =
    reply-get_large config after token
    ∙ ap (λ c. large_answer c (read_triplet config after) token) v.large
    ∙ ap (λ r. large_answer pbh.large_obj_tplt r token) (fun_ext λ p. fun_ext λ b. v.reads p b)
    ∙ sym (reply-get_large config pbh token)

pub get-same :
    (config : Config) (after pbh : PhyBh) (token : Bytes)
    → IsSameView config after pbh
    → reply (get config after token) ≡ reply (get config pbh token)
unfolding get
get-same config after pbh token v = elim (Bool-cases (leb (length large_prefix) (length token))) [
  | inr short ↦ rw short refl
  | inl long ↦ elim (Bool-cases (str_eq (take (length large_prefix) token) large_prefix)) [
    | inl large ↦
        rw (long, large) (large-same config after pbh (drop (length large_prefix) token) v)
    | inr small ↦ rw (long, small) (small-same config after pbh token v)
  ]
]
