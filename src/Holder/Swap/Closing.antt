-- ===== src/Holder/Swap/Closing.antt =====
-- PhyBH.LoopHotSwap closes the full triplets: what PhyBH.Get finds before and after.
use riverpass.Prelude.{
  ℕ, ◌≡◌, refl, sym, ap, subst, ◌∙◌, inl, inr, Bool-cases, Option-cases, Option, none, some, List,
  [], ◌∷◌, arith, ◌==◌,
}
use riverpass.Prelude.Text.{Bytes, str_eq, str_eq_iff}
use riverpass.Prelude.Result.{ok, ok_injective, Result-cases}
use riverpass.Prelude.Maps.{Map, load, delete, store, load-delete, load-store}
use riverpass.Lru as Lru
use riverpass.Lru.{LruCache, set_at, delete_from_cache}
use riverpass.Lru.Model.{Models}
use riverpass.Lru.Refine.{touch, found_value}
use riverpass.Lru.Methods.{get-Models, put-Models, delete_from_cache-Models}
use riverpass.Index.{IndexHeader, closed_state, close, index_get}
use riverpass.Holder.{Json}
use riverpass.Holder.Triplet.{Config, Triplet, PhyBh, deref}
use riverpass.Holder.Get.{get, read_triplet, read_entry}
use riverpass.Holder.Swap.View.{reply, finds, found_of, IsSameView, get-same}
use riverpass.Holder.Swap.{close_one, close_all}

-- The two caches that take part, as lists of entries.
pub record IsModelled (pbh : PhyBh) : Type 0 where
  pub opens : Map (Option ℕ)
  pub closeds : Map (Option ℕ)
  pub open_models : Models pbh.open_tplt opens
  pub closed_models : Models pbh.closed_tplt closeds

close-ref_map :
    (ih idx : IndexHeader) (b : Bytes) → close ih ≡ ok idx → index_get idx b ≡ index_get ih b
unfolding close index_get
close-ref_map ih idx b h = elim (Bool-cases (ih.state == closed_state)) [
  | inl closed ↦ ap (λ i. load b i.ref_map) (sym (ok_injective (rw closed at h)))
  | inr opened ↦ elim (Option-cases ih.file) [
    | inl e ↦ cc (rw (opened, e) at h)
    | inr (file, e) ↦ ap (λ i. load b i.ref_map) (sym (ok_injective (rw (opened, e) at h)))
  ]
]

load-touch :
    (k j : Bytes) (es : Map (Option ℕ))
    → found_value (load j (touch k es)) ≡ found_value (load j es)
load-touch k j es = elim (Option-cases (load k es)) [
  | inl e ↦ rw e refl
  | inr (v, e) ↦
      rw (e, load-store k j v es)
        (elim (Bool-cases (str_eq k j)) [
          | inr differ ↦ rw differ refl
          | inl same ↦
              rw same (ap found_value (sym e ∙ ap (λ i. load i es) ((str_eq_iff k j).0 same)))
        ])
]

-- The entry moves from one list to the other.
moved-found :
    (id k : Bytes) (p : ℕ) (eo ec : Map (Option ℕ))
    → found_value (load id eo) ≡ some p
    → found_of
        (found_value (load k (delete id (touch id (touch id eo)))))
        (found_value (load k (store id (some p) ec)))
      ≡ found_of (found_value (load k eo)) (found_value (load k ec))
moved-found id k p eo ec h =
    rw (load-delete id k (touch id (touch id eo)), load-store id k (some p) ec)
      (elim (Bool-cases (str_eq id k)) [
        | inl same ↦
            let e : found_value (load k eo) ≡ some p =
              ap (λ i. found_value (load i eo)) (sym ((str_eq_iff id k).0 same)) ∙ h in
            rw (same, e) refl
        | inr differ ↦ rw differ (
            ap (λ o. found_of o (found_value (load k ec)))
              (load-touch id k (touch id eo) ∙ load-touch id k eo))
      ])

read_triplet-closed :
    (config : Config) (after pbh : PhyBh) (p : ℕ) (t : Triplet) (idx : IndexHeader) (q : ℕ)
    (b : Bytes)
    → pbh.heap p ≡ some t
    → close t.idx_header ≡ ok idx
    → after.heap ≡ set_at pbh.heap p (some (record t { idx_header = idx }))
    → read_triplet config after q b ≡ read_triplet config pbh q b
unfolding read_triplet
read_triplet-closed config after pbh p t idx q b at_p c h = elim (Bool-cases (p == q)) [
  | inr other ↦ rw (h, other) refl
  | inl here ↦
      let e : pbh.heap q ≡ some t = subst (λ z. pbh.heap z ≡ some t) (ground arith) at_p in
      rw (h, here, e) (ap (read_entry config t b) (close-ref_map t.idx_header idx b c))
]

deref-eq-ok : {A : Type 0} (o : Option A) (a : A) → deref o ≡ ok a → o ≡ some a
deref-eq-ok none a h = cc
deref-eq-ok (some b) a h = ap some (ok_injective h)

abbrev with_closed : PhyBh → Bytes → ℕ → Triplet → IndexHeader → PhyBh
with_closed pbh id p t idx =
    let got = Lru.get pbh.open_tplt id in
    record pbh {
      open_tplt = delete_from_cache (Lru.get got.0 id).0 id;
      closed_tplt = Lru.put pbh.closed_tplt id got.1;
      heap = set_at pbh.heap p (some (record t { idx_header = idx }));
    }

finds-Models :
    (pbh : PhyBh) (eo ec : Map (Option ℕ)) (k : Bytes)
    → Models pbh.open_tplt eo
    → Models pbh.closed_tplt ec
    → finds pbh k ≡ found_of (found_value (load k eo)) (found_value (load k ec))
finds-Models pbh eo ec k mo mc =
    ap (λ o. found_of o (Lru.get pbh.closed_tplt k).1) (get-Models pbh.open_tplt eo k mo).1
    ∙ ap (found_of (found_value (load k eo))) (get-Models pbh.closed_tplt ec k mc).1

with_closed-same :
    (config : Config) (pbh : PhyBh) (id : Bytes) (p : ℕ) (t : Triplet) (idx : IndexHeader)
    → IsModelled pbh
    → (Lru.get (Lru.get pbh.open_tplt id).0 id).1 ≡ some p
    → pbh.heap p ≡ some t
    → close t.idx_header ≡ ok idx
    → IsModelled (with_closed pbh id p t idx) × IsSameView config (with_closed pbh id p t idx) pbh
with_closed-same config pbh id p t idx m e h c =
    let eo : Map (Option ℕ) = m.opens in
    let ec : Map (Option ℕ) = m.closeds in
    let got = Lru.get pbh.open_tplt id in
    let g1 = get-Models pbh.open_tplt eo id m.open_models in
    let g2 = get-Models got.0 (touch id eo) id g1.0 in
    let is_p : found_value (load id eo) ≡ some p = sym (load-touch id id eo) ∙ sym g2.1 ∙ e in
    let opened = delete_from_cache-Models (Lru.get got.0 id).0 (touch id (touch id eo)) id g2.0 in
    let put_back = put-Models pbh.closed_tplt ec id got.1 m.closed_models in
    let got_p : got.1 ≡ some p = g1.1 ∙ is_p in
    (
      record {
        opens = delete id (touch id (touch id eo));
        closeds = store id got.1 ec;
        open_models = opened;
        closed_models = put_back;
      },
      record {
        found = λ k.
            finds-Models (with_closed pbh id p t idx) (delete id (touch id (touch id eo)))
              (store id got.1 ec) k opened put_back
            ∙ ap
                (λ v.
                  found_of (found_value (load k (delete id (touch id (touch id eo)))))
                    (found_value (load k (store id v ec))))
                got_p
            ∙ moved-found id k p eo ec is_p
            ∙ sym (finds-Models pbh eo ec k m.open_models m.closed_models);
        large = refl;
        reads =
            λ q b. read_triplet-closed config (with_closed pbh id p t idx) pbh p t idx q b h c refl;
      },
    )

close_one-same :
    (json : Json) (config : Config) (pbh : PhyBh) (id : Bytes) (after : PhyBh)
    → IsModelled pbh
    → close_one json config id pbh ≡ ok after
    → IsModelled after × IsSameView config after pbh
unfolding close_one
close_one-same json config pbh id after m h =
    let again : Option ℕ = (Lru.get (Lru.get pbh.open_tplt id).0 id).1 in
    elim (Result-cases (deref again)) [
      | inr (inr c) ↦ cc (rw c at h)
      | inr (inl (e, c)) ↦ cc (rw c at h)
      | inl (p, c) ↦ elim (Result-cases (deref (pbh.heap p))) [
        | inr (inr d) ↦ cc (rw (c, d) at h)
        | inr (inl (e, d)) ↦ cc (rw (c, d) at h)
        | inl (t, d) ↦ elim (Result-cases (close t.idx_header)) [
          | inr (inr f) ↦ cc (rw (c, d, f) at h)
          | inr (inl (e, f)) ↦ cc (rw (c, d, f) at h)
          | inl (idx, f) ↦
              subst (λ z. IsModelled z × IsSameView config z pbh) (ok_injective (rw (c, d, f) at h))
                (with_closed-same config pbh id p t idx m (deref-eq-ok again p c)
                  (deref-eq-ok (pbh.heap p) t d) f)
        ]
      ]
    ]

-- For a handler whose open and closed caches hold a list of entries each, and a closing of triplets,
-- in any order, that returns: `Get` then answers every token, of open, closed and large triplets
-- alike, as it did before.
pub close_all-get :
    (json : Json) (config : Config) (ids : List Bytes) (pbh after : PhyBh) (token : Bytes)
    → IsModelled pbh
    → close_all json config ids pbh ≡ ok after
    → reply (get config after token) ≡ reply (get config pbh token)
unfolding close_all
close_all-get json config [] pbh after token m h =
    ap (λ z. reply (get config z token)) (sym (ok_injective h))
close_all-get json config (id ∷ ids) pbh after token m h =
    elim (Result-cases (close_one json config id pbh)) [
      | inr (inr c) ↦ cc (rw c at h)
      | inr (inl (e, c)) ↦ cc (rw c at h)
      | inl (pbh1, c) ↦
          let s = close_one-same json config pbh id pbh1 m c in
          close_all-get json config ids pbh1 after token s.0 (rw c at h)
          ∙ get-same config pbh1 pbh token s.1
    ]
