-- ===== src/Holder/Stored.antt =====
-- `Get` with the token of a blob that the three steps of `Put` have stored.
use riverpass.Prelude.{
  ℕ, ◌≡◌, ◌≢◌, refl, ap, true, false, Option, some, [], ◌∷◌, ◌++◌, arith, length, take, leb, le→leb,
}
use riverpass.Prelude.Text.{Bytes, codes, str_eq, str_eq_self}
use riverpass.Prelude.Result.{ok}
use riverpass.Prelude.Maps.{Map, load, load-store_self}
use riverpass.Lru as Lru
use riverpass.Lru.{LruCache, set_at}
use riverpass.Lru.Model.{Models}
use riverpass.Lru.Refine.{touch}
use riverpass.Lru.Methods.{get-Models}
use riverpass.Token.{
  generate_blob_token, get_triplet_id_from_token, get_blob_id_from_token, full2partial_token,
}
use riverpass.Token.Trip.{Plain, token_round_trip}
use riverpass.Holder.{Json}
use riverpass.Holder.Triplet.{Config, Triplet, PhyBh}
use riverpass.Holder.Get.{get, get_large, get_small, read_triplet}
use riverpass.Holder.Sound.{IsStored}

-- An identifier that a token gives back.
abbrev pub IsName : Bytes → Type 0
IsName s = Plain s × (s ≢ []) × (s ≢ codes "bb")

pub tokens :
    (tri blb : Bytes)
    → IsName tri
    → Plain blb × (blb ≢ [])
    → (get_triplet_id_from_token (generate_blob_token tri blb) ≡ ok tri)
      × (get_blob_id_from_token (generate_blob_token tri blb) ≡ ok blb)
      × (full2partial_token (generate_blob_token tri blb) ≡ ok (generate_blob_token [] blb))
tokens [] blb n b = absurd (n.1 refl)
tokens (x ∷ tri) [] n b = absurd (b.1 refl)
tokens (x ∷ tri) (y ∷ blb) n b = let t = token_round_trip x tri y blb n.0 n.2 b.0 in (t.0, t.1, t.2)

pub load-touch :
    (k : Bytes) (es : Map (Option ℕ)) (v : Option ℕ)
    → load k es ≡ some v
    → load k (touch k es) ≡ some v
load-touch k es v e = rw e (load-store_self k v es)

pub set_at_here : (f : ℕ → Option Triplet) (p : ℕ) (t : Triplet) → set_at f p (some t) p ≡ some t
set_at_here f p t = ground arith

module _ (json : Json) (config : Config) (pbh : PhyBh) (before : PhyBh) (p : ℕ)
    (blb_id body : Bytes) (s : IsStored json config before pbh p blb_id body) where
  read_stored :
      (lru1 lru2 lru3 : LruCache ℕ)
      → read_triplet config
          (record pbh { open_tplt = lru1; closed_tplt = lru2; large_obj_tplt = lru3 })
          p
          blb_id
        ≡ ok body
  unfolding read_triplet
  read_stored lru1 lru2 lru3 = rw (s.heap, set_at_here before.heap p s.triplet) s.reads

  pub get-small :
      (tri : Bytes) (es : Map (Option ℕ))
      → IsName tri
      → Plain blb_id × (blb_id ≢ [])
      → Models pbh.open_tplt es
      → load tri es ≡ some (some p)
      → (later : PhyBh) × (get config pbh (generate_blob_token tri blb_id) ≡ ok (later, ok body))
  unfolding get get_small
  get-small [] es n b m e = absurd (n.1 refl)
  get-small (x ∷ tri) es n b m e =
      let t = tokens (x ∷ tri) blb_id n b in
      let g = (get-Models pbh.open_tplt es (x ∷ tri) m).1 in
      let l : leb 4 (length (generate_blob_token (x ∷ tri) blb_id)) ≡ true =
        le→leb 4 _ (unfold generate_blob_token in omega arith) in
      let q : str_eq (take 4 (generate_blob_token (x ∷ tri) blb_id)) (codes "lobj") ≡ false =
        unfold generate_blob_token str_eq in refl in
      (
        record pbh { open_tplt = (Lru.get pbh.open_tplt (x ∷ tri)).0 },
        rw (l, q, t.0, t.1, g, e)
            (ap (λ z. ok (record pbh { open_tplt = (Lru.get pbh.open_tplt (x ∷ tri)).0 }, z))
              (read_stored (Lru.get pbh.open_tplt (x ∷ tri)).0 pbh.closed_tplt pbh.large_obj_tplt)),
      )

  pub get-large :
      (tri : Bytes) (es : Map (Option ℕ))
      → IsName tri
      → Plain blb_id × (blb_id ≢ [])
      → Models pbh.large_obj_tplt es
      → load tri es ≡ some (some p)
      → (later : PhyBh) × (get config pbh (codes "lobj" ++ generate_blob_token tri blb_id)
          ≡ ok (later, ok body))
  unfolding get get_large
  get-large tri es n b m e =
      let t = tokens tri blb_id n b in
      let g = (get-Models pbh.large_obj_tplt es tri m).1 in
      let l : leb 4 (length (codes "lobj" ++ generate_blob_token tri blb_id)) ≡ true =
        le→leb 4 _ (omega arith) in
      let q : str_eq (codes "lobj") (codes "lobj") ≡ true = str_eq_self (codes "lobj") in
      (
        record pbh { large_obj_tplt = (Lru.get pbh.large_obj_tplt tri).0 },
        rw (l, q, t.0, t.1, g, e)
            (ap (λ z. ok (record pbh { large_obj_tplt = (Lru.get pbh.large_obj_tplt tri).0 }, z))
              (read_stored pbh.open_tplt pbh.closed_tplt (Lru.get pbh.large_obj_tplt tri).0)),
      )
