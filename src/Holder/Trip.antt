-- ===== src/Holder/Trip.antt =====
-- `Put` and then `Get` with the token that it returned.
pub mod Sample
mod Tests
use riverpass.Prelude.{
  ℕ, ◌+◌, ◌<◌, ◌≡◌, ◌≢◌, refl, sym, ap, ◌∙◌, ◌⊎◌, true, false, Bool, ◌==◌, inl, inr, Option, none,
  some, List, [], ◌∷◌, ◌++◌, arith, if◌then◌else◌, length, take, leb, le→leb,
}
use riverpass.Prelude.Int.{ℤ, pos, ◌-ℤ◌, ltb_ℤ}
use riverpass.Prelude.Text.{Bytes, codes, str_eq, str_eq_self}
use riverpass.Prelude.Result.{Result, ok}
use riverpass.Prelude.Maps.{Map, load, store, load-store_self}
use riverpass.Lru as Lru
use riverpass.Lru.{LruCache, set_at}
use riverpass.Lru.Model.{Models}
use riverpass.Lru.Refine.{touch}
use riverpass.Lru.Methods.{get-Models, put-Models}
use riverpass.Token.{
  generate_blob_token, get_triplet_id_from_token, get_blob_id_from_token, full2partial_token,
}
use riverpass.Token.Trip.{Plain, token_round_trip, lobj_transparent}
use riverpass.Index.Reload.{create-IsLogged}
use riverpass.Index.{closed_state}
use riverpass.Manifest.{MfHeader, mf_new, mf_create, mf_blank}
use riverpass.Manifest.Reload.{IsWritten}
use riverpass.Binary.Codec.{get_payload_size}
use riverpass.Binary.Store.{BinHeader, bin_new}
use riverpass.Binary.Store.Laws.{IsBlob}
use riverpass.Holder.{Json}
use riverpass.Holder.Triplet.{Config, Triplet, PhyBh, nothing, triplet_new, open_new_tplt}
use riverpass.Holder.Put.{
  Env, put, put_reserved, put_bin, choose, choose_large, choose_open, pick_loop, add_bytes,
  max_alloc_size,
}
use riverpass.Holder.Get.{get, get_large, get_small, read_triplet}
use riverpass.Holder.Sound.{
  IsHealthy, IsOpen, HasRoom, IsStored, Keeps, put_bin-IsStored, stored-Keeps,
}
use riverpass.Holder.Stored.{IsName, tokens, load-touch, set_at_here, get-small, get-large}

pub fresh_triplet :
    (json : Json) (config : Config) (shard_id : ℤ) (uuid : Bytes) (is_large : Bool)
    → (t : Triplet) × (size : ℕ) × (triplet_new json config shard_id uuid is_large nothing
        ≡ ok (t, size))
      × IsHealthy json t
      × IsOpen t
unfolding triplet_new mf_new mf_create bin_new
fresh_triplet json config shard_id uuid is_large =
    let (ih, new, state, logged) =
      create-IsLogged json.index_text json.index_read config.prefix shard_id uuid is_large in
    let mf = (mf_create (mf_blank config.prefix shard_id uuid)).0 in
    let bin : BinHeader = record { file = none; cur_off = 0 } in
    (
      record { id = uuid; idx_header = ih; mf_header = mf; bin_header = bin },
      5 + 3 + 0,
      rw new refl,
      record {
        synced = refl;
        mark = _;
        logged = logged;
        actions = [];
        written = record { on_disk = refl; emptiness = refl };
      },
      ap (λ n. n == closed_state) state,
    )

-- A picked triplet is the one that `Range` visits first.
pick_loop-first : (rand : ℕ) (k : Bytes) (ks : List Bytes) → pick_loop rand 0 (k ∷ ks) ≡ k
unfolding pick_loop
pick_loop-first rand k ks = let e : leb 0 rand ≡ true = le→leb 0 rand (omega arith) in rw e refl

-- What a token is made of: a triplet, and the blob that its partial form names.
abbrev pub IsTokenOf : Bytes → Bytes → Type 0
IsTokenOf token blb_id =
    (tid : Bytes) × (get_triplet_id_from_token token ≡ ok tid)
    × (full2partial_token token ≡ ok (generate_blob_token [] blb_id))

-- The blob is put, got back, and nothing else is lost.
abbrev pub Trip : Json → Config → Env → PhyBh → Bytes → Bytes → Type 0
Trip json config env pbh blb_id body =
    (after : PhyBh) × (token : Bytes) × (later : PhyBh) × IsTokenOf token blb_id
    × (put json config env pbh blb_id body ≡ ok (after, ok token))
    × (get config after token ≡ ok (later, ok body))
    × ((q : ℕ) (t : Triplet)
        → q < pbh.allocated
        → pbh.heap q ≡ some t
        → (u : Triplet) × (after.heap q ≡ some u) × Keeps config blb_id t u)

module _ (json : Json) (config : Config) (env : Env) (pbh : PhyBh) (blb_id body : Bytes)
    (runs : env.io ≡ true) (room : HasRoom json blb_id) (blob : IsBlob config.align blb_id body)
    (blob_name : Plain blb_id × (blb_id ≢ []))
    (fits : ltb_ℤ
        (config.cache_max -ℤ pbh.total_bytes)
        (max_alloc_size (get_payload_size config.align (length body)))
      ≡ false) where
  -- A large blob gets a triplet of its own.
  put-get_large :
      (es : Map (Option ℕ))
      → ltb_ℤ config.large_threshold (pos (get_payload_size config.align (length body))) ≡ true
      → env.found ≡ nothing
      → IsName env.uuid
      → Models pbh.large_obj_tplt es
      → Trip json config env pbh blb_id body
  unfolding put put_reserved choose choose_large open_new_tplt
  put-get_large es large new name m =
      let payload : ℕ = get_payload_size config.align (length body) in
      let of_token = tokens env.uuid blb_id name blob_name in
      let (t, size, fresh, healthy, opened) =
        fresh_triplet json config pbh.shard_id env.uuid true in
      let made : triplet_new json config pbh.shard_id env.uuid true env.found ≡ ok (t, size) =
        rw new fresh in
      let p : ℕ = pbh.allocated in
      let token : Bytes = codes "lobj" ++ generate_blob_token env.uuid blb_id in
      let pbh1 : PhyBh = record (add_bytes pbh (max_alloc_size payload)) {
        heap = set_at pbh.heap p (some t);
        allocated = p + 1;
        large_obj_tplt = Lru.put pbh.large_obj_tplt env.uuid (some p);
      } in
      let (after, done, s) =
        put_bin-IsStored json config env pbh1 p t blb_id body runs (set_at_here pbh.heap p t)
          healthy opened room blob size token in
      let m1 : Models after.large_obj_tplt (store env.uuid (some p) es) =
        rw s.large_obj_tplt (put-Models pbh.large_obj_tplt es env.uuid (some p) m) in
      let (later, got) =
        get-large json config after pbh1 p blb_id body s env.uuid (store env.uuid (some p) es) name
          blob_name m1 (load-store_self env.uuid (some p) es) in
      (
        after,
        token,
        later,
        (
          env.uuid,
          (lobj_transparent (generate_blob_token env.uuid blb_id)).0 ∙ of_token.0,
          (lobj_transparent (generate_blob_token env.uuid blb_id)).1 ∙ of_token.2,
        ),
        rw (fits, large, made) done,
        got,
        λ q u below at.
            let differ : (p == q) ≡ false = ground arith in
            stored-Keeps json config pbh1 after p blb_id body s q u (rw differ at),
      )

  -- A small blob goes to an open triplet.
  put-get_small :
      (es : Map (Option ℕ)) (pick : Bytes) (picks : List Bytes) (p : ℕ) (t : Triplet)
      → ltb_ℤ config.large_threshold (pos (get_payload_size config.align (length body))) ≡ false
      → ltb_ℤ (pos 0) pbh.open_tplt.size ≡ true
      → env.range pbh.open_tplt.dict ≡ pick ∷ picks
      → IsName pick
      → Models pbh.open_tplt es
      → load pick es ≡ some (some p)
      → pbh.heap p ≡ some t
      → IsHealthy json t
      → IsOpen t
      → Trip json config env pbh blb_id body
  unfolding put put_reserved choose choose_open
  put-get_small es pick picks p t small has_open range name m at here healthy opened =
      let payload : ℕ = get_payload_size config.align (length body) in
      let token : Bytes = generate_blob_token pick blb_id in
      let of_token = tokens pick blb_id name blob_name in
      let (m1, found) = get-Models pbh.open_tplt es pick m in
      let pbh1 : PhyBh = record (add_bytes pbh (max_alloc_size payload)) {
        open_tplt = (Lru.get pbh.open_tplt pick).0;
      } in
      let (after, done, s) =
        put_bin-IsStored json config env pbh1 p t blb_id body runs here healthy opened room blob 0
          token in
      let m2 : Models after.open_tplt (touch pick es) = rw s.open_tplt m1 in
      let (later, got) =
        get-small json config after pbh1 p blb_id body s pick (touch pick es) name blob_name m2
          (load-touch pick es (some p) at) in
      (
        after,
        token,
        later,
        (pick, of_token.0, of_token.2),
        rw
            (
              fits,
              small,
              has_open,
              range,
              pick_loop-first (env.rand pbh.open_tplt.size) pick picks,
              found,
              at,
            )
            done,
        got,
        λ q u below there. stored-Keeps json config pbh1 after p blb_id body s q u there,
      )

-- The blob is over the threshold: the handler's large triplets are a list of entries, and the new
-- identifier has no file and is a plain name.
pub record IsLargePut (config : Config) (env : Env) (pbh : PhyBh) (payload_size : ℕ) : Type 0 where
  pub entries : Map (Option ℕ)
  pub large : ltb_ℤ config.large_threshold (pos payload_size) ≡ true
  pub new : env.found ≡ nothing
  pub name : IsName env.uuid
  pub models : Models pbh.large_obj_tplt entries

-- The blob is not over the threshold: the first open triplet that `Range` visits has a plain name,
-- and its three headers agree with their files.
pub record IsSmallPut (json : Json) (config : Config) (env : Env) (pbh : PhyBh) (payload_size : ℕ)
    : Type 0 where
  pub entries : Map (Option ℕ)
  pub pick : Bytes
  pub picks : List Bytes
  pub p : ℕ
  pub triplet : Triplet
  pub small : ltb_ℤ config.large_threshold (pos payload_size) ≡ false
  pub has_open : ltb_ℤ (pos 0) pbh.open_tplt.size ≡ true
  pub range : env.range pbh.open_tplt.dict ≡ pick ∷ picks
  pub name : IsName pick
  pub models : Models pbh.open_tplt entries
  pub at : load pick entries ≡ some (some p)
  pub here : pbh.heap p ≡ some triplet
  pub healthy : IsHealthy json triplet
  pub opened : IsOpen triplet

-- The write runs, the entries leave room for their padding, the identifier is plain, there is room
-- for the blob under the limit, and the triplet that it goes to is in order.
pub record CanPut (json : Json) (config : Config) (env : Env) (pbh : PhyBh) (blb_id body : Bytes)
    : Type 0 where
  pub runs : env.io ≡ true
  pub room : HasRoom json blb_id
  pub blob : IsBlob config.align blb_id body
  pub blob_name : Plain blb_id × (blb_id ≢ [])
  pub fits :
      ltb_ℤ
        (config.cache_max -ℤ pbh.total_bytes)
        (max_alloc_size (get_payload_size config.align (length body)))
      ≡ false
  pub path :
      IsLargePut config env pbh (get_payload_size config.align (length body))
      ⊎ IsSmallPut json config env pbh (get_payload_size config.align (length body))

-- `Put` of a blob that can be put, large or small, returns a token that is made of a triplet's
-- identifier and the blob's; `Get` with that token on the state after it returns the blob; and every
-- other blob of every triplet that was there is read from its triplet as before.
pub put-get :
    (json : Json) (config : Config) (env : Env) (pbh : PhyBh) (blb_id body : Bytes)
    → CanPut json config env pbh blb_id body
    → Trip json config env pbh blb_id body
put-get json config env pbh blb_id body c = elim c.path [
  | inl l ↦
      put-get_large json config env pbh blb_id body c.runs c.room c.blob c.blob_name c.fits
        l.entries l.large l.new l.name l.models
  | inr s ↦
      put-get_small json config env pbh blb_id body c.runs c.room c.blob c.blob_name c.fits
        s.entries s.pick s.picks s.p s.triplet s.small s.has_open s.range s.name s.models s.at
        s.here s.healthy s.opened
]
