-- ===== src/Holder/Trip/Sample.antt =====
-- Concrete handlers and blobs that the theorems on `Put` and `Get` apply to.
use riverpass.Prelude.{
  ℕ, ◌+◌, ◌≤◌, ◌<◌, ◌≡◌, ◌≢◌, refl, inl, inr, true, false, none, some, [], ◌∷◌, ◌++◌, arith, length,
  length-append, length-replicate, replicate,
}
use riverpass.Prelude.Int.{pos, ◌-ℤ◌, ◌+ℤ◌}
use riverpass.Prelude.Text.{Bytes, codes, str_eq}
use riverpass.Prelude.Maps.{load, store, delete}
use riverpass.Lru as Lru
use riverpass.Lru.{LruCache, set_at}
use riverpass.Lru.Methods.{new-Models_nil, put-Models}
use riverpass.Token.Trip.{Plain}
use riverpass.Binary.Codec.{get_payload_size}
use riverpass.Holder.{Json}
use riverpass.Holder.Triplet.{Config, Triplet, PhyBh, nothing}
use riverpass.Holder.Put.{Env}
use riverpass.Holder.Sound.{IsHealthy, IsOpen, HasRoom}
use riverpass.Holder.Stored.{IsName}
use riverpass.Holder.Trip.{fresh_triplet, Trip, CanPut, put-get}

abbrev pub json : Json
json = record {
  index_text = λ e. e.blob_id ++ e.padding;
  index_read = λ bytes. none;
  mf_text = λ e. e.blob_id ++ e.padding;
  mf_read = λ bytes. none;
}

-- Blobs over 145 bytes are large.
abbrev pub config : Config
config = record {
  prefix = [];
  align = false;
  cache_max = pos 800;
  large_threshold = pos 145;
  closing_threshold = pos 1000;
}

abbrev pub tri : Bytes
tri = codes "1a2b3c4d"

abbrev pub blb : Bytes
blb = codes "9f9f9f9f"

abbrev pub env : Env
env = record { uuid = tri; found = nothing; io = true; rand = λ n. 0; range = λ dict. tri ∷ [] }

abbrev pub empty : PhyBh
empty = record {
  shard_id = pos 1;
  open_tplt = Lru.new;
  closed_tplt = Lru.new;
  large_obj_tplt = Lru.new;
  heap = λ p. none;
  allocated = 0;
  total_bytes = pos 100;
}

pub one : (t : Triplet) × IsHealthy json t × IsOpen t
one =
    let (t, size, made, healthy, opened) = fresh_triplet json config (pos 1) tri false in
    (t, healthy, opened)

abbrev pub with_one : PhyBh
with_one = record empty {
  open_tplt = Lru.put Lru.new tri (some 0);
  heap = set_at empty.heap 0 (some one.0);
  allocated = 1;
}

plain_char : (c : ℕ) → 96 ≤ c → (c ≢ b'_') × (c ≢ 10)
plain_char c h = ((λ e. omega arith), (λ e. omega arith))

plain_digit : (c : ℕ) → 11 ≤ c → c < 95 → (c ≢ b'_') × (c ≢ 10)
plain_digit c l h = ((λ e. omega arith), (λ e. omega arith))

digit : (n : ℕ) → n < 10 → (b'0' + n ≢ b'_') × (b'0' + n ≢ 10)
digit n h = plain_digit (b'0' + n) (omega arith) (omega arith)

letter : (n : ℕ) → (b'a' + n ≢ b'_') × (b'a' + n ≢ 10)
letter n = plain_char (b'a' + n) (omega arith)

hex-Plain : Plain tri
hex-Plain = (
  digit 1 (omega arith),
  (
    letter 0,
    (
      digit 2 (omega arith),
      (letter 1, (digit 3 (omega arith), (letter 2, (digit 4 (omega arith), (letter 3, tt))))),
    ),
  ),
)

pub tri-IsName : IsName tri
tri-IsName = (hex-Plain, (λ e. cc), (λ e. cc))

pads : (s : Bytes) (n : ℕ) → length (s ++ replicate n b'#') ≡ length (s ++ []) + n
pads s n =
    omega (
      arith,
      length-append s (replicate n b'#'),
      length-append s [],
      length-replicate {A = ℕ} n b'#',
    )

pub blb-HasRoom : HasRoom json blb
blb-HasRoom = ((λ offset size. ((λ n. pads blb n), omega arith)), ((λ n. pads blb n), omega arith))

pub blb-Plain : Plain blb × (blb ≢ [])
blb-Plain = (
  (
    digit 9 (omega arith),
    (
      letter 5,
      (
        digit 9 (omega arith),
        (letter 5, (digit 9 (omega arith), (letter 5, (digit 9 (omega arith), (letter 5, tt))))),
      ),
    ),
  ),
  λ e. cc,
)

abbrev pub body_large : Bytes
body_large = 1 ∷ 2 ∷ 3 ∷ 4 ∷ 5 ∷ 6 ∷ 7 ∷ 8 ∷ 9 ∷ 10 ∷ []

abbrev pub body_small : Bytes
body_small = 7 ∷ 8 ∷ []

pub sample_large : CanPut json config env empty blb body_large
unfolding ◌-ℤ◌ get_payload_size
sample_large = record {
  runs = refl;
  room = blb-HasRoom;
  blob = (refl, omega arith, (λ e. cc));
  blob_name = blb-Plain;
  fits = refl;
  path = inl (record {
    entries = [];
    large = refl;
    new = refl;
    name = tri-IsName;
    models = new-Models_nil;
  });
}

pub sample_small : CanPut json config env with_one blb body_small
unfolding ◌-ℤ◌ ◌+ℤ◌ get_payload_size Lru.put Lru.new Lru.add_to_head load store delete str_eq
sample_small = record {
  runs = refl;
  room = blb-HasRoom;
  blob = (refl, omega arith, (λ e. cc));
  blob_name = blb-Plain;
  fits = refl;
  path = inr (record {
    entries = store tri (some 0) [];
    pick = tri;
    picks = [];
    p = 0;
    triplet = one.0;
    small = refl;
    has_open = refl;
    range = refl;
    name = tri-IsName;
    models = put-Models Lru.new [] tri (some 0) new-Models_nil;
    at = refl;
    here = refl;
    healthy = one.1;
    opened = one.2;
  });
}

pub sample_trip : Trip json config env empty blb body_large
sample_trip = put-get json config env empty blb body_large sample_large
