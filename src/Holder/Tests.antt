-- ===== src/Holder/Tests.antt =====
-- Tests of the handler, and its theorems at a concrete state.
use riverpass.Prelude.{◌≡◌, refl, true, false, none, [], ◌∷◌, ◌++◌, arith, if◌then◌else◌}
use riverpass.Prelude.Int.{pos, ◌+ℤ◌, ◌-ℤ◌, ◌≤ℤ◌}
use riverpass.Prelude.Text.{Bytes, codes}
use riverpass.Prelude.Result.{Result, ok, err, crash, cache_full}
use riverpass.Lru as Lru
use riverpass.Index.{index_new, create, index_put}
use riverpass.Manifest.{mf_new, mf_create, mf_put, mf_flush}
use riverpass.Prelude.Maps.{load}
use riverpass.Log.{flush}
use riverpass.Binary.Store.{bin_new, bin_put, bin_flush}
use riverpass.Binary.Codec.{get_payload_size, encode}
use riverpass.Binary.Words.{copy_new, le_bytes}
use riverpass.Holder.{Json}
use riverpass.Holder.Triplet.{Config, PhyBh, nothing, open_new_tplt, triplet_new}
use riverpass.Holder.Put.{Env, put, put_reserved, choose, choose_large, put_bin, put_idx, put_mf}
use riverpass.Holder.Account.{put-Accounted, is_err}

abbrev json : Json
json = record {
  index_text = λ e. e.blob_id ++ e.padding;
  index_read = λ bytes. none;
  mf_text = λ e. e.blob_id ++ e.padding;
  mf_read = λ bytes. none;
}

abbrev config : Config
config = record {
  prefix = [];
  align = false;
  cache_max = pos 400;
  large_threshold = pos 1000;
  closing_threshold = pos 1000;
}

abbrev env : Env
env = record {
  uuid = codes "1a2b3c4d";
  found = nothing;
  io = true;
  rand = λ n. 0;
  range = λ dict. [];
}

abbrev pbh : PhyBh
pbh = record {
  shard_id = pos 1;
  open_tplt = Lru.new;
  closed_tplt = Lru.new;
  large_obj_tplt = Lru.new;
  heap = λ p. none;
  allocated = 0;
  total_bytes = pos 100;
}

-- The reservation of a call is larger than the room.
refused_full : put json config env pbh (codes "9f9f9f9f") (7 ∷ 8 ∷ []) ≡ ok (pbh, err cache_full)
unfolding put get_payload_size ◌-ℤ◌
refused_full = refl

abbrev wide : Config
wide = record config { cache_max = pos 800; large_threshold = pos 100 }

abbrev outcome : Result (PhyBh × Result Bytes)
outcome = put json wide env pbh (codes "9f9f9f9f") (7 ∷ 8 ∷ [])

abbrev value_of : Result (PhyBh × Result Bytes) → PhyBh × Result Bytes
value_of (ok a) = a
value_of (err e) = (pbh, err e)
value_of crash = (pbh, err cache_full)

-- A blob of two bytes goes to a large triplet of its own.
is_stored : outcome ≡ ok (value_of outcome)
unfolding put put_reserved choose choose_large open_new_tplt triplet_new index_new create mf_new
    mf_create bin_new Lru.put load put_bin bin_put bin_flush put_idx index_put flush put_mf mf_put
    mf_flush get_payload_size ◌-ℤ◌ ◌+ℤ◌ encode copy_new le_bytes
is_stored = refl

put-Accounted_example :
    ((value_of outcome).0.total_bytes ≤ℤ wide.cache_max)
    × ((if is_err (value_of outcome).1 then (value_of outcome).0.total_bytes else pbh.total_bytes)
        ≡ pbh.total_bytes)
put-Accounted_example =
    put-Accounted json wide env pbh (codes "9f9f9f9f") (7 ∷ 8 ∷ []) (value_of outcome).0
      (value_of outcome).1 refl (omega arith) is_stored
