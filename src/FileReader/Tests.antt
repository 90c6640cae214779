-- ===== src/FileReader/Tests.antt =====
-- The theorems on the reader at a blob that was put.
use riverpass.Prelude.{ℕ, zero, suc, ◌≡◌, refl, true, Option, none, some, [], ◌∷◌, arith}
use riverpass.Prelude.Int.{pos}
use riverpass.Prelude.Text.{Bytes, codes, str_eq}
use riverpass.Prelude.Maps.{load, store, delete}
use riverpass.Prelude.Result.{Result, ok, err, out_of_range}
use riverpass.RangeCode.Order.{lex_lt}
use riverpass.Lru as Lru
use riverpass.Index.{index_get, fresh_entry}
use riverpass.Binary.Store.{bin_get, read_blob}
use riverpass.Binary.Files as Files
use riverpass.Binary.Codec.{encode, decode, decode_name, decode_size}
use riverpass.Binary.Words.{copy_new, le_bytes, le_value, to_int64}
use riverpass.Token.{
  get_triplet_id_from_token, get_blob_id_from_token, find_triplet_id, find_blob_id,
}
use riverpass.Holder.Triplet.{Triplet, PhyBh}
use riverpass.Holder.Get.{get, get_large, read_triplet}
use riverpass.Holder.Trip.Sample.{config, empty, one, sample_trip, body_large}
use riverpass.Segments.{
  BlobMeta, SegJson, SegRow, children_of, insert_row, order_by_name, read_segs,
  list_blob_segs_by_fid_from_db,
}
use riverpass.FileReader.{read_from_cache, read_at}
use riverpass.FileReader.Slices.{read_from_cache-slice, read_from_cache-empty, read_at-boundary}

read_from_cache-slice_example :
    read_from_cache config sample_trip.0
      (pos 2)
      (pos 3)
      (record { start = pos 0; end = pos 10; token = sample_trip.1 } ∷ [])
    ≡ ok (sample_trip.2, ok (3 ∷ 4 ∷ 5 ∷ []))
read_from_cache-slice_example =
    read_from_cache-slice config sample_trip.0 sample_trip.2 sample_trip.1 body_large sample_trip.5
      (omega arith) 0 10 2 3 [] refl (omega arith) (omega arith) (omega arith) (omega arith)

read_from_cache-empty_example :
    read_from_cache config sample_trip.0
      (pos 10)
      (pos 0)
      (record { start = pos 0; end = pos 10; token = sample_trip.1 } ∷ [])
    ≡ ok (sample_trip.2, err out_of_range)
read_from_cache-empty_example =
    read_from_cache-empty config sample_trip.0 sample_trip.2 sample_trip.1 body_large sample_trip.5
      (omega arith) 0 10 10 0 [] refl (omega arith) (omega arith) (omega arith) refl refl

-- A large triplet with one blob of two bytes.
abbrev body : Bytes
body = 7 ∷ 8 ∷ []

abbrev stored : Triplet
stored = record one.0 {
  idx_header = record one.0.idx_header {
    ref_map = (codes "9f9f9f9f", fresh_entry (codes "9f9f9f9f") (pos 0) (pos 138)) ∷ [];
  };
  bin_header = record { file = some (encode (codes "9f9f9f9f") body); cur_off = 138 };
}

abbrev pbh : PhyBh
pbh = record empty {
  large_obj_tplt = Lru.put Lru.new (codes "x") (some 0);
  heap = λ p. some stored;
  allocated = 1;
}

abbrev token : Bytes
token = codes "lobjtr_x_bb_9f9f9f9f"

abbrev value_of : Result (PhyBh × Result Bytes) → PhyBh
value_of (ok a) = a.0
value_of r = pbh

abbrev pbh1 : PhyBh
pbh1 = value_of (get config pbh token)

got1 : get config pbh token ≡ ok (pbh1, ok body)
unfolding get get_large read_triplet Lru.put Lru.new Lru.get Lru.add_to_head load store delete
    str_eq index_get bin_get read_blob encode decode decode_name decode_size copy_new le_bytes
    le_value to_int64 get_triplet_id_from_token get_blob_id_from_token find_triplet_id find_blob_id
    Files.read_at
got1 = refl

abbrev pbh2 : PhyBh
pbh2 = value_of (get config pbh1 token)

got2 : get config pbh1 token ≡ ok (pbh2, ok body)
unfolding get get_large read_triplet Lru.put Lru.new Lru.get Lru.add_to_head load store delete
    str_eq index_get bin_get read_blob encode decode decode_name decode_size copy_new le_bytes
    le_value to_int64 get_triplet_id_from_token get_blob_id_from_token find_triplet_id find_blob_id
    Files.read_at Lru.move_to_head Lru.delete_node
got2 = refl

abbrev meta_at : ℕ → ℕ → BlobMeta
meta_at a b = record {
  rng_code = record { start = pos a; end = pos b; token = token };
  owner_id = codes "f";
}

abbrev read_meta : Bytes → Option BlobMeta
read_meta [] = none
read_meta (zero ∷ s) = some (meta_at 0 2)
read_meta (suc n ∷ s) = some (meta_at 2 4)

abbrev json : SegJson
json = record { seg_text = λ bm. []; seg_read = read_meta }

abbrev seg_at : ℕ → SegRow
seg_at n = record { parent_id = codes "f"; child_name = n ∷ []; seg_meta = n ∷ []; state = 1 }

listed :
    list_blob_segs_by_fid_from_db json true (seg_at 1 ∷ seg_at 0 ∷ []) (codes "f")
    ≡ ok (meta_at 0 2 ∷ meta_at 2 4 ∷ [])
unfolding list_blob_segs_by_fid_from_db children_of order_by_name insert_row lex_lt read_segs str_eq
listed = refl

read_at-boundary_example :
    read_at config json true (seg_at 1 ∷ seg_at 0 ∷ []) pbh (codes "f") (pos 2) (pos 1)
    ≡ ok (pbh2, err out_of_range)
read_at-boundary_example =
    read_at-boundary config json (seg_at 1 ∷ seg_at 0 ∷ []) (codes "f") (codes "f") pbh pbh1 pbh2
      token token body body 0 2 4 1 listed got1 refl got2 refl (omega arith) (omega arith)
      (omega arith) (omega arith)
