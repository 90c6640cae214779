-- ===== src/Holder/Swap/Tests.antt =====
-- A triplet with one blob is closed.
use riverpass.Prelude.{◌≡◌, refl, false, none, some, [], ◌∷◌}
use riverpass.Prelude.Int.{pos, ◌+ℤ◌}
use riverpass.Prelude.Text.{codes, str_eq}
use riverpass.Prelude.Result.{Result, ok, err, crash}
use riverpass.Prelude.Maps.{load, store, delete}
use riverpass.Lru as Lru
use riverpass.Lru.{set_at, delete_from_cache}
use riverpass.Lru.Methods.{new-Models_nil, put-Models}
use riverpass.Index.{IndexEntry, close, index_get}
use riverpass.Token.{
  generate_blob_token, get_triplet_id_from_token, get_blob_id_from_token, find_triplet_id,
  find_blob_id, behind, line, before_last, some_before_last,
}
use riverpass.Binary.Words.{copy_new, le_bytes, le_value, to_int64}
use riverpass.Binary.Files.{read_at}
use riverpass.Binary.Store.{bin_get, read_blob}
use riverpass.Binary.Codec.{encode, decode, decode_name, decode_size}
use riverpass.Holder.Triplet.{Triplet, PhyBh}
use riverpass.Holder.Get.{get, get_large, get_small, read_triplet}
use riverpass.Holder.Trip.Sample.{json, config, empty, tri, blb}
use riverpass.Holder.Swap.{close_one, close_all}
use riverpass.Holder.Swap.View.{reply}
use riverpass.Holder.Swap.Closing.{IsModelled, close_all-get}

abbrev entry : IndexEntry
entry = record {
  blob_id = blb;
  offset = pos 0;
  size = pos 137;
  checksum = [];
  fid = [];
  padding = [];
}

abbrev full : Triplet
full = record {
  id = tri;
  idx_header = record {
    state = 49;
    shard_id = pos 1;
    triplet_id = tri;
    local_name = codes "n";
    file = some (49 ∷ b'[' ∷ b']' ∷ []);
    entries = entry ∷ [];
    ref_map = (blb, entry) ∷ [];
    empty = false;
  };
  mf_header = record {
    empty = false;
    shard_id = pos 1;
    triplet_id = tri;
    local_name = codes "n";
    file = none;
    deletion_log = [];
  };
  bin_header = record { file = some (encode blb (7 ∷ [])); cur_off = 137 };
}

abbrev before : PhyBh
before = record empty {
  open_tplt = Lru.put Lru.new tri (some 0);
  heap = set_at empty.heap 0 (some full);
  allocated = 1;
}

before-IsModelled : IsModelled before
before-IsModelled = record {
  opens = store tri (some 0) [];
  closeds = [];
  open_models = put-Models Lru.new [] tri (some 0) new-Models_nil;
  closed_models = new-Models_nil;
}

abbrev value_of : Result PhyBh → PhyBh
value_of (ok a) = a
value_of (err e) = before
value_of crash = before

closes :
    close_all json config (tri ∷ []) before
    ≡ ok (value_of (close_all json config (tri ∷ []) before))
unfolding close_all close_one close Lru.get Lru.put Lru.new load store str_eq Lru.move_to_head
closes = refl

close_all-get_example :
    reply (
      get config (value_of (close_all json config (tri ∷ []) before)) (generate_blob_token tri blb))
    ≡ reply (get config before (generate_blob_token tri blb))
close_all-get_example =
    close_all-get json config (tri ∷ []) before (value_of (close_all json config (tri ∷ []) before))
      (generate_blob_token tri blb) before-IsModelled closes

-- The triplet that is closed has a blob to read.
has_blob : reply (get config before (generate_blob_token tri blb)) ≡ ok (ok (7 ∷ []))
unfolding get get_large get_small read_triplet generate_blob_token str_eq get_triplet_id_from_token
    get_blob_id_from_token find_triplet_id find_blob_id behind line before_last some_before_last
    Lru.get Lru.put Lru.new Lru.add_to_head Lru.delete_node Lru.move_to_head load store delete
    index_get bin_get read_blob read_at decode decode_name decode_size encode copy_new le_bytes
    le_value to_int64 ◌+ℤ◌
has_blob = refl
