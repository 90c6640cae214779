-- ===== src/Holder/Startup/Tests.antt =====
-- The start of a handler on a disk with a triplet of the table and an orphan.
use riverpass.Prelude.{◌≡◌, refl, true, false, none, some, List, [], ◌∷◌, if◌then◌else◌}
use riverpass.Prelude.Int.{pos}
use riverpass.Prelude.Text.{Bytes, codes, str_eq}
use riverpass.Prelude.Result.{Result, ok}
use riverpass.Token.{behind, line, before_last}
use riverpass.FileTable.{FileRow, pending, ready}
use riverpass.Lru as Lru
use riverpass.Holder.{Json}
use riverpass.Holder.Triplet.{Found, PhyBh}
use riverpass.Holder.Trip.Sample.{config}
use riverpass.Holder.Startup.{scan_names, pbh_new, find_tri_id, skip, match_here}
use riverpass.Holder.Swap.{Removes}

abbrev json : Json
json = record {
  index_text = λ e. [];
  index_read = λ bytes. some [];
  mf_text = λ e. [];
  mf_read = λ bytes. some [];
}

abbrev names : List Bytes
names =
    codes "binary_1_a.dat"
    ∷ codes "idx_h_1_a.dat"
    ∷ codes "idx_h_1_b.dat"
    ∷ codes "idx_h_2_c.dat"
    ∷ []

abbrev disk : Bytes → Found
disk id =
    if str_eq id (codes "a")
    then record { idx_file = some (50 ∷ codes "\n[\n]"); mf_file = none; bin_file = some (1 ∷ []) }
    else record { idx_file = some (50 ∷ codes "\n[\n]"); mf_file = none; bin_file = none }

abbrev rows : List FileRow
rows =
    record { fid = codes "f"; file_meta = codes "m"; owners = codes "a"; state = ready }
    ∷ record { fid = codes "g"; file_meta = codes "m"; owners = []; state = pending }
    ∷ []

-- The index file of an orphan cannot be removed.
abbrev removes : Bytes → Removes
removes id = record { bin = true; idx = false; mf = true }

scanned : scan_names (codes "1") names ≡ codes "a" ∷ codes "b" ∷ []
unfolding scan_names find_tri_id match_here skip behind line before_last
scanned = refl

abbrev run : Result (PhyBh × List FileRow × (Bytes → Found))
run = pbh_new json config true true removes (pos 1) names disk rows (codes "n")

abbrev value_of :
    Result (PhyBh × List FileRow × (Bytes → Found)) → PhyBh × List FileRow × (Bytes → Found)
value_of (ok a) = a
value_of r = (
  record {
    shard_id = pos 1;
    open_tplt = Lru.new;
    closed_tplt = Lru.new;
    large_obj_tplt = Lru.new;
    heap = λ p. none;
    allocated = 0;
    total_bytes = pos 0;
  },
  [],
  disk,
)
