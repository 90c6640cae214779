-- ===== src/Token.antt =====
-- common/util/blob_token.go: the token that names a blob in a triplet. The two regular expressions
-- are matched the way package regexp does: leftmost match, greedy `.+`, and `.` is no new line. No
-- match makes `grab[1]` panic.
pub mod Trip
mod Tests
use riverpass.Prelude.{
  ℕ, zero, suc, Bool, true, false, ◌&&◌, Option, none, some, List, [], ◌∷◌, ◌++◌, ◌==◌,
  if◌then◌else◌, drop,
}
use riverpass.Prelude.Text.{Bytes, codes}
use riverpass.Prelude.Result.{Result, ok, crash, ◌>>=◌}

unfoldable pub generate_blob_token : Bytes → Bytes → Bytes
generate_blob_token tplt_id blb_id = codes "tr_" ++ (tplt_id ++ (codes "_bb_" ++ blb_id))

-- The rest of the text behind a prefix.
unfoldable pub behind : Bytes → Bytes → Option Bytes
behind [] s = some s
behind (p ∷ ps) [] = none
behind (p ∷ ps) (x ∷ s) = let rest = behind ps s in if p == x then rest else none

-- The longest start of the text without a new line.
unfoldable pub line : Bytes → Bytes
line [] = []
line (x ∷ s) = let rest = line s in if x == 10 then [] else x ∷ rest

abbrev pub or_else : {A : Type 0} → Option A → Option A → Option A
or_else (some a) o = some a
or_else none o = o

abbrev pub consed : ℕ → Option Bytes → Option Bytes
consed x none = none
consed x (some s) = some (x ∷ s)

abbrev pub empty_if : Option Bytes → Option Bytes
empty_if none = none
empty_if (some s) = some []

-- What stands before the last separator: `.*` is greedy, so a later separator is tried first.
unfoldable pub before_last : Bytes → Bytes → Option Bytes
unfolding behind
before_last sep [] = empty_if (behind sep [])
before_last sep (x ∷ s) = or_else (consed x (before_last sep s)) (empty_if (behind sep (x ∷ s)))

-- `.+` takes one character at least.
unfoldable pub some_before_last : Bytes → Bytes → Option Bytes
unfolding before_last
some_before_last sep [] = none
some_before_last sep (x ∷ s) = consed x (before_last sep s)

abbrev pub triplet_id_behind : Option Bytes → Option Bytes
triplet_id_behind none = none
triplet_id_behind (some s) = some_before_last (codes "_bb_") (line s)

-- `tr_(.+)_bb_`, from the left.
unfoldable pub find_triplet_id : Bytes → Option Bytes
unfolding behind line some_before_last
find_triplet_id [] = none
find_triplet_id (x ∷ s) =
    or_else (triplet_id_behind (behind (codes "tr_") (x ∷ s))) (find_triplet_id s)

abbrev pub nonempty : Bytes → Option Bytes
nonempty [] = none
nonempty (x ∷ s) = some (x ∷ s)

abbrev pub blob_id_behind : Option Bytes → Option Bytes
blob_id_behind none = none
blob_id_behind (some s) = nonempty (line s)

-- `_bb_(.+)`, from the left.
unfoldable pub find_blob_id : Bytes → Option Bytes
unfolding behind line
find_blob_id [] = none
find_blob_id (x ∷ s) = or_else (blob_id_behind (behind (codes "_bb_") (x ∷ s))) (find_blob_id s)

abbrev pub grabbed : Option Bytes → Result Bytes
grabbed none = crash
grabbed (some s) = ok s

unfoldable pub get_triplet_id_from_token : Bytes → Result Bytes
unfolding find_triplet_id
get_triplet_id_from_token token = grabbed (find_triplet_id token)

unfoldable pub get_blob_id_from_token : Bytes → Result Bytes
unfolding find_blob_id
get_blob_id_from_token token = grabbed (find_blob_id token)

unfoldable pub full2partial_token : Bytes → Result Bytes
unfolding get_blob_id_from_token
full2partial_token full_token = do
  blob_id ← get_blob_id_from_token full_token
  ok (codes "tr__bb_" ++ blob_id)
