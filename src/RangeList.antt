-- ===== src/RangeList.antt =====
-- IsRangeCollision, IsRangeFullCoverage and InsertRangeCodeList of
-- server/holder/src/db_ops/blobs_db.go: the ranges of a file that are committed, a `list.List`.
pub mod Collision
pub mod Insert
pub mod Coverage
mod Tests
use riverpass.Prelude.{
  Bool, true, false, ◌||◌, not, Option, none, some, List, [], ◌∷◌, if◌then◌else◌,
}
use riverpass.Prelude.Int.{ℤ, negsuc, leb_ℤ, eqb_ℤ}
use riverpass.RangeCode.{RangeCode}

-- True means there is a collision.
pub is_range_collision : List RangeCode → RangeCode → Bool
is_range_collision [] rc = false
is_range_collision (h ∷ hs) rc =
    if leb_ℤ rc.end h.start || leb_ℤ h.end rc.start then is_range_collision hs rc else true

-- The loop of `IsRangeFullCoverage` at the element `h`, which is not nil.
coverage_loop : RangeCode → List RangeCode → Bool
coverage_loop h [] = true
coverage_loop h (n ∷ hs) = if not (eqb_ℤ h.end n.start) then false else coverage_loop n hs

-- `none` is the panic of `h.Next()` at the nil element of an empty list.
pub is_range_full_coverage : List RangeCode → Option Bool
unfolding coverage_loop
is_range_full_coverage [] = none
is_range_full_coverage (h ∷ hs) = some (coverage_loop h hs)

pub dummy : RangeCode
dummy = record { start = negsuc 0; end = negsuc 0; token = [] }

-- The walk from the back to the last element that ends at or before the start of `rc`, and the
-- insertion behind it; `none` if there is no such element.
insert_after : RangeCode → List RangeCode → Option (List RangeCode)
insert_after rc [] = none
insert_after rc (h ∷ hs) = elim (insert_after rc hs) [
  | some hs' ↦ some (h ∷ hs')
  | none ↦ if leb_ℤ h.end rc.start then some (h ∷ rc ∷ hs) else none
]

-- `hList.Remove(hList.Front())`
remove_front : List RangeCode → List RangeCode
remove_front [] = []
remove_front (h ∷ hs) = hs

-- The dummy is taken off only when the walk found a place.
unfoldable pub insert_range_code_list : List RangeCode → RangeCode → List RangeCode
unfolding dummy insert_after remove_front
insert_range_code_list hs rc = elim (insert_after rc (dummy ∷ hs)) [
  | some hs' ↦ remove_front hs'
  | none ↦ dummy ∷ hs
]
