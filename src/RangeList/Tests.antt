-- ===== src/RangeList/Tests.antt =====
-- Tests of the range list, and its theorems at concrete lists.
use mathlib.Core.List.{Perm}
use riverpass.Prelude.{◌≡◌, refl, ◌↔◌, true, false, some, none, List, [], ◌∷◌, arith, All}
use riverpass.Prelude.Int.{ℤ, pos, ◌≤ℤ◌, ◌<ℤ◌}
use riverpass.RangeCode.{RangeCode}
use riverpass.RangeList.{is_range_collision, is_range_full_coverage, insert_range_code_list}
use riverpass.RangeList.Collision.{Covers, collision_exact}
use riverpass.RangeList.Insert.{IsOrdered, insert_range_code_list-IsOrdered}
use riverpass.RangeList.Coverage.{Covered, is_range_full_coverage_exact}

abbrev low : RangeCode
low = record { start = pos 0; end = pos 10; token = [] }

abbrev middle : RangeCode
middle = record { start = pos 10; end = pos 20; token = [] }

abbrev high : RangeCode
high = record { start = pos 20; end = pos 25; token = [] }

abbrev gapped : List RangeCode
gapped = low ∷ high ∷ []

abbrev filled : List RangeCode
filled = low ∷ middle ∷ high ∷ []

insert_middle : insert_range_code_list gapped middle ≡ filled
unfolding insert_range_code_list
insert_middle = refl

empty_panics : is_range_full_coverage [] ≡ none
unfolding is_range_full_coverage
empty_panics = refl

gap_found : is_range_full_coverage gapped ≡ some false
unfolding is_range_full_coverage
gap_found = refl

no_collision : is_range_collision gapped middle ≡ false
unfolding is_range_collision
no_collision = refl

collision_exact_example :
    (is_range_collision gapped middle ≡ false)
    ↔ ((x : ℤ) → Covers middle x → All (λ h. ¬ Covers h x) gapped)
collision_exact_example = collision_exact gapped middle (omega arith) (omega arith)

insert_range_code_list-IsOrdered_example :
    IsOrdered (insert_range_code_list gapped middle)
    × Perm (insert_range_code_list gapped middle) (middle ∷ gapped)
insert_range_code_list-IsOrdered_example =
    insert_range_code_list-IsOrdered gapped middle (omega arith) (omega arith) (omega arith)
      (omega arith) no_collision

is_range_full_coverage_exact_example :
    (is_range_full_coverage filled ≡ some true)
    ↔ ((x : ℤ) → pos 0 ≤ℤ x → x <ℤ pos 25 → Covered filled x)
is_range_full_coverage_exact_example =
    is_range_full_coverage_exact low (middle ∷ high ∷ []) (omega arith) (omega arith)
