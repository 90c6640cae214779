-- ===== src/RangeCode/Tests.antt =====
-- Tests of the range code.
use riverpass.Prelude.{◌≡◌, refl, true, arith}
use riverpass.Prelude.Int.{pos, negsuc}
use riverpass.Prelude.Text.{codes}
use riverpass.RangeCode.{RangeCode, to_db_entry}
use riverpass.RangeCode.Order.{lex_lt, to_db_entry-sorted}

abbrev first : RangeCode
first = record { start = pos 4096; end = pos 8192; token = codes "tr_ab_bb_cd" }

abbrev second : RangeCode
second = record { start = pos 20000; end = pos 30000; token = codes "tr_ab_bb_aa" }

first_name : to_db_entry first ≡ codes "rg(000004096)_tk(tr_ab_bb_cd)"
unfolding to_db_entry
first_name = refl

-- The padding ignores the sign.
negative_name :
    to_db_entry (record first { start = negsuc 41 }) ≡ codes "rg(000000000-42)_tk(tr_ab_bb_cd)"
unfolding to_db_entry
negative_name = refl

names_sorted : lex_lt (to_db_entry first) (to_db_entry second) ≡ true
names_sorted = to_db_entry-sorted first second 4096 20000 refl refl (omega arith) (omega arith)
