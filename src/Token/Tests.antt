-- ===== src/Token/Tests.antt =====
-- Tests of the tokens, and their theorem at a concrete token.
use riverpass.Prelude.{◌≡◌, refl, [], arith}
use riverpass.Prelude.Text.{codes}
use riverpass.Prelude.Result.{ok, crash}
use riverpass.Token.{
  generate_blob_token, get_triplet_id_from_token, get_blob_id_from_token, full2partial_token,
  find_triplet_id, find_blob_id,
}
use riverpass.Token.Trip.{token_round_trip}

-- A token without a triplet has no match.
partial_panics : get_triplet_id_from_token (codes "tr__bb_9f") ≡ crash
unfolding get_triplet_id_from_token find_triplet_id
partial_panics = refl

-- An identifier with the separator in it is cut at the last one.
greedy : get_triplet_id_from_token (codes "tr_a_bb_b_bb_c") ≡ ok (codes "a_bb_b")
unfolding get_triplet_id_from_token find_triplet_id
greedy = refl

-- The one triplet name of the alphabet whose tokens are read wrongly.
early_separator :
    get_blob_id_from_token (generate_blob_token (codes "bb") (codes "9f")) ≡ ok (codes "bb_9f")
unfolding get_blob_id_from_token find_blob_id generate_blob_token
early_separator = refl

token_round_trip_example :
    (get_triplet_id_from_token (generate_blob_token (codes "1a") (codes "9f")) ≡ ok (codes "1a"))
    × (get_blob_id_from_token (generate_blob_token (codes "1a") (codes "9f")) ≡ ok (codes "9f"))
    × (full2partial_token (generate_blob_token (codes "1a") (codes "9f"))
        ≡ ok (generate_blob_token [] (codes "9f")))
token_round_trip_example =
    token_round_trip b'1' (codes "a") b'9' (codes "f")
      (((λ e. omega arith), λ e. omega arith), (((λ e. omega arith), λ e. omega arith), tt))
      (λ e. ground arith)
      (((λ e. omega arith), λ e. omega arith), (((λ e. omega arith), λ e. omega arith), tt))
