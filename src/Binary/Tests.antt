-- ===== src/Binary/Tests.antt =====
-- Tests of the content file, and its theorems at concrete blobs.
use riverpass.Prelude.{◌≡◌, refl, true, false, none, [], length, arith}
use riverpass.Prelude.Text.{Bytes, codes}
use riverpass.Prelude.Result.{ok, crash}
use riverpass.Binary.Codec.{encode, decode, get_payload_size}
use riverpass.Binary.Chunks.{encode4k, decode4k}
use riverpass.Binary.Chunks.Whole.{length-encode4k, decode4k-encode4k}
use riverpass.Binary.Store.{BinHeader, bin_put, bin_get}
use riverpass.Binary.Store.Plain.{decode-encode}
use riverpass.Binary.Store.Laws.{
  IsSynced, appended, bin_put-bin_get, bin_get-bin_put, empty_blob_crashes, bin_put_lem,
}

abbrev id_a : Bytes
id_a = codes "1a2b3c4d"

abbrev id_b : Bytes
id_b = codes "5e6f7081"

abbrev body_a : Bytes
body_a = codes "hello"

abbrev fresh : BinHeader
fresh = record { file = none; cur_off = 0 }

-- The header after a put of the blob a.
abbrev one : BinHeader
one = appended false fresh id_a body_a

payload_sizes : (get_payload_size true 3929 ≡ 8192)
unfolding get_payload_size
payload_sizes = refl

plain_round_trip : decode (encode id_a body_a) ≡ ok (id_a, body_a)
plain_round_trip = decode-encode id_a body_a refl (omega arith)

length-encode4k_example : length (encode4k id_a body_a) ≡ get_payload_size true 5
length-encode4k_example = length-encode4k id_a body_a (omega arith)

decode4k-encode4k_example : decode4k (encode4k id_a body_a) ≡ ok (id_a, body_a)
decode4k-encode4k_example = decode4k-encode4k id_a body_a refl (omega arith) (omega arith)

bin_put-bin_get_example :
    (bin_put true true fresh id_a body_a
      ≡ ok (appended true fresh id_a body_a, 0, get_payload_size true 5))
    × IsSynced (appended true fresh id_a body_a)
    × (bin_get true (appended true fresh id_a body_a) id_a 0 ≡ ok body_a)
bin_put-bin_get_example =
    bin_put-bin_get true fresh id_a body_a refl (refl, omega arith, λ _. omega arith)

read_one : bin_get false one id_a 0 ≡ ok body_a
read_one = (bin_put-bin_get false fresh id_a body_a refl (refl, omega arith, λ _. omega arith)).2

bin_get-bin_put_example : bin_get false (appended false one id_b body_a) id_a 0 ≡ ok body_a
bin_get-bin_put_example =
    bin_get-bin_put false one id_b body_a (appended false one id_b body_a)
      (one.cur_off, get_payload_size false 5) id_a 0 body_a
      (bin_put_lem false one id_b body_a (omega arith)) read_one

empty_blob_crashes_example :
    (bin_put true true fresh id_a [] ≡ ok (appended true fresh id_a [], 0, 0))
    × (bin_get true (appended true fresh id_a []) id_a 0 ≡ crash)
empty_blob_crashes_example = empty_blob_crashes fresh id_a refl
