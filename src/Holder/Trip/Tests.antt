-- ===== src/Holder/Trip/Tests.antt =====
-- The theorem on `Put` and `Get` at concrete handlers.
use riverpass.Holder.Trip.{Trip, put-get}
use riverpass.Holder.Trip.Sample.{
  json, config, env, blb, empty, with_one, body_large, body_small, sample_large, sample_small,
}

small_trip : Trip json config env with_one blb body_small
small_trip = put-get json config env with_one blb body_small sample_small

put-get_example : Trip json config env empty blb body_large
put-get_example = put-get json config env empty blb body_large sample_large
