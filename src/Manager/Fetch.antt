-- ===== src/Manager/Fetch.antt =====
-- CheckUrl and DownLoad of server/holder/src/cache_ops/cache_manager.go. What the file system and
-- the object store answer is a parameter.
use riverpass.Prelude.{ℕ, Bool, true, false, Option, none, some, ◌==◌, if◌then◌else◌, length}
use riverpass.Prelude.Int.{ℤ, pos, leb_ℤ, eqb_ℤ}
use riverpass.Prelude.Text.{Bytes}
use riverpass.Prelude.Result.{Result, ok, crash}

-- `stat` and `read_file` are `none` on an error. `head` has the status and the content length, `get`
-- the status, the bytes of the buffer (`none` is nil) and whether the copy ended without an error.
pub record Web : Type 0 where
  pub local_mode : Bool
  pub stat : Bytes → Option ℕ
  pub read_file : Bytes → Option Bytes
  pub head : Bytes → Option (ℕ × ℤ)
  pub get : Bytes → Option (ℕ × Option Bytes × Bool)

abbrev pub check_local : Option ℕ → Bool × ℤ
check_local none = (false, pos 0)
check_local (some size) = (true, pos size)

abbrev pub check_head : ℤ → Option (ℕ × ℤ) → Bool × ℤ
check_head cache_max none = (false, pos 0)
check_head cache_max (some resp) =
    if resp.0 == 404
    then (false, pos 0)
    else if leb_ℤ cache_max resp.1
    then (false, pos 0)
    else (true, resp.1)

unfoldable pub check_url : Web → ℤ → Bytes → Bool × ℤ
check_url web cache_max url =
    if web.local_mode then check_local (web.stat url) else check_head cache_max (web.head url)

-- A nil slice has length 0.
abbrev pub len : Option Bytes → ℕ
len none = 0
len (some s) = length s

abbrev pub download_local : ℤ → Option Bytes → Option Bytes
download_local oss_data_len none = none
download_local oss_data_len (some s) = if eqb_ℤ (pos (length s)) oss_data_len then some s else none

-- The length is compared only when the copy has failed.
abbrev pub download_body : ℤ → Option (ℕ × Option Bytes × Bool) → Result (Option Bytes)
download_body oss_data_len none = crash
download_body oss_data_len (some resp) =
    if resp.0 == 404
    then ok none
    else if resp.2
    then ok resp.1
    else if eqb_ℤ (pos (len resp.1)) oss_data_len
    then ok resp.1
    else ok none

unfoldable pub download : Web → Bytes → ℤ → Result (Option Bytes)
download web url oss_data_len =
    if web.local_mode
    then ok (download_local oss_data_len (web.read_file url))
    else download_body oss_data_len (web.get url)
