-- ===== src/Log.antt =====
-- The two log files of a triplet, blob_index.go and blob_manifest.go: a JSON array of padded
-- entries, one added at the end by each `flush`. `encoding/json` is a parameter: `ser` is
-- `json.Marshal` of the entry as a function of its `Padding`.
pub mod Layout
use riverpass.Prelude.{
  ℕ, ◌+◌, ◌-◌, Bool, true, false, Option, none, some, List, [], ◌∷◌, ◌++◌, ◌==◌, if◌then◌else◌,
  length, take, replicate,
}
use riverpass.Prelude.Text.{Bytes}
use riverpass.Prelude.Result.{Result, ok, err, crash, require, ◌>>=◌, ◌>>◌, io_error}

-- Nothing before the first entry, a comma and a new line before the others.
abbrev pub leading : Bool → Bytes
leading true = []
leading false = b',' ∷ 10 ∷ []

-- The loop that writes `#` until the text has its fixed length; a text that is too long gets none.
abbrev pub padding : ℕ → (Bytes → Bytes) → Bytes
padding entry_len ser = replicate (entry_len - length (ser []) - 2) b'#'

abbrev pub written_len : ℕ → Bool → ℕ
written_len entry_len true = entry_len - 2
written_len entry_len false = entry_len

-- `f.Seek(-1, 2)` and one write from there: the last byte is overwritten. A length that differs from
-- the fixed one ends the process.
unfoldable pub flush_to : ℕ → Bool → (Bytes → Bytes) → Bytes → Result (Bytes × ℕ)
flush_to entry_len empty ser file =
    let bytes = leading empty ++ (ser (padding entry_len ser) ++ b']' ∷ []) in
    require (length bytes - 1 == written_len entry_len empty)
    >> ok (take (length file - 1) file ++ bytes, length bytes - 1)

-- `os.OpenFile(..., os.O_WRONLY, ...)` does not create the file.
unfoldable pub flush : ℕ → Bool → (Bytes → Bytes) → Option Bytes → Result (Bytes × ℕ)
unfolding flush_to
flush entry_len empty ser none = err io_error
flush entry_len empty ser (some file) = flush_to entry_len empty ser file

-- The directory of the files, with the fallback for an empty prefix.
pub or_default : Bytes → Bytes → Bytes
or_default [] fallback = fallback
or_default (x ∷ xs) fallback = x ∷ xs
