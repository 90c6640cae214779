-- ===== src/Log/Layout.antt =====
-- What a log file looks like after any number of flushes.
use riverpass.Prelude.{
  ℕ, ◌+◌, ◌-◌, ◌≤◌, ◌≡◌, refl, sym, ap, ◌∙◌, true, false, Bool, some, List, [], ◌∷◌, ◌++◌, arith,
  append_assoc, ◌==◌, length, take, replicate, length-append, take-append_length,
}
use riverpass.Prelude.Text.{Bytes}
use riverpass.Prelude.Result.{ok}
use riverpass.Log.{leading, padding, written_len, flush, flush_to}

-- The texts of the entries after the opening bracket and its new line.
abbrev pub joined : List Bytes → Bytes
joined [] = []
joined (t ∷ []) = t
joined (t ∷ u ∷ ts) = t ++ (b',' ∷ 10 ∷ joined (u ∷ ts))

abbrev pub is_empty {ℓ} : {A : Type ℓ} → List A → Bool
is_empty [] = true
is_empty (x ∷ xs) = false

joined-snoc :
    (ts : List Bytes) (t : Bytes)
    → joined ts ++ (leading (is_empty ts) ++ t) ≡ joined (ts ++ t ∷ [])
joined-snoc [] t = refl
joined-snoc (u ∷ []) t = refl
joined-snoc (u ∷ v ∷ ts) t =
    append_assoc u (b',' ∷ 10 ∷ joined (v ∷ ts)) (b',' ∷ 10 ∷ t)
    ∙ ap (λ z. u ++ (b',' ∷ 10 ∷ z)) (joined-snoc (v ∷ ts) t)

-- The file: what stands before the array, the array, and its closing bracket.
abbrev pub log_file : Bytes → List Bytes → Bytes
log_file before ts = before ++ (b'[' ∷ 10 ∷ (joined ts ++ b']' ∷ []))

-- The text that one flush adds.
abbrev pub padded : ℕ → (Bytes → Bytes) → Bytes
padded entry_len ser = ser (padding entry_len ser)

-- `json.Marshal` writes each `#` of the padding as one byte.
abbrev pub Pads : (Bytes → Bytes) → Type 0
Pads ser = (n : ℕ) → length (ser (replicate n b'#')) ≡ length (ser []) + n

pub length-padded :
    (entry_len : ℕ) (ser : Bytes → Bytes)
    → Pads ser
    → length (ser []) + 2 ≤ entry_len
    → length (padded entry_len ser) ≡ entry_len - 2
length-padded entry_len ser pads fits = omega (arith, pads (entry_len - length (ser []) - 2))

length-written :
    (entry_len : ℕ) (empty : Bool) (ser : Bytes → Bytes)
    → Pads ser
    → length (ser []) + 2 ≤ entry_len
    → length (leading empty ++ (padded entry_len ser ++ b']' ∷ [])) - 1
      ≡ written_len entry_len empty
length-written entry_len true ser pads fits =
    omega (
      arith,
      length-padded entry_len ser pads fits,
      length-append (padded entry_len ser) (b']' ∷ []),
    )
length-written entry_len false ser pads fits =
    omega (
      arith,
      length-padded entry_len ser pads fits,
      length-append (padded entry_len ser) (b']' ∷ []),
    )

cut : (x y : Bytes) (c : ℕ) → take (length (x ++ (y ++ c ∷ [])) - 1) (x ++ (y ++ c ∷ [])) ≡ x ++ y
cut x y c =
    let e : x ++ (y ++ c ∷ []) ≡ (x ++ y) ++ c ∷ [] = sym (append_assoc x y (c ∷ [])) in
    rw e (
      take-append_length (x ++ y) (c ∷ []) (length ((x ++ y) ++ c ∷ []) - 1)
        (omega (arith, length-append (x ++ y) (c ∷ []))))

-- A flush of an entry that fits adds its text to the array, and returns what the file has grown by.
pub flush_lem :
    (entry_len : ℕ) (before : Bytes) (ts : List Bytes) (ser : Bytes → Bytes)
    → Pads ser
    → length (ser []) + 2 ≤ entry_len
    → flush entry_len (is_empty ts) ser (some (log_file before ts))
      ≡ ok (log_file before (ts ++ padded entry_len ser ∷ []), written_len entry_len (is_empty ts))
unfolding flush flush_to
flush_lem entry_len before ts ser pads fits =
    let t : Bytes = padded entry_len ser in
    let n : length (leading (is_empty ts) ++ (t ++ b']' ∷ [])) - 1
        ≡ written_len entry_len (is_empty ts) =
      length-written entry_len (is_empty ts) ser pads fits in
    let same : (written_len entry_len (is_empty ts) == written_len entry_len (is_empty ts)) ≡ true =
      ground arith in
    let body : Bytes = b'[' ∷ 10 ∷ joined ts in
    let c : take (length (before ++ (body ++ b']' ∷ [])) - 1) (before ++ (body ++ b']' ∷ []))
        ≡ before ++ body =
      cut before body b']' in
    rw (n, same, c)
      (ap (λ f. ok (f, written_len entry_len (is_empty ts)))
        (append_assoc before body (leading (is_empty ts) ++ (t ++ b']' ∷ []))
          ∙ ap (λ z. before ++ (b'[' ∷ 10 ∷ z))
              (ap (λ z. joined ts ++ z) (sym (append_assoc (leading (is_empty ts)) t (b']' ∷ [])))
                ∙ sym (append_assoc (joined ts) (leading (is_empty ts) ++ t) (b']' ∷ []))
                ∙ ap (λ z. z ++ b']' ∷ []) (joined-snoc ts t))))
