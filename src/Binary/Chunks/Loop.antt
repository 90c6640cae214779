-- ===== src/Binary/Chunks/Loop.antt =====
-- Encode4K as a recursion on the data that is left.
use riverpass.Prelude.{
  ℕ, zero, suc, ◌+◌, ◌-◌, ◌≡◌, refl, sym, ap, inl, inr, Bool-cases, List, [], ◌∷◌, arith, ltb,
  ltb→lt, if◌then◌else◌, length, take, drop, length-drop, take_all,
}
use riverpass.Prelude.Text.{Bytes, slice}
use riverpass.Binary.Codec.{content_size}
use riverpass.Binary.Chunks.{Chunk, make_chunk, encode_loop, write_chunks, encode4k}

unfoldable pub chunks_of : ℕ → Bytes → Bytes → List Chunk
chunks_of zero blob_id rest = []
chunks_of (suc fuel) blob_id rest =
    let more = chunks_of fuel blob_id (drop content_size rest) in
    if ltb 0 (length rest)
    then make_chunk blob_id (length rest) (take content_size rest) ∷ more
    else []

drop_nil : (n : ℕ) → drop {A = ℕ} n [] ≡ []
drop_nil zero = refl
drop_nil (suc n) = refl

pub drop-drop : (m n k : ℕ) (xs : Bytes) → k ≡ m + n → drop n (drop m xs) ≡ drop k xs
drop-drop zero n k xs e = let f : k ≡ n = omega arith in rw f
drop-drop (suc m) n zero xs e = absurd (omega arith)
drop-drop (suc m) n (suc k) [] e = drop_nil n
drop-drop (suc m) n (suc k) (x ∷ xs) e = drop-drop m n k xs (omega arith)

-- The piece that a round copies is the next `content_size` bytes, or all that is left.
piece-take :
    (body : Bytes) (start : ℕ)
    → (if ltb (length body) (start + content_size)
        then drop start body
        else slice body start (start + content_size))
      ≡ take content_size (drop start body)
piece-take body start = elim (Bool-cases (ltb (length body) (start + content_size))) [
  | inl short ↦ rw short (
      sym (
        take_all content_size (drop start body)
          (omega (arith, ltb→lt _ _ short, length-drop start body))))
  | inr long ↦ let k : start + content_size - start ≡ content_size = omega arith in rw (long, k)
]

encode_loop-chunks_of :
    (fuel : ℕ) (blob_id body : Bytes) (start size : ℕ)
    → size ≡ length body - start
    → encode_loop fuel blob_id body start size ≡ chunks_of fuel blob_id (drop start body)
unfolding encode_loop chunks_of
encode_loop-chunks_of zero blob_id body start size e = refl
encode_loop-chunks_of (suc fuel) blob_id body start size e =
    let left : length (drop start body) ≡ size = omega (arith, length-drop start body) in
    rw (
      piece-take body start,
      left,
      drop-drop start content_size (start + content_size) body refl,
      encode_loop-chunks_of fuel blob_id body (start + content_size) (size - content_size)
          (omega arith),
    )

pub encode4k-chunks_of :
    (blob_id body : Bytes)
    → encode4k blob_id body ≡ write_chunks (chunks_of (length body) blob_id body)
unfolding encode4k
encode4k-chunks_of blob_id body =
    ap write_chunks (encode_loop-chunks_of (length body) blob_id body 0 (length body) (omega arith))
