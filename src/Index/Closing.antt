-- ===== src/Index/Closing.antt =====
-- Close of the index, and the restart after it.
use riverpass.Prelude.{
  ℕ, ◌≡◌, refl, ◌∙◌, Bool, Option, true, false, some, drop, List, [], ◌∷◌, ◌==◌, map,
}
use riverpass.Prelude.Int.{ℤ}
use riverpass.Prelude.Text.{Bytes}
use riverpass.Prelude.Result.{ok, err, header_closed}
use riverpass.Log.Layout.{log_file}
use riverpass.Index.{IndexEntry, IndexHeader, closed_state, close, index_new, index_put, index_get}
use riverpass.Index.Reload.{IsLogged, Reads, pad, place, texts, place-index_new}

refused :
    (marshal : IndexEntry → Bytes) (ih : IndexHeader) (blob_id : Bytes) (offset size : ℤ)
    → ih.state ≡ closed_state
    → index_put marshal ih blob_id offset size ≡ err header_closed
unfolding index_put
refused marshal ih blob_id offset size e =
    let c : (ih.state == closed_state) ≡ true = rw e refl in rw c

module _ (marshal : IndexEntry → Bytes) (unmarshal : Bytes → Option (List IndexEntry)) where
  -- `Close` of an open header that its file describes, and then a restart where `json.Unmarshal` reads
  -- the array of the padded entries: `New` on the file makes a
  -- header that refuses every `Put`, and `Get` finds every blob at the place where it was.
  pub close-index_new :
      {mark : ℕ} (prefix : Bytes) (shard : ℤ) (tri : Bytes) (is_large : Bool) (ih : IndexHeader)
      → IsLogged marshal mark ih
      → (ih.state == closed_state) ≡ false
      → Reads marshal unmarshal (map (pad marshal) ih.entries)
      → (closed : IndexHeader) × (after : IndexHeader) × (size : ℕ) × (close ih ≡ ok closed)
        × (index_new marshal unmarshal prefix shard tri is_large closed.file ≡ ok (after, size))
        × ((blob_id : Bytes) (offset len : ℤ)
            → index_put marshal after blob_id offset len ≡ err header_closed)
        × ((j : Bytes) → place (index_get after j) ≡ place (index_get ih j))
  unfolding close
  close-index_new {mark} prefix shard tri is_large ih l opened reads =
      let file =
        closed_state ∷ 10 ∷ drop 2 (log_file (mark ∷ 10 ∷ []) (texts marshal ih.entries)) in
      let closed : IndexHeader = record ih { file = some file } in
      let marked : IndexHeader = record closed { state = closed_state } in
      let logged : IsLogged marshal closed_state marked = record {
        on_disk = refl;
        emptiness = l.emptiness;
        mapped = l.mapped;
      } in
      let (after, size, made, again, state, same) =
        place-index_new marshal unmarshal prefix shard tri is_large marked logged reads in
      (
        closed,
        after,
        size,
        rw (opened, l.on_disk) refl,
        made,
        (λ blob_id offset len. refused marshal after blob_id offset len state),
        (λ j. same j ∙ unfold index_get in refl),
      )
