-- ===== src/Holder/Startup/Sizes.antt =====
-- What is left of the sizes when the orphans are deleted.
use riverpass.Prelude.{
  ℕ, ◌+◌, ◌≡◌, refl, sym, ap, ◌∙◌, true, inl, inr, false, Bool, Bool-cases, Option, List, [], ◌∷◌,
  arith, All, if◌then◌else◌,
}
use riverpass.Prelude.Int.{pos, ◌-ℤ◌}
use riverpass.Prelude.Text.{Bytes, str_eq, str_eq_iff, str_eq_self}
use riverpass.FileTable.{is_member}
use riverpass.Holder.Triplet.{Found}
use riverpass.Holder.Swap.{
  file_size, files_size, remove_file, Removes, delete_triplet_files_on_disk,
}
use riverpass.Holder.Startup.{total_size, delete_orphans, left_on, not_negative}

-- No identifier stands twice.
abbrev pub Once : List Bytes → Type 0
Once [] = Unit {0}
Once (id ∷ ids) = All (λ k. str_eq id k ≡ false) ids × Once ids

-- What the disk holds after the orphans are deleted: the files of a triplet that was found and that
-- the table does not name, as far as they cannot be removed, and all others as they were.
abbrev pub after_deletion :
    (Bytes → Removes) → List Bytes → List Bytes → (Bytes → Found) → Bytes → Found
after_deletion removes set_db ids disk k =
    if is_member k set_db
    then disk k
    else if is_member k ids
    then (delete_triplet_files_on_disk (removes k) (disk k)).0
    else disk k

remove_file-size :
    (removed : Bool) (file : Option Bytes)
    → (remove_file removed file).1 + file_size (remove_file removed file).0 ≡ file_size file
remove_file-size true file = omega arith
remove_file-size false file = omega arith

removed-size :
    (removes : Removes) (found : Found)
    → (delete_triplet_files_on_disk removes found).1
        + files_size (delete_triplet_files_on_disk removes found).0
      ≡ files_size found
unfolding delete_triplet_files_on_disk
removed-size removes found = omega (
  arith,
  remove_file-size removes.bin found.bin_file,
  remove_file-size removes.idx found.idx_file,
  remove_file-size removes.mf found.mf_file,
)

total-left :
    (disk : Bytes → Found) (id : Bytes) (left : Found) (ids : List Bytes)
    → All (λ k. str_eq id k ≡ false) ids
    → total_size (left_on disk id left) ids ≡ total_size disk ids
unfolding total_size
total-left disk id left [] a = refl
total-left disk id left (k ∷ ids) a = rw (a.0, total-left disk id left ids a.1) refl

not_member :
    (id : Bytes) (ids : List Bytes) → All (λ k. str_eq id k ≡ false) ids → is_member id ids ≡ false
unfolding is_member
not_member id [] a = refl
not_member id (k ∷ ids) a =
    ground (arith, a.0, str_eq_iff id k, str_eq_iff k id, not_member id ids a.1)

module _ (removes : Bytes → Removes) (set_db : List Bytes) where
  pub orphans-left :
      (ids : List Bytes) (disk : Bytes → Found) (k : Bytes)
      → Once ids
      → (delete_orphans removes set_db ids disk).0 k ≡ after_deletion removes set_db ids disk k
  unfolding delete_orphans is_member
  orphans-left [] disk k o = elim (Bool-cases (is_member k set_db)) [
    | inl named ↦ rw named refl
    | inr orphan ↦ rw orphan refl
  ]
  orphans-left (id ∷ ids) disk k o =
      let left : Found = (delete_triplet_files_on_disk (removes id) (disk id)).0 in
      elim (Bool-cases (is_member id set_db)) [
        | inl named ↦ rw named (
            orphans-left ids disk k o.1 ∙ elim (Bool-cases (is_member k set_db)) [
              | inl named_k ↦ rw named_k refl
              | inr orphan_k ↦ elim (Bool-cases (str_eq id k)) [
                | inl same ↦ cc (
                    sym orphan_k
                    ∙ ap (λ z. is_member z set_db) (sym ((str_eq_iff id k).0 same))
                    ∙ named)
                | inr differ ↦ rw (orphan_k, differ) refl
              ]
            ])
        | inr orphan ↦ rw orphan (
            orphans-left ids (left_on disk id left) k o.1 ∙ elim (Bool-cases (str_eq id k)) [
              | inr differ ↦ rw differ refl
              | inl same ↦
                  let e : id ≡ k = (str_eq_iff id k).0 same in
                  let orphan_k : is_member k set_db ≡ false =
                    ap (λ z. is_member z set_db) (sym e) ∙ orphan in
                  let out : is_member k ids ≡ false =
                    ap (λ z. is_member z ids) (sym e) ∙ not_member id ids o.0 in
                  rw (same, orphan_k, out)
                    (ap (λ z. (delete_triplet_files_on_disk (removes z) (disk z)).0) e)
            ])
      ]

  -- The orphan's own files after the later deletions.
  left-here :
      (ids : List Bytes) (disk : Bytes → Found) (id : Bytes)
      → Once ids
      → All (λ k. str_eq id k ≡ false) ids
      → (delete_orphans removes set_db ids disk).0 id ≡ disk id
  left-here ids disk id o a =
      orphans-left ids disk id o
      ∙ (let out : is_member id ids ≡ false = not_member id ids a in
          elim (Bool-cases (is_member id set_db)) [
            | inl named ↦ rw named refl
            | inr orphan ↦ rw (orphan, out) refl
          ])

  abbrev Kept : List Bytes → (Bytes → Found) → (Bytes → Found) × ℕ → Type 0
  Kept ids disk z = z.1 + total_size z.0 ids ≡ total_size disk ids

  Kept-cons :
      (id : Bytes) (ids : List Bytes) (disk left : Bytes → Found) (n : ℕ)
      → n + (files_size (left id) + total_size left ids)
        ≡ files_size (disk id) + total_size disk ids
      → Kept (id ∷ ids) disk (left, n)
  unfolding total_size
  Kept-cons id ids disk left n h = h

  pub orphans-Kept :
      (ids : List Bytes) (disk : Bytes → Found)
      → Once ids
      → Kept ids disk (delete_orphans removes set_db ids disk)
  unfolding delete_orphans
  orphans-Kept [] disk o = omega arith
  orphans-Kept (id ∷ ids) disk o =
      let deleted = delete_triplet_files_on_disk (removes id) (disk id) in
      elim (Bool-cases (is_member id set_db)) [
        | inl named ↦ rw named (
            Kept-cons id ids disk (delete_orphans removes set_db ids disk).0
              (delete_orphans removes set_db ids disk).1
              (rw (left-here ids disk id o.1 o.0) (omega (arith, orphans-Kept ids disk o.1))))
        | inr orphan ↦
            let disk1 : Bytes → Found = left_on disk id deleted.0 in
            let rest = delete_orphans removes set_db ids disk1 in
            let here : rest.0 id ≡ deleted.0 =
              left-here ids disk1 id o.1 o.0 ∙ rw (str_eq_self id) refl in
            rw orphan (
              Kept-cons id ids disk rest.0 (deleted.1 + rest.1) (
                rw here (
                  omega (
                    arith,
                    orphans-Kept ids disk1 o.1,
                    total-left disk id deleted.0 ids o.0,
                    removed-size (removes id) (disk id),
                  ))))
      ]

-- The difference is the kept size, so it is never below 0.
pub left_over :
    (total orphan kept : ℕ)
    → orphan + kept ≡ total
    → not_negative (pos total -ℤ pos orphan) ≡ pos kept
unfolding ◌-ℤ◌
left_over total orphan kept e = ground arith
