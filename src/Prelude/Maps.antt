-- ===== src/Prelude/Maps.antt =====
-- Go maps with string keys (`map`, `sync.Map`) as association lists. A store replaces what the key
-- had, a delete takes off every entry of the key.
use mathlib.Core.Path.{◌≡◌, refl}
use mathlib.Core.Option.{Option, none, some}
use mathlib.Core.List.{List, [], ◌∷◌}
use native.Mathlib.Omega.{arith}
use mathlib.Core.Logic.{inl, inr}
use riverpass.Prelude.Tests.{Bool-cases, if◌then◌else◌}
use riverpass.Prelude.Text.{Bytes, str_eq, str_eq_iff, str_eq_self}

abbrev pub Map {ℓ} : Type ℓ → Type ℓ
Map V = List (Bytes × V)

module _ {ℓ} {V : Type ℓ} where
  unfoldable pub load : Bytes → Map V → Option V
  load k [] = none
  load k ((j, v) ∷ m) = if str_eq j k then some v else load k m

  unfoldable pub delete : Bytes → Map V → Map V
  delete k [] = []
  delete k ((j, v) ∷ m) = let rest = delete k m in if str_eq j k then rest else (j, v) ∷ rest

  unfoldable pub store : Bytes → V → Map V → Map V
  unfolding delete
  store k v m = (k, v) ∷ delete k m

  pub load-delete :
      (k j : Bytes) (m : Map V) → load j (delete k m) ≡ (if str_eq k j then none else load j m)
  unfolding load delete
  load-delete k j [] = ground arith
  load-delete k j ((i, v) ∷ m) =
      ground (arith, load-delete k j m, str_eq_iff i k, str_eq_iff i j, str_eq_iff k j)

  pub load-store :
      (k j : Bytes) (v : V) (m : Map V)
      → load j (store k v m) ≡ (if str_eq k j then some v else load j m)
  unfolding load store
  load-store k j v m = ground (arith, load-delete k j m)

  pub load-store_self : (k : Bytes) (v : V) (m : Map V) → load k (store k v m) ≡ some v
  unfolding load store
  load-store_self k v m = ground (arith, str_eq_self k)

  -- A delete of a key that is not there changes nothing.
  pub delete-none : (k : Bytes) (m : Map V) → load k m ≡ none → delete k m ≡ m
  unfolding load delete
  delete-none k [] h = refl
  delete-none k ((j, v) ∷ m) h = elim (Bool-cases (str_eq j k)) [
    | inl same ↦ cc (rw same at h)
    | inr differ ↦ rw (differ, delete-none k m (rw differ at h))
  ]
