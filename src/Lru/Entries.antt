-- ===== src/Lru/Entries.antt =====
-- The entries of the ring's nodes, against the dictionary.
use riverpass.Prelude.{
  ℕ, ◌≡◌, ◌≢◌, refl, sym, subst, ap, ◌∙◌, inl, inr, true, false, Bool-cases, Option, none, some,
  List, [], ◌∷◌, arith, All, ◌==◌,
}
use riverpass.Prelude.Text.{Bytes, str_eq, str_eq_iff}
use riverpass.Prelude.Maps.{Map, load, delete}
use riverpass.Lru.{set_at}
use riverpass.Lru.Ring.{NotIn, Distinct, In, remove}
use riverpass.Lru.Model.{entries}

pub some_injective : {p q : ℕ} → some p ≡ some q → p ≡ q
some_injective h = cc

module _ {V : Type 0} (key : ℕ → Bytes) (value : ℕ → Option V) (dict : Map ℕ) where
  abbrev Stored : List ℕ → Type 0
  Stored = All (λ p. load (key p) dict ≡ some p)

  -- Two stored nodes with one key are one node.
  pub key-ne :
      (p x : ℕ)
      → load (key p) dict ≡ some p
      → load (key x) dict ≡ some x
      → p ≢ x
      → str_eq (key x) (key p) ≡ false
  key-ne p x e f n = elim (Bool-cases (str_eq (key x) (key p))) [
    | inr differ ↦ differ
    | inl same ↦ absurd (
        n (
          some_injective
            (sym e ∙ sym (ap (λ k. load k dict) ((str_eq_iff (key x) (key p)).0 same)) ∙ f)))
  ]

  delete-absent :
      (p : ℕ) (ps : List ℕ)
      → load (key p) dict ≡ some p
      → Stored ps
      → NotIn p ps
      → delete (key p) (entries key value ps) ≡ entries key value ps
  unfolding delete
  delete-absent p [] e s n = refl
  delete-absent p (x ∷ ps) e s n = rw (key-ne p x e s.0 n.0, delete-absent p ps e s.1 n.1)

  pub entries-remove :
      (p : ℕ) (ps : List ℕ)
      → load (key p) dict ≡ some p
      → Stored ps
      → Distinct ps
      → In p ps
      → entries key value (remove p ps) ≡ delete (key p) (entries key value ps)
  unfolding delete remove
  entries-remove p [] e s d i = absurd i
  entries-remove p (x ∷ ps) e s d i = elim (Bool-cases (p == x)) [
    | inl here ↦
        let q : p ≡ x = ground arith in
        let k : str_eq (key x) (key p) ≡ true = (str_eq_iff (key x) (key p)).1 (ap key (sym q)) in
        rw (here, k) (sym (delete-absent p ps e s.1 (subst (λ z. NotIn z ps) (sym q) d.0)))
    | inr later ↦
        let j : In p ps = elim i [ inl q ↦ absurd (ground arith) | inr j ↦ j ] in
        rw (later, key-ne p x e s.0 (λ q. ground arith), entries-remove p ps e s.1 d.1 j)
  ]

  pub load-entries :
      (p : ℕ) (ps : List ℕ)
      → load (key p) dict ≡ some p
      → Stored ps
      → In p ps
      → load (key p) (entries key value ps) ≡ some (value p)
  unfolding load
  load-entries p [] e s i = absurd i
  load-entries p (x ∷ ps) e s i = elim (Bool-cases (p == x)) [
    | inl here ↦
        let q : p ≡ x = ground arith in
        let k : str_eq (key x) (key p) ≡ true = (str_eq_iff (key x) (key p)).1 (ap key (sym q)) in
        rw k (ap (λ z. some (value z)) (sym q))
    | inr later ↦
        let j : In p ps = elim i [ inl q ↦ absurd (ground arith) | inr j ↦ j ] in
        rw (key-ne p x e s.0 (λ q. ground arith)) (load-entries p ps e s.1 j)
  ]

  pub load-entries_none :
      (k : Bytes) (ps : List ℕ)
      → load k dict ≡ none
      → Stored ps
      → load k (entries key value ps) ≡ none
  unfolding load
  load-entries_none k [] e s = refl
  load-entries_none k (x ∷ ps) e s = elim (Bool-cases (str_eq (key x) k)) [
    | inr differ ↦ rw differ (load-entries_none k ps e s.1)
    | inl same ↦ cc (sym e ∙ sym (ap (λ j. load j dict) ((str_eq_iff (key x) k).0 same)) ∙ s.0)
  ]

-- A value written at a node that is not in the list.
pub entries-set_at :
    {V : Type 0} (key : ℕ → Bytes) (value : ℕ → Option V) (p : ℕ) (v : Option V) (ps : List ℕ)
    → NotIn p ps
    → entries key (set_at value p v) ps ≡ entries key value ps
entries-set_at key value p v [] n = refl
entries-set_at key value p v (x ∷ ps) n =
    let f : (p == x) ≡ false = ground arith in rw (f, entries-set_at key value p v ps n.1)

pub entries-set_keys :
    {V : Type 0} (key : ℕ → Bytes) (value : ℕ → Option V) (p : ℕ) (k : Bytes) (ps : List ℕ)
    → NotIn p ps
    → entries (set_at key p k) value ps ≡ entries key value ps
entries-set_keys key value p k [] n = refl
entries-set_keys key value p k (x ∷ ps) n =
    let f : (p == x) ≡ false = ground arith in rw (f, entries-set_keys key value p k ps n.1)
