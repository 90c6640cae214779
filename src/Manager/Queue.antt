-- ===== src/Manager/Queue.antt =====
-- The queue of files to fetch and its map always agree.
use riverpass.Prelude.{
  ℕ, suc, ◌+◌, ◌≤◌, map, take-append-drop, ◌≡◌, refl, sym, ap, ◌∙◌, inl, inr, Bool-cases,
  Option-cases, Option, none, some, List, [], ◌∷◌, ◌++◌, ◌⊎◌, arith, if◌then◌else◌, take, drop,
}
use riverpass.Prelude.Text.{Bytes, str_eq, str_eq_iff, str_eq_self}
use riverpass.Prelude.Maps.{Map, load, store, delete, load-delete, load-store}
use riverpass.Manager.{
  CacheManager, enqueue_write_req, fetch_batch, take_fids, or_empty, num_to_fetch,
}

-- How often a name stands in a queue.
unfoldable pub occurrences : Bytes → List Bytes → ℕ
occurrences j [] = 0
occurrences j (n ∷ ns) = let rest = occurrences j ns in if str_eq n j then suc rest else rest

-- A name stands once in the queue if it is in the map, and not at all otherwise.
abbrev pub expected : Option Bytes → ℕ
expected none = 0
expected (some fid) = 1

abbrev pub IsQueued : List Bytes → Map Bytes → Type 0
IsQueued queue items = (j : Bytes) → occurrences j queue ≡ expected (load j items)

occurrences-append :
    (j : Bytes) (xs ys : List Bytes)
    → occurrences j (xs ++ ys) ≡ occurrences j xs + occurrences j ys
unfolding occurrences
occurrences-append j [] ys = omega arith
occurrences-append j (x ∷ xs) ys = ground (arith, occurrences-append j xs ys)

occurrences-cut :
    (n : ℕ) (queue : List Bytes) (j : Bytes)
    → occurrences j (take n queue) + occurrences j (drop n queue) ≡ occurrences j queue
occurrences-cut n queue j =
    sym (occurrences-append j (take n queue) (drop n queue))
    ∙ ap (occurrences j) (take-append-drop n queue)

at_most_once : (o : Option Bytes) → expected o ≤ 1
at_most_once none = omega arith
at_most_once (some fid) = omega arith

load-taken :
    (names : List Bytes) (items : Map Bytes) (j : Bytes)
    → ((occurrences j names ≡ 0) × (load j (take_fids names items).1 ≡ load j items))
      ⊎ ((1 ≤ occurrences j names) × (load j (take_fids names items).1 ≡ none))
unfolding take_fids occurrences
load-taken [] items j = inl (refl, refl)
load-taken (n ∷ ns) items j = elim (Bool-cases (str_eq n j)) [
  | inl same ↦ elim (load-taken ns (delete n items) j) [
    | inl (z, e) ↦ rw same (inr (omega arith, e ∙ load-delete n j items ∙ rw same refl))
    | inr (z, e) ↦ rw same (inr (omega arith, e))
  ]
  | inr differ ↦ elim (load-taken ns (delete n items) j) [
    | inl (z, e) ↦ rw differ (inl (z, e ∙ load-delete n j items ∙ rw differ refl))
    | inr (z, e) ↦ rw differ (inr (z, e))
  ]
]

fids-map :
    (names : List Bytes) (items base : Map Bytes)
    → ((j : Bytes) → occurrences j names ≤ 1)
    → ((j : Bytes) → 1 ≤ occurrences j names → load j items ≡ load j base)
    → (take_fids names items).0 ≡ map (λ n. or_empty (load n base)) names
unfolding take_fids occurrences
fids-map [] items base once same = refl
fids-map (n ∷ ns) items base once same =
    let here : load n items ≡ load n base = same n (rw (str_eq_self n) (omega arith)) in
    let rest : (take_fids ns (delete n items)).0 ≡ map (λ m. or_empty (load m base)) ns =
      fids-map ns (delete n items) base (λ j. ground (arith, once j))
        (λ j some_left. elim (Bool-cases (str_eq n j)) [
          | inl twice ↦
              absurd (let o : suc (occurrences j ns) ≤ 1 = rw twice at (once j) in omega arith)
          | inr differ ↦ load-delete n j items ∙ rw differ (same j (rw differ some_left))
        ]) in
    rw (here, rest)

after-fetch :
    (queue : List Bytes) (items : Map Bytes) (n : ℕ)
    → IsQueued queue items
    → IsQueued (drop n queue) (take_fids (take n queue) items).1
after-fetch queue items n q j =
    let total : occurrences j (take n queue) + occurrences j (drop n queue)
        ≡ expected (load j items) =
      occurrences-cut n queue j ∙ q j in
    elim (load-taken (take n queue) items j) [
      | inl (z, e) ↦ rw e (omega arith)
      | inr (z, e) ↦ rw e (omega (arith, at_most_once (load j items)))
    ]

after-enqueue :
    (queue : List Bytes) (items : Map Bytes) (fid name : Bytes)
    → load name items ≡ none
    → IsQueued queue items
    → IsQueued (queue ++ name ∷ []) (store name fid items)
unfolding occurrences
after-enqueue queue items fid name e q j = elim (Bool-cases (str_eq name j)) [
  | inl same ↦
      let z : expected (load j items) ≡ 0 =
        ap (λ k. expected (load k items)) (sym ((str_eq_iff name j).0 same)) ∙ ap expected e in
      let l : occurrences j (queue ++ name ∷ []) ≡ occurrences j queue + 1 =
        occurrences-append j queue (name ∷ []) ∙ rw same refl in
      rw (l, load-store name j fid items, same) (omega (arith, q j))
  | inr differ ↦
      let l : occurrences j (queue ++ name ∷ []) ≡ occurrences j queue =
        occurrences-append j queue (name ∷ []) ∙ rw differ (omega arith) in
      rw (l, load-store name j fid items, differ) (q j)
]

-- `EnqueueWriteReq` keeps the agreement; the file is then in the map and once in the queue.
pub enqueued-IsQueued :
    (mgr : CacheManager) (fid file_name : Bytes)
    → IsQueued mgr.w_queue mgr.write_item_map
    → IsQueued
        (enqueue_write_req mgr fid file_name).w_queue
        (enqueue_write_req mgr fid file_name).write_item_map
unfolding enqueue_write_req
enqueued-IsQueued mgr fid file_name queued =
    elim (Option-cases (load file_name mgr.write_item_map)) [
      | inr (old, e) ↦ rw e queued
      | inl e ↦ rw e (after-enqueue mgr.w_queue mgr.write_item_map fid file_name e queued)
    ]

module _ (mgr : CacheManager) (queued : IsQueued mgr.w_queue mgr.write_item_map) where
  -- When every name of the map stands in the queue once and no other name does, this still holds
  -- after `EnqueueWriteReq` and after a round of `loopBatchWrite`; the round takes the front of the
  -- queue, with the identifier that each of its names has in the map.
  pub fetch_batch-IsQueued :
      (fid file_name : Bytes)
      → IsQueued
          (enqueue_write_req mgr fid file_name).w_queue
          (enqueue_write_req mgr fid file_name).write_item_map
        × IsQueued (fetch_batch mgr).0.w_queue (fetch_batch mgr).0.write_item_map
        × ((fetch_batch mgr).1 ++ (fetch_batch mgr).0.w_queue ≡ mgr.w_queue)
        × ((fetch_batch mgr).2
            ≡ map (λ n. or_empty (load n mgr.write_item_map)) (fetch_batch mgr).1)
  unfolding fetch_batch
  fetch_batch-IsQueued fid file_name =
      let n : ℕ = num_to_fetch mgr.w_queue in
      (
        enqueued-IsQueued mgr fid file_name queued,
        after-fetch mgr.w_queue mgr.write_item_map n queued,
        take-append-drop n mgr.w_queue,
        fids-map (take n mgr.w_queue) mgr.write_item_map mgr.write_item_map
            (λ j. omega (
              arith,
              occurrences-cut n mgr.w_queue j,
              queued j,
              at_most_once (load j mgr.write_item_map),
            ))
            (λ j some_left. refl),
      )
