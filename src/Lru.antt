-- ===== src/Lru.antt =====
-- server/holder/src/blob_handler/lru.go: the cache as a ring of nodes on a heap and a dictionary
-- of node addresses. The heap is one function for each field of `Node`. No nil pointer is followed:
-- `New` links the two sentinels, and `addToHead` sets both links of a node. Each
-- method is taken as one step. The source locks less: `Get` holds a read lock and moves its node in
-- two sections of the list's lock, and `GetCurTailNameForEvict` holds the list's lock only, so calls
-- of other goroutines can run between these; such interleavings are not in the model.
pub mod Ring
pub mod Lists
pub mod Model
pub mod Entries
pub mod Refine
pub mod Change
pub mod Methods
pub mod Evict
mod Tests
use riverpass.Prelude.{ℕ, ◌+◌, [], Option, none, some, ◌==◌, if◌then◌else◌}
use riverpass.Prelude.Int.{ℤ, pos, ◌+ℤ◌, ◌-ℤ◌}
use riverpass.Prelude.Text.{Bytes}
use riverpass.Prelude.Maps.{Map, load, store, delete}

-- Addresses of the sentinels; nodes are allocated from 2 on.
abbrev pub head : ℕ
head = 0

abbrev pub tail : ℕ
tail = 1

-- `V` is what a `*Triplet` points to; `none` is the nil pointer.
pub record LruCache (V : Type 0) : Type 0 where
  pub key : ℕ → Bytes
  pub value : ℕ → Option V
  pub prev : ℕ → ℕ
  pub next : ℕ → ℕ
  pub fresh : ℕ
  pub dict : Map ℕ
  pub size : ℤ

abbrev pub set_at {ℓ} : {A : Type ℓ} → (ℕ → A) → ℕ → A → ℕ → A
set_at f p v q = if p == q then v else f q

module _ {V : Type 0} where
  unfoldable pub new : LruCache V
  new = record {
    key = λ _. [];
    value = λ _. none;
    prev = λ p. if p == head then tail else head;
    next = λ p. if p == head then tail else head;
    fresh = 2;
    dict = [];
    size = pos 0;
  }

  -- The four writes, in their order.
  unfoldable pub add_to_head : LruCache V → ℕ → LruCache V
  add_to_head c node =
      let c1 = record c { next = set_at c.next node (c.next head) } in
      let c2 = record c1 { prev = set_at c1.prev (c1.next head) node } in
      let c3 = record c2 { next = set_at c2.next head node } in
      record c3 { prev = set_at c3.prev node head }

  unfoldable pub delete_node : LruCache V → ℕ → LruCache V
  delete_node c node =
      let c1 = record c { next = set_at c.next (c.prev node) (c.next node) } in
      record c1 { prev = set_at c1.prev (c1.next node) (c1.prev node) }

  unfoldable pub move_to_head : LruCache V → ℕ → LruCache V
  unfolding delete_node add_to_head
  move_to_head c node = add_to_head (delete_node c node) node

  abbrev pub get_found : LruCache V → Option ℕ → LruCache V × Option V
  get_found c none = (c, none)
  get_found c (some node) = (move_to_head c node, c.value node)

  unfoldable pub get : LruCache V → Bytes → LruCache V × Option V
  get c k = get_found c (load k c.dict)

  abbrev pub put_found : LruCache V → Bytes → Option V → Option ℕ → LruCache V
  put_found c k v (some node) = move_to_head (record c { value = set_at c.value node v }) node
  put_found c k v none =
      let node = c.fresh in
      let c1 = record c {
        size = c.size +ℤ pos 1;
        fresh = c.fresh + 1;
        key = set_at c.key node k;
        value = set_at c.value node v;
      } in
      let c2 = add_to_head c1 node in record c2 { dict = store k node c2.dict }

  unfoldable pub put : LruCache V → Bytes → Option V → LruCache V
  put c k v = put_found c k v (load k c.dict)

  -- Takes the last node off the ring and returns its key. The dictionary keeps the node.
  unfoldable pub get_cur_tail_name_for_evict : LruCache V → LruCache V × Bytes
  get_cur_tail_name_for_evict c =
      let node = c.prev tail in
      let res = c.key node in
      let c1 = record c { next = set_at c.next (c.prev node) (c.next node) } in
      let c2 = record c1 { prev = set_at c1.prev (c1.next node) (c1.prev node) } in
      (record c2 { size = c2.size -ℤ pos 1 }, res)

  -- The same, for the node.
  unfoldable pub remove_tail : LruCache V → LruCache V × ℕ
  remove_tail c =
      let node = c.prev tail in
      let c1 = record c { next = set_at c.next (c.prev node) (c.next node) } in
      let c2 = record c1 { prev = set_at c1.prev (c1.next node) (c1.prev node) } in
      (record c2 { size = c2.size -ℤ pos 1 }, node)

  unfoldable pub get_size : LruCache V → ℤ
  get_size c = c.size

  abbrev pub delete_found : LruCache V → Option ℕ → LruCache V
  delete_found c none = c
  delete_found c (some node) =
      let c1 = delete_node c node in record c1 { dict = delete (c1.key node) c1.dict }

  -- `size` is not changed.
  unfoldable pub delete_from_cache : LruCache V → Bytes → LruCache V
  delete_from_cache c k = delete_found c (load k c.dict)
