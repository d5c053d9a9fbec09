-- ===== src/NodeList.antt =====
-- src/list.rs: the intrusive, circular, doubly linked list of nodes. A list and a cursor are values
-- that an operation takes and returns; the nodes are in the memory. `Borrowed` and `Removed` are the
-- address of their node.
pub mod Ring
pub mod Invariant
pub mod Unlink
pub mod Append
pub mod Drop
pub mod Cursor
use async_selector.Base.{
  ℕ, zero, suc, ◌+◌, ◌-◌, Bool, true, false, not, Option, none, some, ◌==◌, if◌then◌else◌, update,
}
use async_selector.Memory.{
  Addr, null, Mem, is_live, Cmd, pure, fault, and_then, ◌>>=◌, ◌>>◌, read, write, clone_arc,
  drop_arc,
}
use async_selector.Queue.{AtomicWaker, create, enqueue}

-- `List<T>`
pub record NodeList : Type 0 where
  pub front : Addr
  pub len : ℕ

-- `AccessGuard<T>`
pub record AccessGuard : Type 0 where
  pub list : NodeList
  pub node : Addr

-- `List::default`
abbrev pub empty : NodeList
empty = record { front = null; len = 0 }

-- `List::is_empty`
abbrev pub is_empty : NodeList → Bool
is_empty l = l.len == 0

module _ {T C : Type 0} where
  abbrev pub load_next : Addr → Cmd (Mem T C) Addr
  load_next p = read p λ m. m.next p

  abbrev pub load_prev : Addr → Cmd (Mem T C) Addr
  load_prev p = read p λ m. m.prev p

  abbrev pub store_next : Addr → Addr → Cmd (Mem T C) (Unit {0})
  store_next p n = write p λ m. record m { next = update m.next p n }

  abbrev pub store_prev : Addr → Addr → Cmd (Mem T C) (Unit {0})
  store_prev p n = write p λ m. record m { prev = update m.prev p n }

  -- `Borrowed::get_pin`, `Removed::get_pin`: a value that was taken or dropped must not be read.
  unfoldable pub get_pin : Addr → Cmd (Mem T C) T
  get_pin p = do v ← read p (λ m. m.value p); λ m. elim v [ none ↦ none | some v ↦ some (v, m) ]

  -- A write through `get_pin_mut`.
  unfoldable pub set_pin : Addr → T → Cmd (Mem T C) (Unit {0})
  set_pin p v = do get_pin p; write p (λ m. record m { value = update m.value p (some v) })

  -- `Removed::into_inner`: takes the value and drops the node's `Arc`.
  unfoldable pub take_value : Addr → Cmd (Mem T C) T
  take_value p = do
    v ← get_pin p
    write p (λ m. record m { value = update m.value p none })
    drop_arc p
    pure v

  -- `Removed::drop`: drops the value and the node's `Arc`.
  unfoldable pub drop_removed : Addr → Cmd (Mem T C) (Unit {0})
  drop_removed p = do take_value p; pure tt

  -- `push_back` between the creation of the node and its enqueueing.
  unfoldable pub attach : NodeList → Addr → Cmd (Mem T C) NodeList
  attach l node =
      if l.front == null
      then (do
        store_prev node node
        store_next node node
        pure (record { front = node; len = l.len + 1 }))
      else (do
        back ← load_prev l.front
        store_prev l.front node
        store_next back node
        store_prev node back
        store_next node l.front
        pure (record l { len = l.len + 1 }))

  -- `self.len -= 1` must not underflow.
  abbrev pub decrement : ℕ → Cmd (Mem T C) ℕ
  decrement zero m = none
  decrement (suc n) m = some (n, m)

  -- `List::remove_unchecked`
  unfoldable pub remove_unchecked : NodeList → Addr → Cmd (Mem T C) (Addr × NodeList)
  remove_unchecked l node = do
    prev ← load_prev node
    next ← load_next node
    store_next prev next
    store_prev next prev
    store_next node null
    store_prev node null
    len ← decrement l.len
    pure (
      node,
      record {
        front = if len == 0 then null else (if l.front == node then next else l.front);
        len = len;
      },
    )

  -- `List::get` and `List::get_mut`
  unfoldable pub get : NodeList → Addr → Cmd (Mem T C) (Option Addr)
  get l node = do next ← load_next node; pure (if next == null then none else some node)

  -- `List::remove`
  unfoldable pub remove : NodeList → Addr → Cmd (Mem T C) (Option Addr × NodeList)
  remove l node = do
    next ← load_next node
    if next == null
        then pure (none, l)
        else do (node, l) ← remove_unchecked l node; pure (some node, l)

  -- `List::access`
  unfoldable pub access : NodeList → Addr → Cmd (Mem T C) (Option AccessGuard)
  access l node = do
    next ← load_next node
    pure (if next == null then none else some (record { list = l; node = node }))

  -- `AccessGuard::remove_now`
  unfoldable pub remove_now : AccessGuard → Cmd (Mem T C) (Addr × NodeList)
  remove_now g = remove_unchecked g.list g.node

  -- `AccessGuard::drop`, when a call unwinds.
  unfoldable pub drop_guard : AccessGuard → Cmd (Mem T C) NodeList
  drop_guard g = do (node, l) ← remove_unchecked g.list g.node; drop_removed node; pure l

  -- `List::drop`, on fuel: every round removes a node and drops it.
  unfoldable pub drop_list : ℕ → NodeList → Cmd (Mem T C) NodeList
  drop_list zero l = if l.front == null then pure l else fault
  drop_list (suc fuel) l =
      if l.front == null
      then pure l
      else do (node, l) ← remove_unchecked l l.front; drop_removed node; drop_list fuel l

module _ {T C : Type 0} ⦃aw : AtomicWaker C⦄ where
  -- `List::push_back`, with the address that the allocator gives the node.
  unfoldable pub push_back :
      (fresh : Addr) → NodeList → (queue : Addr) → T → Cmd (Mem T C) (Addr × NodeList)
  push_back fresh l queue v = do
    node ← create fresh queue (record { next = null; prev = null; value = some v })
    l ← attach l node
    cloned ← clone_arc node
    enqueue queue cloned
    pure (node, l)
