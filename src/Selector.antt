-- ===== src/Selector.antt =====
-- src/selector.rs, with its ids and wakers: the selector over a dynamic set of tasks. A selector is
-- a value that an operation takes and returns; an `Id`, a `Borrowed` and a `Removed` are the address
-- of their node.
pub mod Poll
pub mod Iter
pub mod Draining
pub mod Extend
pub mod Sift
pub mod Extracted
pub mod Retain
pub mod Invariant
pub mod Push
pub mod New
pub mod Access
pub mod Wake
pub mod WakeAll
mod Counts
pub mod Permits
pub mod Ran
pub mod Events
pub mod Taken
mod After
pub mod Heard
pub mod Careful
mod Hands
mod Guard
pub mod Lent
pub mod Turn
pub mod Serve
pub mod Shows
pub mod Served
pub mod Yields
mod Kept
mod Continues
mod Breaks
mod Rounds
pub mod Loop
mod Result
mod Registered
mod Split
pub mod Polling
pub mod Trace
pub mod Rounded
pub mod Drop
pub mod Leftover
use async_selector.Base.{
  ℕ, Bool, true, false, not, Option, none, some, List, [], ◌∷◌, ◌==◌, if◌then◌else◌, update,
}
use async_selector.Memory.{
  Addr, null, Mem, is_live, Cmd, pure, fault, ◌>>=◌, ◌>>◌, read, clone_arc, drop_arc,
}
use async_selector.Queue.{AtomicWaker, Receiver, new_receiver, enqueue_node, enqueue_by_ref}
use async_selector.NodeList
use async_selector.NodeList.{NodeList, push_back}
use async_selector.NodeList.Cursor.{Cursor, cursor, pop_front}
use async_selector.Task.{Event, clone, wake, wake_by_ref, drop}

-- `Selector<T, S>`
pub record Selector (S : Type 0) : Type 0 where
  pub queue : Receiver
  pub list : NodeList
  pub strategy : S

module _ {T C S : Type 0} where
  -- `Selector::new`, at the addresses of the queue and of its stub.
  unfoldable pub new : (queue stub : Addr) → C → S → Cmd (Mem T C) (Selector S)
  new queue stub cell strategy = do
    receiver ← new_receiver queue stub cell
    pure (record { queue = receiver; list = NodeList.empty; strategy = strategy })

  -- `Selector::created`
  unfoldable pub created : Selector S → Addr → Cmd (Mem T C) Bool
  created s id = do owner ← read id (λ m. m.queue id); pure (s.queue.queue == owner)

  -- `Selector::get` and `Selector::get_mut`
  unfoldable pub get : Selector S → (id : Addr) → Cmd (Mem T C) (Option Addr)
  get s id = do mine ← created s id; if not mine then pure none else NodeList.get s.list id

  -- `Selector::contains`
  unfoldable pub contains : Selector S → (id : Addr) → Cmd (Mem T C) Bool
  contains s id = do found ← get s id; pure (elim found [ none ↦ false | some _ ↦ true ])

  -- `Selector::remove`
  unfoldable pub remove : Selector S → (id : Addr) → Cmd (Mem T C) (Option Addr × Selector S)
  remove s id = do
    mine ← created s id
    if not mine
        then pure (none, s)
        else do (removed, l) ← NodeList.remove s.list id; pure (removed, record s { list = l })

-- `Id::eq`
abbrev pub id_eq : Addr → Addr → Bool
id_eq a b = a == b

-- `Selector::with_strategy`
unfoldable pub with_strategy : {S R : Type 0} → Selector S → R → Selector R
with_strategy s strategy = record { queue = s.queue; list = s.list; strategy = strategy }

module _ {T C : Type 0} ⦃aw : AtomicWaker C⦄ where
  -- `Selector::push`
  unfoldable pub push :
      {S : Type 0} → (fresh : Addr) → Selector S → T → Cmd (Mem T C) (Addr × Selector S)
  push fresh s task = do
    (node, l) ← push_back fresh s.list s.queue.queue task
    pure (node, record s { list = l })

  -- `Extend::extend`, with an address for each task.
  unfoldable pub extend : {S : Type 0} → List (Addr × T) → Selector S → Cmd (Mem T C) (Selector S)
  extend [] s = pure s
  extend ((fresh, task) ∷ tasks) s = do (_, s) ← push fresh s task; extend tasks s

  -- `FromIterator::from_iter`, with the addresses of the new queue and of its stub.
  unfoldable pub from_iter :
      {S : Type 0}
      → (queue stub : Addr) → C
      → (default : S) → List (Addr × T)
      → Cmd (Mem T C) (Selector S)
  from_iter queue stub cell default tasks = do s ← new queue stub cell default; extend tasks s

  -- `Id::wake`
  abbrev pub wake_id : Addr → Cmd (Mem T C) (Unit {0})
  wake_id id = enqueue_by_ref id

  -- The loop of `Selector::wake_all`, on fuel.
  unfoldable pub wake_loop : ℕ → Cursor → Cmd (Mem T C) (Unit {0})
  wake_loop ℕ.zero c = fault
  wake_loop (ℕ.suc fuel) c = do
    (next, c) ← pop_front c
    elim next [ none ↦ pure tt | some id ↦ do wake_id id; wake_loop fuel c ]

  -- `Selector::wake_all`
  unfoldable pub wake_all : {S : Type 0} → Selector S → Cmd (Mem T C) (Unit {0})
  wake_all s = do c ← cursor s.list; wake_loop (ℕ.suc s.list.len) c

  -- The functions of `NodeWaker::VTABLE`: `do_clone`, `do_wake`, `do_wake_by_ref`, `do_drop`.
  unfoldable pub run_event : Event → Cmd (Mem T C) (Unit {0})
  run_event (clone a) = do clone_arc a; pure tt
  run_event (wake a) = enqueue_node a
  run_event (wake_by_ref a) = enqueue_by_ref a
  run_event (drop a) = drop_arc a

  unfoldable pub run_events : List Event → Cmd (Mem T C) (Unit {0})
  run_events [] = pure tt
  run_events (e ∷ es) = run_event e >> run_events es
