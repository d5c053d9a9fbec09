-- ===== src/Selector/Invariant.antt =====
-- Well-formedness of the selector of src/selector.rs. `tasks` are its tasks in the order of their
-- insertion, `order` is its queue, and `ext a` counts the other handles of a node: `Id`s, wakers and
-- `Removed`s.
use async_selector.Base.{ℕ, ◌+◌, ◌≡◌, ◌≢◌, Bool, true, false, List, has}
pub use async_selector.Base.{share, share_of_mem, share_of_not_mem}
use async_selector.Memory.{Addr, null, Mem, Live}
use async_selector.Queue.Order.{IsQueue}
use async_selector.NodeList.Invariant.{IsList}
use async_selector.Selector.{Selector}

pub record IsSelector {T S C : Type 0} (m : Mem T C) (s : Selector S) (stub : Addr)
    (gap : Addr → Bool) (ext : Addr → ℕ) (tasks order : List Addr) : Type 0 where
  pub list : IsList m s.list tasks
  pub queue : IsQueue m s.queue stub gap order
  pub owned : (a : Addr) → has a tasks ≡ true → m.queue a ≡ s.queue.queue
  pub real : has stub tasks ≡ false
  -- The list, the queue and the other handles are all the owners of a node.
  pub counted :
      (a : Addr)
      → a ≢ stub
      → m.queue a ≡ s.queue.queue
      → m.strong a ≡ share a tasks + share a order + ext a
  -- A node that was removed is marked by its link.
  pub unlinked :
      (a : Addr)
      → a ≢ stub
      → m.queue a ≡ s.queue.queue
      → Live m.strong a
      → has a tasks ≡ false
      → m.next a ≡ null
  -- A task whose flag is set is in the queue: no wakeup of it is lost.
  pub awake : (a : Addr) → has a tasks ≡ true → m.is_enqueued a ≡ true → has a order ≡ true
