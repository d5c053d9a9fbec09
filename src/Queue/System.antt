-- ===== src/Queue/System.antt =====
-- Producers and the receiver of a queue of src/queue.rs, an atomic step of one of them at a time. Two
-- steps of an enqueue are apart in the order of the steps as the scheduler has it. The queue lives.
pub mod Holds
pub mod Owners
mod Handles
mod Fresh
mod Gaps
mod Steps
mod Takes
mod Preserved
pub mod Interleaved
use async_selector.Base.{
  zero, ◌+◌, ◌-◌, ◌<◌, true, ◌≡◌, ◌≢◌, ℕ, Bool, false, Option, none, some, List, [], ◌∷◌, ◌++◌,
  update,
}
use async_selector.Memory.{Addr, null, Mem, clone_arc, drop_arc}
use async_selector.Queue.{
  AtomicWaker, ListProtected, Receiver, create, swap_is_enqueued, publish, link, dequeue,
  into_inner, register_waker,
}

-- Who has acquired the flag of a node that is not in the queue, with a handle of the node in hand: a
-- producer that is about to publish it, with the handle that it puts into the queue, or before that,
-- in `enqueue_by_ref`, with a handle that is only borrowed; or the receiver, which took it out.
pub data Holder : Type 0 where
  nobody : Holder
  borrower : Holder
  producer : Holder
  taker : Holder

-- `handles` counts the other handles of a node that the threads have. `pending head` is the node that
-- a producer has published behind `head` but not yet linked. `joined` and `handed` are the nodes in
-- the order in which they were published, and in that in which they were handed out.
pub record System (T C : Type 0) : Type 0 where
  pub mem : Mem T C
  pub receiver : Receiver
  pub holder : Addr → Holder
  pub handles : Addr → ℕ
  pub pending : Addr → Option Addr
  pub joined : List Addr
  pub handed : List Addr

module _ {T C : Type 0} ⦃aw : AtomicWaker C⦄ (queue stub : Addr) where
  -- A step of one thread. `allocate` creates a node at an address that is not in use, and so also
  -- where a node was freed. `copy` and `discard` are those of a handle. `claim` or `borrow`, with
  -- `lend`, and then `join` and `connect` are those of `enqueue` and of `enqueue_by_ref`; one that
  -- finds the flag set (`busy`) returns, and the handle that it was given is discarded. `miss`,
  -- `take`, `release`, `skip` and `register` are those of the receiver, which clears the flag of the
  -- node that it took, or drops it with the flag set.
  pub data Step (s : System T C) : System T C → Type 0 where
    allocate :
        (node : Addr) (v : ListProtected T) (m : Mem T C)
        → node ≢ null
        → s.mem.strong node ≡ 0
        → create node queue v s.mem ≡ some (node, m)
        → Step s (record s { mem = m; handles = update s.handles node 1 })
    copy :
        (node : Addr) (m : Mem T C)
        → 0 < s.handles node
        → clone_arc node s.mem ≡ some (node, m)
        → Step s (record s { mem = m; handles = update s.handles node (s.handles node + 1) })
    discard :
        (node : Addr) (m : Mem T C)
        → 0 < s.handles node
        → drop_arc node s.mem ≡ some (tt, m)
        → Step s (record s { mem = m; handles = update s.handles node (s.handles node - 1) })
    busy :
        (node : Addr) (m : Mem T C)
        → 0 < s.handles node
        → swap_is_enqueued node s.mem ≡ some (true, m)
        → Step s (record s { mem = m })
    claim :
        (node : Addr) (m : Mem T C)
        → 0 < s.handles node
        → swap_is_enqueued node s.mem ≡ some (false, m)
        → Step s (record s {
          mem = m;
          holder = update s.holder node producer;
          handles = update s.handles node (s.handles node - 1);
        })
    borrow :
        (node : Addr) (m : Mem T C)
        → 0 < s.handles node
        → swap_is_enqueued node s.mem ≡ some (false, m)
        → Step s (record s {
          mem = m;
          holder = update s.holder node borrower;
          handles = update s.handles node (s.handles node - 1);
        })
    lend :
        (node : Addr) (m : Mem T C)
        → s.holder node ≡ borrower
        → clone_arc node s.mem ≡ some (node, m)
        → Step s (record s {
          mem = m;
          holder = update s.holder node producer;
          handles = update s.handles node (s.handles node + 1);
        })
    join :
        (node head : Addr) (m : Mem T C)
        → s.holder node ≡ producer
        → publish queue node s.mem ≡ some (head, m)
        → Step s (record s {
          mem = m;
          holder = update s.holder node nobody;
          pending = update s.pending head (some node);
          joined = s.joined ++ node ∷ [];
        })
    connect :
        (head node : Addr) (m : Mem T C)
        → s.pending head ≡ some node
        → link queue head node s.mem ≡ some (tt, m)
        → Step s (record s { mem = m; pending = update s.pending head none })
    miss :
        (r : Receiver) (m : Mem T C)
        → dequeue s.receiver s.mem ≡ some ((none, r), m)
        → Step s (record s { mem = m; receiver = r })
    take :
        (node : Addr) (r : Receiver) (m : Mem T C)
        → dequeue s.receiver s.mem ≡ some ((some node, r), m)
        → Step s (record s {
          mem = m;
          receiver = r;
          holder = update s.holder node taker;
          handed = s.handed ++ node ∷ [];
        })
    release :
        (node : Addr) (m : Mem T C)
        → s.holder node ≡ taker
        → into_inner node s.mem ≡ some (node, m)
        → Step s (record s {
          mem = m;
          holder = update s.holder node nobody;
          handles = update s.handles node (s.handles node + 1);
        })
    skip :
        (node : Addr) (m : Mem T C)
        → s.holder node ≡ taker
        → drop_arc node s.mem ≡ some (tt, m)
        → Step s (record s { mem = m; holder = update s.holder node nobody })
    register :
        (waker marker : Addr) (m : Mem T C)
        → register_waker s.receiver waker s.mem ≡ some (marker, m)
        → Step s (record s { mem = m })

  -- Any number of steps, by any threads.
  pub data Reach (s : System T C) : System T C → Type 0 where
    here : Reach s s
    next : {t u : System T C} → Reach s t → Step t u → Reach s u
