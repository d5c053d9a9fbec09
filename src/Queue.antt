-- ===== src/Queue.antt =====
-- src/queue.rs: Vyukov's intrusive queue with many producers and one receiver. A queue lives in the
-- memory, at the address of its `Arc`. `publish` and `link` are the two halves of `enqueue_inner`
-- between which the receiver may run.
pub mod Order
mod Chain
pub mod Transfer
pub mod Publish
pub mod Enqueue
pub mod Flag
pub mod Wake
pub mod Dequeue
pub mod Fifo
pub mod Contents
pub mod Marker
pub mod Drop
pub mod Handed
pub mod System
use async_selector.Base.{
  ℕ, ◌≡◌, Bool, true, false, not, Option, none, some, List, ◌∷◌, ◌==◌, if◌then◌else◌, update,
}
use async_selector.Memory.{
  Addr, null, Queue, Mem, is_live, Cmd, pure, fault, and_then, ◌>>=◌, ◌>>◌, read, write, clone_arc,
  drop_arc,
}

-- `futures::task::AtomicWaker`, a cell for one waker: `register` stores a waker, and `take` hands
-- out the stored one, which `AtomicWaker::wake` wakes.
pub record AtomicWaker (C : Type 0) : Type 0 where
  pub empty : C
  pub register : ℕ → C → C
  pub take : C → C × Option ℕ
  pub take-register : (waker : ℕ) (c : C) → (take (register waker c)).1 ≡ some waker

-- `ListProtected<T>`, the value of a node (src/list.rs).
pub record ListProtected (T : Type 0) : Type 0 where
  pub next : Addr
  pub prev : Addr
  pub value : Option T

-- `Receiver<T>`
pub record Receiver : Type 0 where
  pub queue : Addr
  pub stub_predecessor : Addr

module _ {T C : Type 0} where
  -- `*queue` for an `Arc<Queue<T>>`
  abbrev pub load_queue : Addr → Cmd (Mem T C) (Queue C)
  load_queue q m = elim (m.queues q) [ none ↦ none | some r ↦ some (r, m) ]

  abbrev pub store_queue : Addr → Queue C → Cmd (Mem T C) (Unit {0})
  store_queue q r m = some (tt, record m { queues = update m.queues q (some r) })

  abbrev pub load_next_enqueued : Addr → Cmd (Mem T C) Addr
  load_next_enqueued p = read p λ m. m.next_enqueued p

  abbrev pub store_next_enqueued : Addr → Addr → Cmd (Mem T C) (Unit {0})
  store_next_enqueued p n = write p λ m. record m { next_enqueued = update m.next_enqueued p n }

  -- `queue.head.swap(node)`
  abbrev pub swap_head : Addr → Addr → Cmd (Mem T C) Addr
  swap_head q node = do r ← load_queue q; store_queue q (record r { head = node }); pure r.head

  abbrev pub store_tail : Addr → Addr → Cmd (Mem T C) (Unit {0})
  store_tail q node = do r ← load_queue q; store_queue q (record r { tail = node })

  -- `node.is_enqueued.swap(true)`
  abbrev pub swap_is_enqueued : Addr → Cmd (Mem T C) Bool
  swap_is_enqueued node m =
      if is_live m.strong node
      then some (m.is_enqueued node, record m { is_enqueued = update m.is_enqueued node true })
      else none

  abbrev pub assert : Bool → Cmd (Mem T C) (Unit {0})
  assert b m = if b then some (tt, m) else none

  -- `Queue::create`, at an address that the allocator gives.
  unfoldable pub create : (fresh : Addr) → (queue : Addr) → ListProtected T → Cmd (Mem T C) Addr
  create fresh queue v m = some (
    fresh,
    record m {
      strong = update m.strong fresh 1;
      queue = update m.queue fresh queue;
      is_enqueued = update m.is_enqueued fresh false;
      next_enqueued = update m.next_enqueued fresh null;
      next = update m.next fresh v.next;
      prev = update m.prev fresh v.prev;
      value = update m.value fresh v.value;
    },
  )

  -- `Receiver::default`, at the addresses of the new queue and of the stub inside it.
  unfoldable pub new_receiver : (queue stub : Addr) → C → Cmd (Mem T C) Receiver
  new_receiver queue stub cell m = some (
    record { queue = queue; stub_predecessor = null },
    record m {
      strong = update m.strong stub 1;
      queue = update m.queue stub null;
      is_enqueued = update m.is_enqueued stub false;
      next_enqueued = update m.next_enqueued stub null;
      value = update m.value stub none;
      queues =
          update m.queues queue
            (some (record { waker = cell; head = stub; tail = stub; stub = stub }));
    },
  )

  -- The first half of `Queue::enqueue_inner`, up to the swap of the head.
  unfoldable pub publish : (queue node : Addr) → Cmd (Mem T C) Addr
  publish queue node = do
    enqueued ← read node (λ m. m.is_enqueued node)
    assert enqueued
    owner ← read node (λ m. m.queue node)
    assert (queue == owner)
    store_next_enqueued node null
    swap_head queue node

  -- `pop` is the end of both branches of `dequeue` that return a node.
  unfoldable pub pop : Receiver → (tail next : Addr) → Cmd (Mem T C) (Option Addr × Receiver)
  pop r tail next = do
    store_tail r.queue next
    q ← load_queue r.queue
    assert (not (tail == q.stub))
    pure (some tail, r)

  -- "Enqueue the stub."
  unfoldable pub enqueue_stub : (queue : Addr) → Cmd (Mem T C) Addr
  enqueue_stub queue = do
    q ← load_queue queue
    store_next_enqueued q.stub null
    stub_predecessor ← swap_head queue q.stub
    store_next_enqueued stub_predecessor q.stub
    pure stub_predecessor

  -- `dequeue` from the test of `next` on.
  unfoldable pub dequeue_from :
      Receiver → (tail next : Addr) → Cmd (Mem T C) (Option Addr × Receiver)
  unfolding pop enqueue_stub
  dequeue_from r tail next = if not (next == null) then pop r tail next else do
    q ← load_queue r.queue
    if not (tail == q.head) then pure (none, r) else do
      stub_predecessor ← enqueue_stub r.queue
      next ← load_next_enqueued tail
      if next == null
          then pure (none, record r { stub_predecessor = stub_predecessor })
          else pop (record r { stub_predecessor = stub_predecessor }) tail next

  -- `Receiver::dequeue`
  unfoldable pub dequeue : Receiver → Cmd (Mem T C) (Option Addr × Receiver)
  dequeue r = do
    q ← load_queue r.queue
    next ← load_next_enqueued q.tail
    if q.tail == q.stub
        then (if next == null then pure (none, r) else do
          store_tail r.queue next
          following ← load_next_enqueued next
          dequeue_from r next following)
        else dequeue_from r q.tail next

  -- `Dequeued::into_inner`
  unfoldable pub into_inner : Addr → Cmd (Mem T C) Addr
  into_inner node =
      write node (λ m. record m { is_enqueued = update m.is_enqueued node false }) >> pure node

module _ {T C : Type 0} ⦃aw : AtomicWaker C⦄ where
  -- `AtomicWaker::wake`: the waker that was stored is woken.
  unfoldable pub wake : (queue : Addr) → Cmd (Mem T C) (Unit {0})
  wake queue = do
    q ← load_queue queue
    store_queue queue (record q { waker = (aw.take q.waker).0 })
    λ m. some (
      tt,
      record m { woken = elim ((aw.take q.waker).1) [ none ↦ m.woken | some w ↦ w ∷ m.woken ] },
    )

  -- The second half of `Queue::enqueue_inner`.
  unfoldable pub link : (queue head node : Addr) → Cmd (Mem T C) (Unit {0})
  unfolding wake
  link queue head node = store_next_enqueued head node >> wake queue

  -- `Queue::enqueue_inner`
  unfoldable pub enqueue_inner : (queue node : Addr) → Cmd (Mem T C) (Unit {0})
  unfolding publish link
  enqueue_inner queue node = do head ← publish queue node; link queue head node

  -- `Queue::enqueue`, which owns its argument.
  unfoldable pub enqueue : (queue node : Addr) → Cmd (Mem T C) (Unit {0})
  enqueue queue node = do
    before ← swap_is_enqueued node
    if before then drop_arc node else enqueue_inner queue node

  -- `Node::enqueue`, which owns its argument. `none` among the queues is a failed `upgrade`.
  unfoldable pub enqueue_node : Addr → Cmd (Mem T C) (Unit {0})
  enqueue_node node = do
    before ← swap_is_enqueued node
    if before then drop_arc node else λ m. elim (m.queues (m.queue node)) [
      | none ↦ drop_arc node m
      | some _ ↦ enqueue_inner (m.queue node) node m
    ]

  -- `Node::enqueue_by_ref`
  unfoldable pub enqueue_by_ref : Addr → Cmd (Mem T C) (Unit {0})
  enqueue_by_ref node = do
    before ← swap_is_enqueued node
    if before then pure tt else λ m. elim (m.queues (m.queue node)) [
      | none ↦ some (tt, m)
      | some _ ↦ (do cloned ← clone_arc node; enqueue_inner (m.queue node) cloned) m
    ]

  -- `Receiver::register_waker`
  unfoldable pub register_waker : Receiver → (waker : ℕ) → Cmd (Mem T C) Addr
  register_waker r waker = do
    q ← load_queue r.queue
    store_queue r.queue (record q { waker = aw.register waker q.waker })
    q ← load_queue r.queue
    if not (q.head == q.stub)
        then pure q.head
        else (if q.tail == q.stub then pure null else pure r.stub_predecessor)
