-- ===== src/Queue/Order.antt =====
-- The state of a queue of src/queue.rs, as the list of its nodes from the tail to the head. The stub
-- may stand among them. Behind a node with a gap the link to the next node is not stored yet: the
-- producer of that node is between its two steps.
use async_selector.Base.{
  refl, ◌≡◌, ◌≢◌, Bool, true, false, Option, none, some, List, [], ◌∷◌, ◌==◌, if◌then◌else◌, first,
  last, has, Distinct,
}
use async_selector.Memory.{Addr, null, Mem, Live}
use async_selector.Queue.{Receiver}

-- `next_enqueued` leads from each node to the next, but for the gaps.
abbrev pub Chain : (Addr → Addr) → (Addr → Bool) → List Addr → Type 0
Chain f gap [] = Unit
Chain f gap (x ∷ xs) = (f x ≡ (if gap x then null else first xs null)) × Chain f gap xs

-- The last item but one, or `q`.
abbrev pub second_last : List Addr → Addr → Addr
second_last [] q = q
second_last (x ∷ []) q = q
second_last (x ∷ y ∷ []) q = x
second_last (x ∷ y ∷ z ∷ zs) q = second_last (y ∷ z ∷ zs) q

pub record IsQueue {T C : Type 0} (m : Mem T C) (r : Receiver) (stub : Addr) (gap : Addr → Bool)
    (order : List Addr) : Type 0 where
  pub waker : C
  pub found :
      m.queues r.queue
      ≡ some
          (record { waker = waker; head = last order null; tail = first order null; stub = stub })
  pub chain : Chain m.next_enqueued gap order
  pub settled : gap (last order null) ≡ false
  pub gaps : (a : Addr) → gap a ≡ true → has a order ≡ true
  pub distinct : Distinct order
  pub live : (a : Addr) → has a order ≡ true → Live m.strong a
  pub stub_live : Live m.strong stub
  pub filled : (order ≡ []) → ⊥
  pub owned : (a : Addr) → has a order ≡ true → a ≢ stub → m.queue a ≡ r.queue
  pub marked : (a : Addr) → has a order ≡ true → a ≢ stub → m.is_enqueued a ≡ true
  pub behind : last order null ≡ stub → r.stub_predecessor ≡ second_last order r.stub_predecessor

-- The nodes that wait in the queue, oldest first.
abbrev pub contents : Addr → List Addr → List Addr
contents stub [] = []
contents stub (x ∷ xs) = if x == stub then contents stub xs else x ∷ contents stub xs

-- What `dequeue_from` does to the order: the first node is handed out, unless its link is missing.
-- The last node is handed out behind the stub.
abbrev pub take_first : Addr → (Addr → Bool) → List Addr → Option Addr × List Addr
take_first stub gap [] = (none, [])
take_first stub gap (x ∷ []) = (some x, stub ∷ [])
take_first stub gap (x ∷ y ∷ xs) = if gap x then (none, x ∷ y ∷ xs) else (some x, y ∷ xs)

-- What `dequeue` does to the order: first it leaves the stub behind.
abbrev pub dequeue_order : Addr → (Addr → Bool) → List Addr → Option Addr × List Addr
dequeue_order stub gap [] = (none, [])
dequeue_order stub gap (x ∷ []) = if x == stub then (none, x ∷ []) else take_first stub gap (x ∷ [])
dequeue_order stub gap (x ∷ y ∷ xs) =
    if x == stub
    then (if gap x then (none, x ∷ y ∷ xs) else take_first stub gap (y ∷ xs))
    else take_first stub gap (x ∷ y ∷ xs)

-- Without the first item the last but one is the same.
pub second_last-tail :
    (x y : Addr) (ys : List Addr) {q : Addr}
    → q ≡ second_last (x ∷ y ∷ ys) q
    → q ≡ second_last (y ∷ ys) q
second_last-tail x y [] e = refl
second_last-tail x y (z ∷ zs) e = e

-- What the queue leaves alone: the fields that src/list.rs reads, and who owns a node.
pub record KeepsNodes {T C : Type 0} (m m' : Mem T C) : Type 0 where
  pub strong : m'.strong ≡ m.strong
  pub queue : m'.queue ≡ m.queue
  pub next : m'.next ≡ m.next
  pub prev : m'.prev ≡ m.prev
  pub value : m'.value ≡ m.value
