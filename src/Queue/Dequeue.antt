-- ===== src/Queue/Dequeue.antt =====
-- The runs of `dequeue` of src/queue.rs, a case at a time, and the queue after each.
use async_selector.Base.{
  ◌≡◌, ◌≢◌, refl, sym, Bool, true, false, none, some, List, [], ◌∷◌, arith, if◌then◌else◌, last,
  has-last, has_here, ne_of_has, update, update_self, ne→==,
}
use async_selector.Memory.{Addr, null, Mem, Live, Live-ne_null}
use async_selector.Queue.{Receiver, dequeue, dequeue_from, pop, enqueue_stub}
use async_selector.Queue.Order.{IsQueue, second_last-tail}

module _ {T C : Type 0} (m : Mem T C) (r : Receiver) (stub : Addr) where
  -- The memory with another tail.
  abbrev pub moved : C → (head tail : Addr) → Mem T C
  moved waker head tail = record m {
    queues =
        update m.queues r.queue
          (some (record { waker = waker; head = head; tail = tail; stub = stub }));
  }

  pub pop-run :
      (x y head : Addr) (waker : C)
      → m.queues r.queue ≡ some (record { waker = waker; head = head; tail = x; stub = stub })
      → x ≢ stub
      → pop r x y m ≡ some ((some x, r), moved waker head y)
  unfolding pop
  pop-run x y head waker found real =
      let e =
        update_self m.queues r.queue
          (some (record { waker = waker; head = head; tail = y; stub = stub })) in
      let n = ne→== real in ground arith

  -- The memory after `enqueue_stub` behind the single node `x`.
  abbrev pub stubbed : C → Addr → Mem T C
  stubbed waker x = record m {
    next_enqueued = update (update m.next_enqueued stub null) x stub;
    queues =
        update m.queues r.queue
          (some (record { waker = waker; head = stub; tail = x; stub = stub }));
  }

  enqueue_stub-run :
      (x : Addr) (waker : C)
      → m.queues r.queue ≡ some (record { waker = waker; head = x; tail = x; stub = stub })
      → Live m.strong stub
      → Live m.strong x
      → enqueue_stub r.queue m ≡ some (x, stubbed waker x)
  unfolding enqueue_stub
  enqueue_stub-run x waker found live_stub live_x = ground arith

module _ {T C : Type 0} (m : Mem T C) (r : Receiver) (stub : Addr) (gap : Addr → Bool) where
  -- The first node leaves; the next one, which it is linked to, is the tail.
  pub moved-IsQueue :
      (x y : Addr) (ys : List Addr) (is : IsQueue m r stub gap (x ∷ y ∷ ys))
      → gap x ≡ false
      → (is' : IsQueue (moved m r stub is.waker (last ys y) y) r stub gap (y ∷ ys)) × (is'.waker
          ≡ is.waker)
  moved-IsQueue x y ys is closed = (
    record {
      waker = is.waker;
      found = update_self m.queues r.queue _;
      chain = is.chain.1;
      settled = is.settled;
      gaps = λ a i. ground (arith, is.gaps a);
      distinct = is.distinct.1;
      live = λ a i. is.live a (ground arith);
      stub_live = is.stub_live;
      filled = λ e. cc;
      owned = λ a i. is.owned a (ground arith);
      marked = λ a i. is.marked a (ground arith);
      behind = λ e. second_last-tail x y ys (is.behind e);
    },
    refl,
  )

  -- The last node leaves, and the stub stands in its place.
  abbrev pub restubbed : C → Addr → Mem T C
  restubbed waker x = moved (stubbed m r stub waker x) r stub waker stub stub

  abbrev pub behind_stub : Addr → Receiver
  behind_stub x = record r { stub_predecessor = x }

  pub restubbed-IsQueue :
      (x : Addr) (is : IsQueue m r stub gap (x ∷ []))
      → x ≢ stub
      → (is' : IsQueue (restubbed is.waker x) (behind_stub x) stub gap (stub ∷ [])) × (is'.waker
          ≡ is.waker)
  restubbed-IsQueue x is real = (
    record {
      waker = is.waker;
      found =
          update_self
            (update m.queues r.queue
              (some (record { waker = is.waker; head = stub; tail = x; stub = stub })))
            r.queue _;
      chain = (alone, tt);
      settled = no_gap;
      gaps = λ a i. absurd (not_gap a i);
      distinct = (refl, tt);
      live = λ a i. ground (arith, is.stub_live);
      stub_live = is.stub_live;
      filled = λ e. cc;
      owned = λ a i e. absurd (ground arith);
      marked = λ a i e. absurd (ground arith);
      behind = λ e. refl;
    },
    refl,
  )
    where
      no_gap : gap stub ≡ false
      no_gap = ground (arith, is.gaps stub)

      not_gap : (a : Addr) → gap a ≡ true → ⊥
      not_gap a i = ground (arith, is.gaps a, is.settled)

      alone :
          update (update m.next_enqueued stub null) x stub stub ≡ (if gap stub then null else null)
      alone = ground arith

  -- `dequeue_from` at a first node that is not the stub.
  pub from-linked :
      (x y : Addr) (ys : List Addr) (is : IsQueue m r stub gap (x ∷ y ∷ ys))
      → x ≢ stub
      → dequeue_from r x y m ≡ some ((some x, r), moved m r stub is.waker (last ys y) y)
  unfolding dequeue_from
  from-linked x y ys is real =
      simp (Live-ne_null m.strong y (is.live y (ground arith)))
        (pop-run m r stub x y (last ys y) is.waker is.found real)

  pub from-gap :
      (x y : Addr) (ys : List Addr) (is : IsQueue m r stub gap (x ∷ y ∷ ys))
      → dequeue_from r x null m ≡ some ((none, r), m)
  unfolding dequeue_from
  from-gap x y ys is =
      let found = is.found in
      let ne = ne→== {a = x} (λ e. ne_of_has (y ∷ ys) (has-last y ys) is.distinct.0 (sym e)) in
      ground arith

  pub from-last :
      (x : Addr) (is : IsQueue m r stub gap (x ∷ []))
      → x ≢ stub
      → dequeue_from r x null m ≡ some ((some x, behind_stub x), restubbed is.waker x)
  unfolding dequeue_from
  from-last x is real =
      let stub_run =
        enqueue_stub-run m r stub x is.waker is.found is.stub_live (is.live x (has_here x [])) in
      let mid = stubbed m r stub is.waker x in
      let pop_run =
        pop-run mid (behind_stub x) stub x stub stub is.waker (update_self m.queues r.queue _)
          real in
      let found = is.found in
      let live = is.live x (has_here x []) in
      let linked = update_self (update m.next_enqueued stub null) x stub in
      let ne = Live-ne_null m.strong stub is.stub_live in ground arith

  -- `dequeue`, as the tail is another node than the stub, or the stub.
  pub dequeue-direct :
      (x : Addr) (xs : List Addr) (is : IsQueue m r stub gap (x ∷ xs))
      → x ≢ stub
      → dequeue r m ≡ dequeue_from r x (m.next_enqueued x) m
  unfolding dequeue
  dequeue-direct x xs is real =
      let found = is.found in
      let live = is.live x (has_here x xs) in let n = ne→== real in ground arith

  pub dequeue-stuck :
      (xs : List Addr) (is : IsQueue m r stub gap (stub ∷ xs))
      → m.next_enqueued stub ≡ null
      → dequeue r m ≡ some ((none, r), m)
  unfolding dequeue
  dequeue-stuck xs is alone = let found = is.found in let live = is.stub_live in ground arith

  pub dequeue-skip :
      (y : Addr) (ys : List Addr) (is : IsQueue m r stub gap (stub ∷ y ∷ ys))
      → m.next_enqueued stub ≡ y
      → dequeue r m ≡ dequeue_from r y (m.next_enqueued y) (moved m r stub is.waker (last ys y) y)
  unfolding dequeue
  dequeue-skip y ys is e =
      let found = is.found in
      let live = is.stub_live in
      let live_y = is.live y (ground arith) in
      let n = Live-ne_null m.strong y live_y in ground arith
