-- ===== src/Selector/After.antt =====
-- A selector of src/selector.rs after `dequeue` of src/queue.rs, and the waker that waits in it.
use async_selector.Base.{
  ℕ, ◌+◌, ◌≡◌, ◌≢◌, sym, ◌∙◌, ap, subst, Bool, true, Option, none, some, List, arith, has,
  ne_of_has, inl, inr,
}
use async_selector.Memory.{Addr, Mem}
use async_selector.Queue.{AtomicWaker, Receiver, dequeue}
use async_selector.Queue.Order.{IsQueue, dequeue_order}
use async_selector.Queue.Contents.{Handed, dequeue_order-Handed}
use async_selector.Queue.Enqueue.{Alert, waker-eq}
use async_selector.Queue.Fifo.{Dequeues, dequeue-Runs}
use async_selector.Selector.{Selector}
use async_selector.Queue.Handed.{has-contents}
use async_selector.Selector.Invariant.{IsSelector, share}
use async_selector.Selector.Taken.{Taken, dequeued-IsSelector, dequeued-Taken}

module _ {T C : Type 0} ⦃aw : AtomicWaker C⦄ where
  -- `dequeue` leaves a stored waker in place.
  Alert-kept :
      (m m' : Mem T C) (r r' : Receiver) (stub : Addr) (gap : Addr → Bool)
      (order order' : List Addr) (is : IsQueue m r stub gap order)
      (is' : IsQueue m' r' stub gap order')
      → is'.waker ≡ is.waker
      → Dequeues m m' r r'
      → (w : ℕ) → Alert m r.queue w
      → Alert m' r.queue w
  Alert-kept m m' r r' stub gap order order' is is' same done w (inl (q, found, stored)) = inl (
    _,
    ap m'.queues (sym done.queue) ∙ is'.found,
    ap (λ c. (aw.take c).1) (same ∙ waker-eq m r stub gap order is q found) ∙ stored,
  )
  Alert-kept m m' r r' stub gap order order' is is' same done w (inr woken) =
      inr (subst (λ (ws : List ℕ). has w ws ≡ true) (sym done.woken) woken)

-- The state after `dequeue`, by its result.
abbrev pub After :
    {T S C : Type 0}
    → Mem T C
    → Selector S
    → Addr
    → (Addr → Bool)
    → (Addr → ℕ)
    → List Addr
    → List Addr
    → Option Addr
    → Type 0
After m s stub gap ext tasks order none = IsSelector m s stub gap ext tasks order
After m s stub gap ext tasks order (some node) = Taken m s stub gap ext tasks order node

counted_same :
    (strong : Addr → ℕ) (tasks xs ys : List Addr) (ext : Addr → ℕ) (a : Addr)
    → has a xs ≡ has a ys
    → strong a ≡ share a tasks + share a xs + ext a
    → strong a ≡ share a tasks + share a ys + ext a
counted_same strong tasks xs ys ext a same h = ground arith

module _ {T S C : Type 0} (m m' : Mem T C) (s : Selector S) (r : Receiver) (stub : Addr)
    (gap : Addr → Bool) (ext : Addr → ℕ) (tasks order order' : List Addr)
    (is : IsSelector m s stub gap ext tasks order) (queue : IsQueue m' r stub gap order')
    (done : Dequeues m m' s.queue r) where
  dequeued-After :
      (next : Option Addr)
      → Handed stub gap order order' next
      → After m' (record s { queue = r }) stub gap ext tasks order' next
  dequeued-After none (same, why) =
      let others = λ (a : Addr) (ne : a ≢ stub).
        sym (has-contents stub a order ne)
        ∙ ap (has a) (sym same)
        ∙ has-contents stub a order' ne in
      dequeued-IsSelector m m' s r stub gap ext tasks order order' is queue done m'.is_enqueued ext
        queue.marked
        (λ a j on.
          sym (others a (λ e. ne_of_has tasks j is.real e))
          ∙ is.awake a j (sym (ap (λ f. f a) done.flags) ∙ on))
        (λ a ne. counted_same m.strong tasks order order' ext a (others a ne))
  dequeued-After (some node) handed =
      dequeued-Taken m m' s r stub gap ext tasks order order' is queue done node handed

module _ {T S C : Type 0} (m : Mem T C) (s : Selector S) (stub : Addr) (gap : Addr → Bool)
    (ext : Addr → ℕ) (tasks order : List Addr) (is : IsSelector m s stub gap ext tasks order) where
  pub dequeue-After :
      ⦃aw : AtomicWaker C⦄
      → (next : Option Addr) × (order' : List Addr) × (r : Receiver) × (m' : Mem T C) × (dequeue
            s.queue m
          ≡ some ((next, r), m'))
        × Handed stub gap order order' next
        × Dequeues m m' s.queue r
        × ((w : ℕ) → Alert m s.queue.queue w → Alert m' s.queue.queue w)
        × After m' (record s { queue = r }) stub gap ext tasks order' next
  dequeue-After =
      let (r, m', run, queue, same, done) = dequeue-Runs m s.queue stub gap order is.queue in
      let step = dequeue_order stub gap order in
      let handed = dequeue_order-Handed stub gap order is.queue.distinct in
      (
        step.0,
        step.1,
        r,
        m',
        run,
        handed,
        done,
        (λ w. Alert-kept m m' s.queue r stub gap order step.1 is.queue queue same done w),
        dequeued-After m m' s r stub gap ext tasks order step.1 is queue done step.0 handed,
      )
