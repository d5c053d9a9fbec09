-- ===== src/Queue/Fifo.antt =====
-- `dequeue` of src/queue.rs against the order of the nodes: it hands them out first in, first out.
use mathlib.Core.Path.{subst₂}
use native.Mathlib.Decide.{ℕ_discrete}
use async_selector.Base.{
  ◌≡◌, ◌≢◌, refl, sym, ◌∙◌, ap, Bool, Bool-cases, inl, inr, true, false, Option, some, List, [],
  ◌∷◌, if◌then◌else◌, last, has_here, ne_of_has, subst,
}
use async_selector.Memory.{Addr, null, Mem, Queue}
use async_selector.Queue.{Receiver, dequeue, dequeue_from}
use async_selector.Queue.Order.{IsQueue, KeepsNodes, take_first, dequeue_order}
use async_selector.Queue.Contents.{
  order-alone, order-gap, order-skip, order-direct, Handed, dequeue_order-Handed,
}
use async_selector.Queue.Dequeue.{
  moved, moved-IsQueue, behind_stub, restubbed, restubbed-IsQueue, from-linked, from-gap, from-last,
  dequeue-direct, dequeue-stuck, dequeue-skip,
}

both_null : (g : Bool) → (if g then null else null) ≡ null
both_null true = refl
both_null false = refl

module _ {T C : Type 0} where
  -- What `dequeue` leaves alone.
  pub record Dequeues (m m' : Mem T C) (r r' : Receiver) : Type 0 where
    pub keeps : KeepsNodes m m'
    pub flags : m'.is_enqueued ≡ m.is_enqueued
    pub woken : m'.woken ≡ m.woken
    pub queue : r'.queue ≡ r.queue

  unchanged : {m : Mem T C} {r : Receiver} → Dequeues m m r r
  unchanged = record {
    keeps = record { strong = refl; queue = refl; next = refl; prev = refl; value = refl };
    flags = refl;
    woken = refl;
    queue = refl;
  }

  Dequeues-queues :
      {m₀ m : Mem T C} {r : Receiver}
      → Dequeues m₀ m r r
      → (links : Addr → Addr) (queues : Addr → Option (Queue C)) (p : Addr)
      → Dequeues m₀
          (record m { next_enqueued = links; queues = queues })
          r
          (record r { stub_predecessor = p })
  Dequeues-queues kept links queues p = record {
    keeps = record {
      strong = kept.keeps.strong;
      queue = kept.keeps.queue;
      next = kept.keeps.next;
      prev = kept.keeps.prev;
      value = kept.keeps.value;
    };
    flags = kept.flags;
    woken = kept.woken;
    queue = refl;
  }

  -- A run that comes to the result and the order of `next`, with the waker cell as it was.
  abbrev pub Runs :
      (m₀ m : Mem T C) (r : Receiver) (stub : Addr) (gap : Addr → Bool) (waker : C)
      (run : Option ((Option Addr × Receiver) × Mem T C)) (next : Option Addr × List Addr)
      → Type 0
  Runs m₀ m r stub gap waker run next =
      (r' : Receiver) × (m' : Mem T C) × (run ≡ some ((next.0, r'), m'))
      × (is : IsQueue m' r' stub gap next.1) × (is.waker ≡ waker)
      × Dequeues m₀ m' r r'

  module _ (m₀ m : Mem T C) (r : Receiver) (stub : Addr) (gap : Addr → Bool) where
    from-Runs :
        (x : Addr) (xs : List Addr) (is : IsQueue m r stub gap (x ∷ xs))
        → x ≢ stub
        → Dequeues m₀ m r r
        → Runs m₀ m r stub gap is.waker
            (dequeue_from r x (m.next_enqueued x) m)
            (take_first stub gap (x ∷ xs))
    from-Runs x [] is real kept =
        let (is', same) = restubbed-IsQueue m r stub gap x is real in
        (
          behind_stub m r stub gap x,
          restubbed m r stub gap is.waker x,
          ap (λ n. dequeue_from r x n m) (is.chain.0 ∙ both_null (gap x))
              ∙ from-last m r stub gap x is real,
          is',
          same,
          Dequeues-queues kept _ _ x,
        )
    from-Runs x (y ∷ ys) is real kept = elim (Bool-cases (gap x)) [
      | inl missing ↦ rw missing (
        r,
        m,
        ap (λ n. dequeue_from r x n m) (is.chain.0 ∙ ap (λ g. if g then null else y) missing)
            ∙ from-gap m r stub gap x y ys is,
        is,
        refl,
        kept,
      )
      | inr closed ↦
          let (is', same) = moved-IsQueue m r stub gap x y ys is closed in
          rw closed (
            r,
            moved m r stub is.waker (last ys y) y,
            ap (λ n. dequeue_from r x n m) (is.chain.0 ∙ ap (λ g. if g then null else y) closed)
                ∙ from-linked m r stub gap x y ys is real,
            is',
            same,
            Dequeues-queues kept _ _ r.stub_predecessor,
          )
    ]

  -- The same run and the same step, under other names.
  Runs-via :
      (m : Mem T C) (r : Receiver) (stub : Addr) (gap : Addr → Bool) (waker : C)
      {run run' : Option ((Option Addr × Receiver) × Mem T C)}
      {next next' : Option Addr × List Addr}
      → run ≡ run'
      → next ≡ next'
      → Runs m m r stub gap waker run' next'
      → Runs m m r stub gap waker run next
  Runs-via m r stub gap waker e n =
      subst₂ (λ run next. Runs m m r stub gap waker run next) (sym e) (sym n)

  module _ (m : Mem T C) (r : Receiver) (stub : Addr) (gap : Addr → Bool) where
    stub-Runs :
        (xs : List Addr) (is : IsQueue m r stub gap (stub ∷ xs))
        → Runs m m r stub gap is.waker (dequeue r m) (dequeue_order stub gap (stub ∷ xs))
    stub-Runs [] is =
        Runs-via m r stub gap is.waker
          (dequeue-stuck m r stub gap [] is (is.chain.0 ∙ both_null (gap stub)))
          (order-alone stub gap) (r, m, refl, is, refl, unchanged)
    stub-Runs (y ∷ ys) is = elim (Bool-cases (gap stub)) [
      | inl missing ↦
          Runs-via m r stub gap is.waker
            (dequeue-stuck m r stub gap (y ∷ ys) is
              (is.chain.0 ∙ ap (λ g. if g then null else y) missing))
            (order-gap stub gap y ys missing) (r, m, refl, is, refl, unchanged)
      | inr closed ↦
          let (is', same) = moved-IsQueue m r stub gap stub y ys is closed in
          let real = λ (e : y ≡ stub). ne_of_has (y ∷ ys) (has_here y ys) is.distinct.0 e in
          Runs-via m r stub gap is.waker
            (dequeue-skip m r stub gap y ys is
              (is.chain.0 ∙ ap (λ g. if g then null else y) closed))
            (order-skip stub gap y ys closed)
            (subst
              (λ w.
                Runs m m r stub gap w
                  (dequeue_from r y (m.next_enqueued y) (moved m r stub is.waker (last ys y) y))
                  (take_first stub gap (y ∷ ys)))
              same
              (from-Runs m (moved m r stub is.waker (last ys y) y) r stub gap y ys is' real
                (Dequeues-queues unchanged m.next_enqueued _ r.stub_predecessor)))
    ]

    -- `dequeue` on the memory refines `dequeue_order` on the list of the nodes between tail and
    -- head: from any well-formed state it does not fault, returns what `dequeue_order` returns,
    -- leaves a well-formed queue with the order that `dequeue_order` leaves, and keeps the waker
    -- cell.
    pub dequeue-Runs :
        (order : List Addr) (is : IsQueue m r stub gap order)
        → Runs m m r stub gap is.waker (dequeue r m) (dequeue_order stub gap order)
    dequeue-Runs [] is = absurd (is.filled refl)
    dequeue-Runs (x ∷ xs) is = elim (ℕ_discrete x stub) [
      | yes e ↦ at_stub x e is
      | no real ↦
          Runs-via m r stub gap is.waker (dequeue-direct m r stub gap x xs is real)
            (order-direct stub gap x xs real) (from-Runs m m r stub gap x xs is real unchanged)
    ]
      where
        at_stub :
            (x : Addr)
            → x ≡ stub
            → (is : IsQueue m r stub gap (x ∷ xs))
            → Runs m m r stub gap is.waker (dequeue r m) (dequeue_order stub gap (x ∷ xs))
        at_stub x e =
            subst
              (λ y.
                (is : IsQueue m r stub gap (y ∷ xs))
                → Runs m m r stub gap is.waker (dequeue r m) (dequeue_order stub gap (y ∷ xs)))
              (sym e) (stub-Runs xs)

    -- In any well-formed state of the queue, also with the links of some producers still missing,
    -- `dequeue` does not fault and leaves the queue well-formed. If it hands out a node, this is
    -- the one that has waited longest, and the others wait in the same order; it hands out none
    -- only if none waits, or if the link behind some node is missing. It changes neither the flags,
    -- the strong counts and the list, nor which wakers were woken.
    pub dequeue_fifo :
        (order : List Addr)
        → IsQueue m r stub gap order
        → (next : Option Addr) × (order' : List Addr) × (r' : Receiver) × (m' : Mem T C) × (dequeue
              r m
            ≡ some ((next, r'), m'))
          × IsQueue m' r' stub gap order'
          × Handed stub gap order order' next
          × Dequeues m m' r r'
    dequeue_fifo order is =
        let (r', m', run, is', same, kept) = dequeue-Runs order is in
        let step = dequeue_order stub gap order in
        (step.0, step.1, r', m', run, is', dequeue_order-Handed stub gap order is.distinct, kept)
