-- ===== src/Queue/Wake.antt =====
-- The three ways into the queue of src/queue.rs: `Queue::enqueue`, `Node::enqueue` and
-- `Node::enqueue_by_ref`. A node whose flag is set already is left where it is.
use mathlib.Core.Bool.{false≢true}
use async_selector.Base.{
  ap, ◌≡◌, refl, sym, ◌∙◌, Bool, true, false, some, List, [], ◌∷◌, ◌++◌, if◌then◌else◌, has, update,
  inl, inr, ◌+◌, ◌-◌, ◌<◌, ℕ, Bool-cases,
}
use async_selector.Memory.{Addr, Mem, clone_arc, drop_arc}
use async_selector.Queue.{AtomicWaker, Receiver, enqueue, enqueue_by_ref, enqueue_node}
use async_selector.Queue.Order.{IsQueue}
use async_selector.Queue.Enqueue.{Alert, Rings, Enqueued, enqueue_inner-IsQueue}
use async_selector.Queue.Flag.{
  IsMember, woken_order, flagged, flagged-IsQueue, cloned, dropped, cloned-IsQueue,
  cloned-MayPublish, flagged-MayPublish, Live-dropped_of, Live-dropped_ne,
}

-- If the flag of the node was set, neither the queues, with their wakers, nor the links nor the woken
-- wakers change.
abbrev pub Quiet : {T C : Type 0} → (was_set : Bool) → (m m' : Mem T C) → Type 0
Quiet false m m' = Unit
Quiet true m m' =
    (m'.queues ≡ m.queues) × (m'.next_enqueued ≡ m.next_enqueued) × (m'.woken ≡ m.woken)

module _ {T C : Type 0} ⦃aw : AtomicWaker C⦄ where
  -- A wakeup of `node`, with the strong counts that it leaves.
  pub record Wakes (m m' : Mem T C) (queue node : Addr) (strong : Addr → ℕ) : Type 0 where
    pub counts : m'.strong ≡ strong
    pub flags : m'.is_enqueued ≡ update m.is_enqueued node true
    pub owner : m'.queue ≡ m.queue
    pub next : m'.next ≡ m.next
    pub prev : m'.prev ≡ m.prev
    pub value : m'.value ≡ m.value
    pub alert : (w : ℕ) → Alert m queue w → Alert m' queue w
    pub louder : (w : ℕ) → has w m.woken ≡ true → has w m'.woken ≡ true
    pub quiet : Quiet (m.is_enqueued node) m m'
    pub woken : m.is_enqueued node ≡ false → (w : ℕ) → Alert m queue w → has w m'.woken ≡ true

  Enqueued-Wakes :
      (m m' : Mem T C) (r : Receiver) (node : Addr) (strong : Addr → ℕ)
      → m.is_enqueued node ≡ false
      → Enqueued
          (record m { is_enqueued = update m.is_enqueued node true; strong = strong })
          m'
          r.queue
      → Wakes m m' r.queue node strong
  Enqueued-Wakes m m' r node strong unset done = record {
    counts = done.keeps.strong;
    flags = done.flags;
    owner = done.keeps.queue;
    next = done.keeps.next;
    prev = done.keeps.prev;
    value = done.keeps.value;
    alert = λ w h. inr (done.woken w h);
    louder = λ w h. done.woken w (inr h);
    quiet = rw unset tt;
    woken = λ n w h. done.woken w h;
  }

  -- A wakeup leaves the order as it is, or wakes the waker.
  pub Wakes-Rings :
      {m m' : Mem T C} {queue node : Addr} {strong : Addr → ℕ} (order : List Addr) (w : ℕ)
      → Wakes m m' queue node strong
      → Alert m queue w
      → Rings m' w (λ o. o ≡ order) (woken_order m order node)
  Wakes-Rings {m} {m'} {queue} {node} order w done alert = elim (Bool-cases (m.is_enqueued node)) [
    | inl e ↦ inl (ap (λ b. if b then order else order ++ node ∷ []) e)
    | inr e ↦ inr (done.woken e w alert)
  ]

  module _ (m : Mem T C) (r : Receiver) (stub : Addr) (gap : Addr → Bool) (order : List Addr)
      (node : Addr) (is : IsQueue m r stub gap order) (member : IsMember m r stub node) where
    -- For an allocated node of a well-formed queue, `enqueue_by_ref` does not fault and leaves the
    -- queue well-formed. If the flag was set nothing changes, neither the stored waker nor the
    -- woken ones; otherwise the flag is set, the node stands at the end of the queue and has one
    -- more owner, and a waker that was stored is woken.
    pub enqueue_by_ref-IsQueue :
        (m' : Mem T C) × (enqueue_by_ref node m ≡ some (tt, m'))
        × IsQueue m' r stub gap (woken_order m order node)
        × Wakes m m' r.queue node
            (if m.is_enqueued node then m.strong else update m.strong node (m.strong node + 1))
    unfolding enqueue_by_ref clone_arc
    enqueue_by_ref-IsQueue = elim (Bool-cases (m.is_enqueued node)) [
      | inl e ↦ rw e (
        flagged m node,
        simp member.live,
        flagged-IsQueue m r stub gap order node is member,
        record {
          counts = refl;
          flags = refl;
          owner = refl;
          next = refl;
          prev = refl;
          value = refl;
          alert = λ w h. h;
          louder = λ w h. h;
          quiet = rw e (refl, refl, refl);
          woken = λ n. absurd (false≢true (sym n ∙ e));
        },
      )
      | inr e ↦
          let (m', run, is', done) =
            enqueue_inner-IsQueue (cloned m node) r stub gap order node
              (cloned-IsQueue m r stub gap order node is member)
              (cloned-MayPublish m r stub gap order node is member e) in
          rw e (
            m',
            simp (member.live, member.owned, is.found, member.live, run),
            is',
            Enqueued-Wakes m m' r node (update m.strong node (m.strong node + 1)) e done,
          )
    ]

    dropped-IsQueue :
        (has node order ≡ true → 1 < m.strong node) → IsQueue (dropped m node) r stub gap order
    dropped-IsQueue shared =
        let flagged-is = flagged-IsQueue m r stub gap order node is member in
        record {
          waker = flagged-is.waker;
          found = flagged-is.found;
          chain = flagged-is.chain;
          settled = flagged-is.settled;
          gaps = flagged-is.gaps;
          distinct = flagged-is.distinct;
          live = λ a i. Live-dropped_of m.strong order node a shared i (flagged-is.live a i);
          stub_live =
              Live-dropped_ne m.strong node stub (λ e. member.real (sym e)) flagged-is.stub_live;
          filled = flagged-is.filled;
          owned = flagged-is.owned;
          marked = flagged-is.marked;
          behind = flagged-is.behind;
        }

    -- For an allocated node of a well-formed queue, with at least two owners if it is in the queue,
    -- `Queue::enqueue` does not fault and leaves the queue well-formed. If the flag was set the
    -- handle that was passed is dropped and the order stays; otherwise the flag is set, the node
    -- stands at the end of the queue, the strong counts stay, and a waker that was stored is woken.
    pub enqueue-IsQueue :
        (has node order ≡ true → 1 < m.strong node)
        → (m' : Mem T C) × (enqueue r.queue node m ≡ some (tt, m'))
          × IsQueue m' r stub gap (woken_order m order node)
          × Wakes m m' r.queue node
              (if m.is_enqueued node then update m.strong node (m.strong node - 1) else m.strong)
    unfolding enqueue drop_arc
    enqueue-IsQueue shared = elim (Bool-cases (m.is_enqueued node)) [
      | inl e ↦ rw e (
        dropped m node,
        simp member.live,
        dropped-IsQueue shared,
        record {
          counts = refl;
          flags = refl;
          owner = refl;
          next = refl;
          prev = refl;
          value = refl;
          alert = λ w h. h;
          louder = λ w h. h;
          quiet = rw e (refl, refl, refl);
          woken = λ n. absurd (false≢true (sym n ∙ e));
        },
      )
      | inr e ↦
          let (m', run, is', done) =
            enqueue_inner-IsQueue (flagged m node) r stub gap order node
              (flagged-IsQueue m r stub gap order node is member)
              (flagged-MayPublish m r stub gap order node is member e) in
          rw e (m', simp (member.live, run), is', Enqueued-Wakes m m' r node m.strong e done)
    ]

    -- For an allocated node of a well-formed queue, `Node::enqueue`, which looks the queue up, is
    -- the same function on the memory as `Queue::enqueue` with that queue.
    pub enqueue_node-eq : enqueue_node node m ≡ enqueue r.queue node m
    unfolding enqueue enqueue_node
    enqueue_node-eq = elim (Bool-cases (m.is_enqueued node)) [
      | inl e ↦ simp (member.live, e)
      | inr e ↦ simp (member.live, e, member.owned, is.found)
    ]
