-- ===== src/Queue/Enqueue.antt =====
-- The second step of `enqueue_inner` of src/queue.rs, and both together.
use mathlib.Core.Path.{subst₂}
use async_selector.Base.{
  init, init-last, append_assoc, ◌⊎◌, ℕ, ◌≡◌, refl, sym, ◌∙◌, ap, subst, Bool, inl, inr, true,
  false, Option, none, some, List, [], ◌∷◌, ◌++◌, arith, first, last, has, has-last, has_here,
  update, update_self, fun_ext,
}
use async_selector.Memory.{Addr, null, Mem, Queue, Live}
use async_selector.Queue.{AtomicWaker, Receiver, link, enqueue_inner}
use async_selector.Queue.Order.{IsQueue, KeepsNodes}
use async_selector.Queue.Chain.{Chain-link}
use async_selector.Queue.Publish.{
  settled_filled, gap-mem_filled, published, MayPublish, publish-run, publish-IsQueue,
}

abbrev pub woken_also : Option ℕ → List ℕ → List ℕ
woken_also o woken = elim o [ none ↦ woken | some w ↦ w ∷ woken ]

has-woken_also :
    (w : ℕ) (o : Option ℕ) (woken : List ℕ) → has w woken ≡ true → has w (woken_also o woken) ≡ true
has-woken_also w none woken i = i
has-woken_also w (some v) woken i = ground arith

module _ {T C : Type 0} ⦃aw : AtomicWaker C⦄ where
  -- The waker `w` is stored in the queue `queue`.
  abbrev pub Stored : Mem T C → (queue : Addr) → ℕ → Type 0
  Stored m queue w = (q : Queue C) × (m.queues queue ≡ some q) × ((aw.take q.waker).1 ≡ some w)

  -- The waker `w` is stored in the queue `queue`, or was woken already.
  abbrev pub Alert : Mem T C → (queue : Addr) → ℕ → Type 0
  Alert m queue w = Stored m queue w ⊎ (has w m.woken ≡ true)

  -- The order is one that needs no wakeup, or the waker `w` was woken.
  abbrev pub Rings : Mem T C → ℕ → (Quiet : List Addr → Type 0) → (order : List Addr) → Type 0
  Rings m w Quiet order = Quiet order ⊎ (has w m.woken ≡ true)

  -- Later the order is the same, or the waker was woken.
  pub Rings-then :
      (m m' : Mem T C) {order order' : List Addr} (w : ℕ) (Quiet : List Addr → Type 0)
      → (has w m.woken ≡ true → has w m'.woken ≡ true)
      → Rings m' w (λ o. o ≡ order) order'
      → Rings m w Quiet order
      → Rings m' w Quiet order'
  Rings-then m m' w Quiet louder (inl same) (inl quiet) = inl (subst Quiet (sym same) quiet)
  Rings-then m m' w Quiet louder (inl same) (inr woken) = inr (louder woken)
  Rings-then m m' w Quiet louder (inr woken) rings = inr woken

module _ {T C : Type 0} ⦃aw : AtomicWaker C⦄ (m : Mem T C) (r : Receiver) (stub : Addr)
    (gap : Addr → Bool) where
  abbrev pub woken_by : C → List ℕ → List ℕ
  woken_by waker woken = woken_also ((aw.take waker).1) woken

  -- The memory after the second step, when the order is `order`.
  abbrev pub linked : C → List Addr → (a b : Addr) → Mem T C
  linked waker order a b = record m {
    next_enqueued = update m.next_enqueued a b;
    queues = update m.queues r.queue (
        some (record {
          waker = (aw.take waker).0;
          head = last order null;
          tail = first order null;
          stub = stub;
        }));
    woken = woken_by waker m.woken;
  }

  pub link-run :
      (order : List Addr) (a b : Addr) (is : IsQueue m r stub gap order)
      → Live m.strong a
      → link r.queue a b m ≡ some (tt, linked is.waker order a b)
  unfolding link
  link-run order a b is live = simp (live, is.found)

  -- The second step closes the gap.
  pub link-IsQueue :
      (us vs : List Addr) (a b : Addr) (is : IsQueue m r stub gap (us ++ a ∷ b ∷ vs))
      → IsQueue
          (linked is.waker (us ++ a ∷ b ∷ vs) a b)
          r
          stub
          (update gap a false)
          (us ++ a ∷ b ∷ vs)
  link-IsQueue us vs a b is = record {
    waker = (aw.take is.waker).0;
    found = update_self m.queues r.queue _;
    chain = Chain-link m.next_enqueued gap us vs a b is.distinct is.chain;
    settled = settled_filled gap a _ is.settled;
    gaps = λ c i. gap-mem_filled gap (us ++ a ∷ b ∷ vs) a c (is.gaps c) i;
    distinct = is.distinct;
    live = is.live;
    stub_live = is.stub_live;
    filled = is.filled;
    owned = is.owned;
    marked = is.marked;
    behind = is.behind;
  }

  pub waker-eq :
      (order : List Addr) (is : IsQueue m r stub gap order) (q : Queue C)
      → m.queues r.queue ≡ some q
      → is.waker ≡ q.waker
  waker-eq order is q found = ap waker_of (sym is.found ∙ found)
    where
      waker_of : Option (Queue C) → C
      waker_of none = is.waker
      waker_of (some s) = s.waker

  has-woken_by :
      (order : List Addr) (is : IsQueue m r stub gap order) (w : ℕ)
      → Alert m r.queue w
      → has w (woken_by is.waker m.woken) ≡ true
  has-woken_by order is w (inl (q, found, stored)) =
      subst (λ (o : Option ℕ). has w (woken_also o m.woken) ≡ true)
        (sym (ap (λ c. (aw.take c).1) (waker-eq order is q found) ∙ stored)) (has_here w m.woken)
  has-woken_by order is w (inr old) = has-woken_also w ((aw.take is.waker).1) m.woken old

  Alert-published :
      (order : List Addr) (is : IsQueue m r stub gap order) (node : Addr) (w : ℕ)
      → Alert m r.queue w
      → Alert (published m r stub gap order is.waker node) r.queue w
  Alert-published order is node w (inl (q, found, stored)) = inl (
    _,
    update_self m.queues r.queue _,
    ap (λ c. (aw.take c).1) (waker-eq order is q found) ∙ stored,
  )
  Alert-published order is node w (inr old) = inr old

  -- Closing the gap that was opened gives the gaps back.
  gap-restored : (b : Addr) → gap b ≡ false → update (update gap b true) b false ≡ gap
  gap-restored b h = fun_ext λ a. ground arith

module _ {T C : Type 0} ⦃aw : AtomicWaker C⦄ where
  -- What `enqueue_inner` does beside the order: the links of the list stay, and the stored waker is
  -- woken.
  pub record Enqueued (m m' : Mem T C) (queue : Addr) : Type 0 where
    pub keeps : KeepsNodes m m'
    pub flags : m'.is_enqueued ≡ m.is_enqueued
    pub woken : (w : ℕ) → Alert m queue w → has w m'.woken ≡ true

  both_steps :
      (m : Mem T C) (r : Receiver) (stub : Addr) (gap : Addr → Bool) (x : Addr) (xs : List Addr)
      (node : Addr)
      → IsQueue m r stub gap (x ∷ xs)
      → MayPublish m r stub gap (x ∷ xs) node
      → (m' : Mem T C) × (enqueue_inner r.queue node m ≡ some (tt, m'))
        × IsQueue m' r stub gap (x ∷ xs ++ node ∷ [])
        × Enqueued m m' r.queue
  unfolding enqueue_inner
  both_steps m r stub gap x xs node is may =
      let mid = published m r stub gap (x ∷ xs) is.waker node in
      let a = last xs x in
      let half = publish-IsQueue m r stub gap (x ∷ xs) node is may in
      let shape : x ∷ xs ++ node ∷ [] ≡ init (x ∷ xs) ++ a ∷ node ∷ [] =
        ap (λ ys. ys ++ node ∷ []) (init-last x xs)
        ∙ append_assoc (init (x ∷ xs)) (a ∷ []) (node ∷ []) in
      let half' = subst (IsQueue mid r stub (update gap a true)) shape half in
      (
        linked mid r stub (update gap a true) half'.waker (init (x ∷ xs) ++ a ∷ node ∷ []) a node,
        simp (
          publish-run m r stub gap (x ∷ xs) node is may,
          link-run mid r stub (update gap a true) (init (x ∷ xs) ++ a ∷ node ∷ []) a node half'
              (is.live a (has-last x xs)),
        ),
        subst₂ (IsQueue _ r stub) (gap-restored m r stub gap a is.settled) (sym shape)
            (link-IsQueue mid r stub (update gap a true) (init (x ∷ xs)) [] a node half'),
        record {
          keeps = record { strong = refl; queue = refl; next = refl; prev = refl; value = refl };
          flags = refl;
          woken = λ w alert.
              has-woken_by mid r stub (update gap a true) _ half' w
                (Alert-published m r stub gap (x ∷ xs) is node w alert);
        },
      )

  -- For a well-formed queue and a node of it that is allocated, not in the queue and has its flag
  -- set, `enqueue_inner` does not fault and leaves the queue well-formed with the node at the end.
  -- The flags, the strong counts and the list stay, and a waker that was stored in the queue or
  -- woken before is woken.
  pub enqueue_inner-IsQueue :
      (m : Mem T C) (r : Receiver) (stub : Addr) (gap : Addr → Bool) (order : List Addr)
      (node : Addr)
      → IsQueue m r stub gap order
      → MayPublish m r stub gap order node
      → (m' : Mem T C) × (enqueue_inner r.queue node m ≡ some (tt, m'))
        × IsQueue m' r stub gap (order ++ node ∷ [])
        × Enqueued m m' r.queue
  enqueue_inner-IsQueue m r stub gap [] node is may = absurd (is.filled refl)
  enqueue_inner-IsQueue m r stub gap (x ∷ xs) node is may = both_steps m r stub gap x xs node is may
