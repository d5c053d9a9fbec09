-- ===== src/Selector/Wake.antt =====
-- Wakeups of the nodes of a selector of src/selector.rs, by the functions of src/queue.rs.
use native.Mathlib.Decide.{ℕ_discrete}
use async_selector.Base.{
  ℕ, ◌+◌, ◌-◌, ◌<◌, ◌≡◌, refl, sym, ◌∙◌, ap, subst, Bool, true, false, some, List, [], ◌∷◌, ◌++◌,
  arith, if◌then◌else◌, has, has-append, update,
}
use async_selector.Memory.{Addr, Mem, is_live, Live}
use async_selector.Queue.{AtomicWaker, enqueue, enqueue_by_ref}
use async_selector.Queue.Order.{IsQueue}
use async_selector.Queue.Wake.{Wakes, enqueue_by_ref-IsQueue, enqueue-IsQueue}
use async_selector.Queue.Flag.{IsMember, woken_order, not-mem_of_unmarked}
use async_selector.NodeList.Invariant.{IsList-transfer}
use async_selector.Selector.{Selector}
use async_selector.Selector.Invariant.{IsSelector, share, share_of_mem}

-- What a wakeup does to the owners of each node, as far as they are counted.
counted_by_ref :
    (m_strong : Addr → ℕ) (tasks order : List Addr) (ext : Addr → ℕ) (id a : Addr) (b : Bool)
    → (b ≡ false → has id order ≡ false)
    → m_strong a ≡ share a tasks + share a order + ext a
    → (if b then m_strong else update m_strong id (m_strong id + 1)) a
      ≡ share a tasks + share a (if b then order else order ++ id ∷ []) + ext a
counted_by_ref strong tasks order ext id a true out h = h
counted_by_ref strong tasks order ext id a false out h = elim (ℕ_discrete a id) [
  | yes e ↦ ground (arith, out refl, has-append a order (id ∷ []))
  | no ne ↦ ground (arith, has-append a order (id ∷ []))
]

pub Live-woken :
    (strong : Addr → ℕ) (id a : Addr) (b : Bool)
    → Live strong a
    → Live (if b then strong else update strong id (strong id + 1)) a
unfolding is_live
Live-woken strong id a true h = h
Live-woken strong id a false h = ground arith

Live-before :
    (strong : Addr → ℕ) (id a : Addr) (b : Bool)
    → Live strong id
    → Live (if b then strong else update strong id (strong id + 1)) a
    → Live strong a
unfolding is_live
Live-before strong id a true live h = h
Live-before strong id a false live h = ground arith

-- A node whose flag is set after a wakeup is in the queue.
awake-woken :
    (flags : Addr → Bool) (order : List Addr) (id a : Addr) (b : Bool)
    → flags id ≡ b
    → (flags a ≡ true → has a order ≡ true)
    → update flags id true a ≡ true
    → has a (if b then order else order ++ id ∷ []) ≡ true
awake-woken flags order id a true e h on = ground arith
awake-woken flags order id a false e h on = ground (arith, has-append a order (id ∷ []))

-- The same for a handle that the queue takes over, or that is dropped.
counted_owned :
    (strong : Addr → ℕ) (tasks order : List Addr) (ext : Addr → ℕ) (id a : Addr) (b : Bool)
    → 0 < ext id
    → (b ≡ false → has id order ≡ false)
    → strong a ≡ share a tasks + share a order + ext a
    → (if b then update strong id (strong id - 1) else strong) a
      ≡ share a tasks
        + share a (if b then order else order ++ id ∷ [])
        + update ext id (ext id - 1) a
counted_owned strong tasks order ext id a true held out h = elim (ℕ_discrete a id) [
  | yes e ↦ ground arith
  | no ne ↦ ground arith
]
counted_owned strong tasks order ext id a false held out h = elim (ℕ_discrete a id) [
  | yes e ↦ ground (arith, out refl, has-append a order (id ∷ []))
  | no ne ↦ ground (arith, has-append a order (id ∷ []))
]

Live-owned :
    (strong : Addr → ℕ) (tasks : List Addr) (id a : Addr) (b : Bool)
    → (has id tasks ≡ true → 1 < strong id)
    → has a tasks ≡ true
    → Live strong a
    → Live (if b then update strong id (strong id - 1) else strong) a
unfolding is_live
Live-owned strong tasks id a true shared i h = ground arith
Live-owned strong tasks id a false shared i h = h

Live-before_owned :
    (strong : Addr → ℕ) (id a : Addr) (b : Bool)
    → Live (if b then update strong id (strong id - 1) else strong) a
    → Live strong a
unfolding is_live
Live-before_owned strong id a true h = ground arith
Live-before_owned strong id a false h = h

module _ {T S C : Type 0} ⦃aw : AtomicWaker C⦄ (m : Mem T C) (s : Selector S) (stub : Addr)
    (gap : Addr → Bool) (ext : Addr → ℕ) (tasks order : List Addr)
    (is : IsSelector m s stub gap ext tasks order) (id : Addr)
    (member : IsMember m s.queue stub id) where
  -- The selector after a wakeup that leaves the right counts.
  Wakes-IsSelector :
      (m' : Mem T C) (strong : Addr → ℕ) (ext' : Addr → ℕ)
      → Wakes m m' s.queue.queue id strong
      → IsQueue m' s.queue stub gap (woken_order m order id)
      → ((a : Addr) → has a tasks ≡ true → Live m.strong a → Live strong a)
      → ((a : Addr) → Live strong a → Live m.strong a)
      → ((a : Addr)
          → m.strong a ≡ share a tasks + share a order + ext a
          → strong a ≡ share a tasks + share a (woken_order m order id) + ext' a)
      → IsSelector m' s stub gap ext' tasks (woken_order m order id)
  Wakes-IsSelector m' strong ext' done queue live before counted = record {
    list =
        IsList-transfer m m' s.list tasks (λ a i. ap (λ f. f a) done.next)
          (λ a i. ap (λ f. f a) done.prev)
          (λ a i h. subst (λ f. Live f a) (sym done.counts) (live a i h))
          (λ a i.
            subst (λ o. (v : T) × (o ≡ some v)) (sym (ap (λ f. f a) done.value))
              (is.list.valued a i))
          is.list;
    queue = queue;
    owned = λ a i. ap (λ f. f a) done.owner ∙ is.owned a i;
    real = is.real;
    counted = λ a real own.
        ap (λ f. f a) done.counts
        ∙ counted a (is.counted a real (sym (ap (λ f. f a) done.owner) ∙ own));
    unlinked = λ a real own h gone.
        ap (λ f. f a) done.next
        ∙ is.unlinked a real (sym (ap (λ f. f a) done.owner) ∙ own)
            (before a (subst (λ f. Live f a) done.counts h)) gone;
    awake = λ a i on.
        awake-woken m.is_enqueued order id a (m.is_enqueued id) refl (is.awake a i)
          (sym (ap (λ f. f a) done.flags) ∙ on);
  }

  pub wake-IsSelector :
      (m' : Mem T C) × (enqueue_by_ref id m ≡ some (tt, m'))
      × IsSelector m' s stub gap ext tasks (woken_order m order id)
      × Wakes m m' s.queue.queue id
          (if m.is_enqueued id then m.strong else update m.strong id (m.strong id + 1))
  wake-IsSelector =
      let (m', run, queue, done) =
        enqueue_by_ref-IsQueue m s.queue stub gap order id is.queue member in
      let out = not-mem_of_unmarked m s.queue stub gap order id is.queue member in
      (
        m',
        run,
        Wakes-IsSelector m' _ ext done queue
            (λ a i h. Live-woken m.strong id a (m.is_enqueued id) h)
            (λ a h. Live-before m.strong id a (m.is_enqueued id) member.live h)
            (λ a h. counted_by_ref m.strong tasks order ext id a (m.is_enqueued id) out h),
        done,
      )

  -- The owner of a handle gives it away.
  abbrev pub less : Addr → ℕ
  less = update ext id (ext id - 1)

  pub enqueue-IsSelector :
      0 < ext id
      → (m' : Mem T C) × (enqueue s.queue.queue id m ≡ some (tt, m'))
        × IsSelector m' s stub gap less tasks (woken_order m order id)
        × Wakes m m' s.queue.queue id
            (if m.is_enqueued id then update m.strong id (m.strong id - 1) else m.strong)
  enqueue-IsSelector held =
      let count = is.counted id member.real member.owned in
      let (m', run, queue, done) =
        enqueue-IsQueue m s.queue stub gap order id is.queue member
          (λ i. omega (arith, count, share_of_mem id order i, held)) in
      let out = not-mem_of_unmarked m s.queue stub gap order id is.queue member in
      (
        m',
        run,
        Wakes-IsSelector m' _ less done queue
            (λ a i h.
              Live-owned m.strong tasks id a (m.is_enqueued id)
                (λ j. omega (arith, count, share_of_mem id tasks j, held)) i h)
            (λ a h. Live-before_owned m.strong id a (m.is_enqueued id) h)
            (λ a h. counted_owned m.strong tasks order ext id a (m.is_enqueued id) held out h),
        done,
      )
