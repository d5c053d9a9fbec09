-- ===== src/Selector/Push.antt =====
-- `push` of src/selector.rs.
use native.Mathlib.Decide.{ℕ_discrete}
use async_selector.Base.{
  ℕ, ◌+◌, ◌-◌, ◌≡◌, ◌≢◌, refl, sym, ◌∙◌, ap, subst, Bool, Bool-cases, inl, inr, true, false, some,
  List, [], ◌∷◌, ◌++◌, arith, if◌then◌else◌, has, ne_of_has, update, update_self, update_ne,
  share-snoc_self, has-snoc_ne, has-snoc_self,
}
use async_selector.Memory.Fresh.{Live-ne, counted_twice, Live-update, Live-new}
use async_selector.Memory.{Addr, null, Mem, Live, Live-eq, clone_arc}
use async_selector.Queue.{AtomicWaker, create, enqueue}
use async_selector.Queue.Order.{IsQueue}
use async_selector.Queue.Transfer.{IsQueue-transfer}
use async_selector.Queue.Enqueue.{Alert}
use async_selector.Queue.Wake.{Wakes, enqueue-IsQueue}
use async_selector.Queue.Flag.{IsMember}
use async_selector.NodeList.{attach, push_back}
use async_selector.NodeList.Append.{appended, lengthened, attach-IsList, appended-next_ne}
use async_selector.NodeList.Invariant.{IsList, IsList-transfer}
use async_selector.Selector.{Selector, push}
use async_selector.Selector.Invariant.{IsSelector, share}

-- What the allocator promises of an address: it is not null, and nobody uses it.
pub record IsFresh {T C : Type 0} (m : Mem T C) (ext : Addr → ℕ) (fresh : Addr) : Type 0 where
  pub ne_null : fresh ≢ null
  pub unused : m.strong fresh ≡ 0
  pub unheld : ext fresh ≡ 0

module _ {T S C : Type 0} ⦃aw : AtomicWaker C⦄ (m : Mem T C) (s : Selector S) (stub : Addr)
    (gap : Addr → Bool) (ext : Addr → ℕ) (tasks order : List Addr)
    (is : IsSelector m s stub gap ext tasks order) (fresh : Addr) (v : T)
    (new : IsFresh m ext fresh) where
  -- The memory after `create`.
  made : Mem T C
  made = record m {
    strong = update m.strong fresh 1;
    queue = update m.queue fresh s.queue.queue;
    is_enqueued = update m.is_enqueued fresh false;
    next_enqueued = update m.next_enqueued fresh null;
    next = update m.next fresh null;
    prev = update m.prev fresh null;
    value = update m.value fresh (some v);
  }

  in_list : (a : Addr) → has a tasks ≡ true → a ≢ fresh
  in_list a i = Live-ne m.strong fresh a new.unused (is.list.live a i)

  in_queue : (a : Addr) → has a order ≡ true → a ≢ fresh
  in_queue a i = Live-ne m.strong fresh a new.unused (is.queue.live a i)

  made-IsList : IsList made s.list tasks
  unfolding made
  made-IsList =
      IsList-transfer m made s.list tasks (λ a i. update_ne m.next null (in_list a i))
        (λ a i. update_ne m.prev null (in_list a i))
        (λ a i h. Live-update m.strong fresh a 1 new.ne_null (omega arith) h)
        (λ a i.
          subst (λ o. (w : T) × (o ≡ some w)) (sym (update_ne m.value (some v) (in_list a i)))
            (is.list.valued a i))
        is.list

  made-IsQueue : IsQueue made s.queue stub gap order
  unfolding made
  made-IsQueue =
      IsQueue-transfer m made s.queue stub gap order refl
        (λ a i. update_ne m.next_enqueued null (in_queue a i))
        (λ a i. update_ne m.queue s.queue.queue (in_queue a i))
        (λ a h. Live-update m.strong fresh a 1 new.ne_null (omega arith) h)
        (λ a i e. update_ne m.is_enqueued false (in_queue a i) ∙ is.queue.marked a i e) is.queue

  out : has fresh tasks ≡ false
  out = elim (Bool-cases (has fresh tasks)) [ inl i ↦ absurd (in_list fresh i refl) | inr o ↦ o ]

  out_of_queue : has fresh order ≡ false
  out_of_queue = elim (Bool-cases (has fresh order)) [
    | inl i ↦ absurd (in_queue fresh i refl)
    | inr o ↦ o
  ]

  -- The memory after `attach`, and after the handle for the queue is made.
  joined : Mem T C
  unfolding made
  joined = appended made s.list fresh

  shared : Mem T C
  unfolding joined
  shared = record joined { strong = update made.strong fresh (made.strong fresh + 1) }

  two-owners : shared.strong fresh ≡ 2
  unfolding shared
  two-owners =
      update_self made.strong fresh (made.strong fresh + 1)
      ∙ ap (λ (n : ℕ). n + 1) (update_self m.strong fresh 1)

  joined-IsList :
      (attach s.list fresh made ≡ some (lengthened s.list fresh, joined))
      × IsList joined (lengthened s.list fresh) (tasks ++ fresh ∷ [])
  unfolding joined
  joined-IsList =
      attach-IsList made s.list tasks fresh made-IsList
        (Live-new m.strong fresh 1 new.ne_null (omega arith)) out
        (v, update_self m.value fresh (some v))

  made-Live : (a : Addr) → Live made.strong a → Live shared.strong a
  unfolding shared
  made-Live a h = Live-update (update m.strong fresh 1) fresh a _ new.ne_null (omega arith) h

  shared-IsQueue : IsQueue shared s.queue stub gap order
  unfolding shared
  shared-IsQueue =
      IsQueue-transfer made shared s.queue stub gap order refl (λ a i. refl) (λ a i. refl) made-Live
        made-IsQueue.marked made-IsQueue

  shared-IsMember : IsMember shared s.queue stub fresh
  unfolding shared
  shared-IsMember = record {
    live = made-Live fresh (Live-new m.strong fresh 1 new.ne_null (omega arith));
    real = λ e. Live-ne m.strong fresh stub new.unused is.queue.stub_live (sym e);
    owned = update_self m.queue fresh s.queue.queue;
  }

  push-run :
      (m' : Mem T C)
      → enqueue s.queue.queue fresh shared ≡ some (tt, m')
      → push fresh s v m ≡ some ((fresh, record s { list = lengthened s.list fresh }), m')
  unfolding push push_back create clone_arc shared
  push-run m' run =
      let attached = joined-IsList.0 in
      let live : Live made.strong fresh = Live-new m.strong fresh 1 new.ne_null (omega arith) in
      simp (attached, live, run)

  flag : shared.is_enqueued fresh ≡ false
  unfolding shared
  flag = update_self m.is_enqueued fresh false

  -- The new state, from what the wakeup of the new node leaves.
  module _ (m' : Mem T C) (done : Wakes shared m' s.queue.queue fresh shared.strong) where
    counted-push :
        (a : Addr)
        → a ≢ stub
        → m'.queue a ≡ s.queue.queue
        → m'.strong a ≡ share a (tasks ++ fresh ∷ []) + share a (order ++ fresh ∷ []) + ext a
    unfolding shared
    counted-push a real mine = elim (ℕ_discrete a fresh) [
      | yes e ↦ rw e (
          ap (λ f. f fresh) done.counts
          ∙ two-owners
          ∙ omega (
            arith,
            share-snoc_self fresh tasks out,
            share-snoc_self fresh order out_of_queue,
            new.unheld,
          ))
      | no ne ↦
          let own = sym (ap (λ f. f a) done.owner ∙ update_ne m.queue s.queue.queue ne) ∙ mine in
          let e₁ = has-snoc_ne a fresh tasks ne in
          let e₂ = has-snoc_ne a fresh order ne in
          rw (e₁, e₂)
            (ap (λ f. f a) done.counts
              ∙ update_ne made.strong _ ne
              ∙ update_ne m.strong 1 ne
              ∙ is.counted a real own)
    ]

    unlinked-push :
        (a : Addr)
        → a ≢ stub
        → m'.queue a ≡ s.queue.queue
        → Live m'.strong a
        → has a (tasks ++ fresh ∷ []) ≡ false
        → m'.next a ≡ null
    unfolding shared
    unlinked-push a real mine live gone =
        let ne : a ≢ fresh =
          λ e. ne_of_has (tasks ++ fresh ∷ []) (has-snoc_self fresh tasks) gone (sym e) in
        let gone' = sym (has-snoc_ne a fresh tasks ne) ∙ gone in
        let same =
          ap (λ f. f a) done.counts ∙ update_ne made.strong _ ne ∙ update_ne m.strong 1 ne in
        let own = sym (ap (λ f. f a) done.owner ∙ update_ne m.queue s.queue.queue ne) ∙ mine in
        ap (λ f. f a) done.next
        ∙ appended-next_ne made s.list tasks fresh a made-IsList ne gone'
        ∙ update_ne m.next null ne
        ∙ is.unlinked a real own (Live-eq m'.strong m.strong a (sym same) live) gone'

    awake-push :
        (a : Addr)
        → has a (tasks ++ fresh ∷ []) ≡ true
        → m'.is_enqueued a ≡ true
        → has a (order ++ fresh ∷ []) ≡ true
    unfolding shared
    awake-push a i on = elim (ℕ_discrete a fresh) [
      | yes e ↦ rw e (has-snoc_self fresh order)
      | no ne ↦
          has-snoc_ne a fresh order ne
          ∙ is.awake a (sym (has-snoc_ne a fresh tasks ne) ∙ i) (
              sym (
                ap (λ f. f a) done.flags
                ∙ update_ne shared.is_enqueued true ne
                ∙ update_ne m.is_enqueued false ne)
              ∙ on)
    ]

    owned-push : (a : Addr) → has a (tasks ++ fresh ∷ []) ≡ true → m'.queue a ≡ s.queue.queue
    unfolding shared
    owned-push a i = elim (ℕ_discrete a fresh) [
      | yes e ↦ rw e (ap (λ f. f fresh) done.owner ∙ update_self m.queue fresh s.queue.queue)
      | no ne ↦
          ap (λ f. f a) done.owner
          ∙ update_ne m.queue s.queue.queue ne
          ∙ is.owned a (sym (has-snoc_ne a fresh tasks ne) ∙ i)
    ]

    list-push : IsList m' (lengthened s.list fresh) (tasks ++ fresh ∷ [])
    unfolding shared
    list-push =
        IsList-transfer joined m' (lengthened s.list fresh) (tasks ++ fresh ∷ [])
          (λ a i. ap (λ f. f a) done.next) (λ a i. ap (λ f. f a) done.prev)
          (λ a i h. Live-eq shared.strong m'.strong a (ap (λ f. f a) done.counts) (made-Live a h))
          (λ a i.
            subst (λ o. (w : T) × (o ≡ some w)) (sym (ap (λ f. f a) done.value))
              (joined-IsList.1.valued a i))
          joined-IsList.1

  -- For a well-formed selector and a fresh address, `push` does not fault and leaves the selector
  -- well-formed, with the new task at the end of the list and its node at the end of the queue; the
  -- list and the queue are the only owners of the node, which holds the task. No other value and no
  -- other count of owners changes. Every waker that was stored in the queue or woken before is
  -- woken.
  pub push-IsSelector :
      (s' : Selector S) × (m' : Mem T C) × (push fresh s v m ≡ some ((fresh, s'), m'))
      × IsSelector m' s' stub gap ext (tasks ++ fresh ∷ []) (order ++ fresh ∷ [])
      × (m'.value ≡ update m.value fresh (some v))
      × (m'.strong ≡ update m.strong fresh 2)
      × ((w : ℕ) → Alert m s.queue.queue w → has w m'.woken ≡ true)
  unfolding shared
  push-IsSelector =
      let (m', run, queue, done) =
        enqueue-IsQueue shared s.queue stub gap order fresh shared-IsQueue shared-IsMember
          (λ i. omega (arith, two-owners)) in
      let same =
        ap (λ b. if b then update shared.strong fresh (shared.strong fresh - 1) else shared.strong)
          flag in
      let done' = subst (Wakes shared m' s.queue.queue fresh) same done in
      (
        record s { list = lengthened s.list fresh },
        m',
        push-run m' run,
        record {
          list = list-push m' done';
          queue =
              subst (IsQueue m' s.queue stub gap)
                (ap (λ b. if b then order else order ++ fresh ∷ []) flag) queue;
          owned = owned-push m' done';
          real =
              has-snoc_ne stub fresh tasks
                (λ e. Live-ne m.strong fresh stub new.unused is.queue.stub_live e)
              ∙ is.real;
          counted = counted-push m' done';
          unlinked = unlinked-push m' done';
          awake = awake-push m' done';
        },
        done.value,
        done'.counts ∙ counted_twice m.strong fresh,
        λ w alert. done.woken flag w alert,
      )
