-- ===== src/Selector/Kept.antt =====
-- The states that `poll_next` of src/selector.rs passes through: well-formed, with the user's
-- invariant, and with some handles of one node lent to the calls.
use mathlib.Core.Path.{subst₂}
use async_selector.Base.{
  ℕ, ◌+◌, ◌≡◌, sym, ◌∙◌, ap, subst, Bool, Option, some, List, ◌++◌, update, update_self,
}
use async_selector.Memory.{Addr, Mem, Live}
use async_selector.Queue.{AtomicWaker, Receiver}
use async_selector.Queue.Enqueue.{Alert, Rings, Rings-then}
use async_selector.Selector.{Selector}
use async_selector.Selector.Invariant.{IsSelector}
use async_selector.Selector.Permits.{Permitted, handles_after}
use async_selector.Selector.Careful.{lend, IsOwn, Fits, after_call-IsSelector}
use async_selector.Selector.Hands.{lend-none}
use async_selector.Selector.Poll.{Round, no_node, skip, go_on, output, unwound, after_call}
use async_selector.Task.{Task, Called}

-- How a round with a task may end: its loop goes on unless the node was the last one.
abbrev pub Ends : {Output : Type 0} → (is_last : Bool) → Round Output → Type 0
Ends is_last no_node = ⊥
Ends is_last (skip b) = b ≡ is_last
Ends is_last (go_on b) = b ≡ is_last
Ends is_last (output v) = Unit
Ends is_last unwound = Unit

module _ {T S C : Type 0} ⦃aw : AtomicWaker C⦄ (owner : Addr → Addr) (queue stub : Addr)
    (gap : Addr → Bool) (World : (Addr → ℕ) → S → (Addr → Option T) → Type 0) (w : ℕ)
    (Quiet : List Addr → Type 0) where
  -- A well-formed selector, and the user's invariant.
  pub record Kept (m : Mem T C) (s : Selector S) (r : Receiver) (ext : Addr → ℕ)
      (tasks order : List Addr) : Type 0 where
    pub selector : IsSelector m s stub gap ext tasks order
    pub world : World ext s.strategy m.value
    pub owner_kept : m.queue ≡ owner
    pub queue_kept : s.queue ≡ r
    -- The waker `w` is stored, or it was woken.
    pub alert : Alert m queue w
    pub rings : Rings m w Quiet order

  -- A run that ends in such a state. Nodes join the queue at its end only.
  abbrev pub Settles :
      {Output : Type 0}
      → Option ((Round Output × Selector S) × Mem T C)
      → Receiver
      → (order : List Addr)
      → (Round Output → Selector S → Mem T C → (Addr → ℕ) → List Addr → Type 0)
      → Type 0
  Settles {Output} run r order Done =
      (round : Round Output) × (s' : Selector S) × (m' : Mem T C) × (ext' : Addr → ℕ)
      × (tasks' : List Addr) × (added : List Addr) × (run ≡ some ((round, s'), m'))
      × Kept m' s' r ext' tasks' (order ++ added)
      × Done round s' m' ext' tasks'

  -- The state between the calls: the node `node` with `n` handles lent, and a task in it.
  pub record Busy (m : Mem T C) (s : Selector S) (r : Receiver) (ext : Addr → ℕ)
      (tasks order : List Addr) (node : Addr) (n : ℕ) : Type 0 where
    pub selector : IsSelector m s stub gap (λ a. ext a + lend node n a) tasks order
    pub world : World ext s.strategy m.value
    pub owner_kept : m.queue ≡ owner
    pub queue_kept : s.queue ≡ r
    pub queue_here : s.queue.queue ≡ queue
    pub own : IsOwn owner queue stub node
    pub task : T
    pub filled : m.value node ≡ some task
    pub alert : Alert m queue w
    pub rings : Rings m w Quiet order

  module _ (r : Receiver) (node : Addr) where
    pub IsOwn-here :
        (m : Mem T C) (s : Selector S) (ext : Addr → ℕ) (tasks order : List Addr) (n : ℕ)
        → Busy m s r ext tasks order node n
        → IsOwn m.queue s.queue.queue stub node
    IsOwn-here m s ext tasks order n busy = record {
      present = busy.own.present;
      real = busy.own.real;
      owned = ap (λ f. f node) busy.owner_kept ∙ busy.own.owned ∙ sym busy.queue_here;
    }

    pub Alert-here :
        (m : Mem T C) (s : Selector S) (ext : Addr → ℕ) (tasks order : List Addr) (n : ℕ)
        → Busy m s r ext tasks order node n
        → Alert m s.queue.queue w
    Alert-here m s ext tasks order n busy =
        subst (λ q. Alert m q w) (sym busy.queue_here) busy.alert

    -- Nothing is lent any more.
    pub Busy-Kept :
        (m : Mem T C) (s : Selector S) (ext : Addr → ℕ) (tasks order : List Addr)
        → Busy m s r ext tasks order node 0
        → Kept m s r ext tasks order
    Busy-Kept m s ext tasks order busy = record {
      selector =
          subst (λ f. IsSelector m s stub gap f tasks order) (lend-none ext node) busy.selector;
      world = busy.world;
      owner_kept = busy.owner_kept;
      queue_kept = busy.queue_kept;
      alert = busy.alert;
      rings = busy.rings;
    }

    -- A call of the task's code.
    pub call-Busy :
        {Cont Break Output A : Type 0} (t : Task T S Cont Break Output) (m : Mem T C)
        (s : Selector S) (ext : Addr → ℕ) (tasks order : List Addr) (n : ℕ) (c : Called T S A)
        → Live m.strong node
        → Busy m s r ext tasks order node n
        → Fits owner queue stub World tasks ext (lend node n) node m.value c
        → (m' : Mem T C) × (added : List Addr) × (after_call t s node c m
            ≡ some ((c.outcome, record s { strategy = c.strategy }), m'))
          × Busy m'
              (record s { strategy = c.strategy })
              r
              (handles_after ext c.events)
              tasks
              (order ++ added)
              node
              n
          × (m'.value ≡ update m.value node (some c.task))
    call-Busy t m s ext tasks order n c live busy fits =
        let may =
          subst₂ (λ f q. Permitted f q stub tasks ext (lend node n) c.events) (sym busy.owner_kept)
            (sym busy.queue_here) fits.permitted in
        let (m', added, run, is, ran) =
          after_call-IsSelector t s stub gap (lend node n) tasks m ext order node busy.task c
            busy.selector live busy.filled may in
        (
          m',
          added,
          run,
          record {
            selector = is;
            world =
                subst (World (handles_after ext c.events) c.strategy) (sym ran.value) fits.world;
            owner_kept = ran.owner ∙ busy.owner_kept;
            queue_kept = busy.queue_kept;
            queue_here = busy.queue_here;
            own = busy.own;
            task = c.task;
            filled = ap (λ f. f node) ran.value ∙ update_self m.value node (some c.task);
            alert =
                subst (λ q. Alert m' q w) busy.queue_here
                  (ran.alert w (Alert-here m s ext tasks order n busy));
            rings =
                Rings-then m m' w Quiet (ran.louder w)
                  (ran.rings w (Alert-here m s ext tasks order n busy)) busy.rings;
          },
          ran.value,
        )
