-- ===== src/Selector/Lent.antt =====
-- The steps of a round of `poll_next` (src/selector.rs) that use a handle of the loop.
use mathlib.Core.Path.{subst₂}
use async_selector.Base.{
  ℕ, ◌+◌, ◌-◌, ◌<◌, ◌≡◌, sym, ◌∙◌, ap, subst, Bool, true, Option, some, List, [], ◌∷◌, ◌++◌, arith,
  if◌then◌else◌, has, update,
}
use async_selector.Memory.{Addr, Mem, drop_arc}
use async_selector.Queue.{AtomicWaker, Receiver, enqueue}
use async_selector.Queue.Enqueue.{Alert, Rings, Rings-then}
use async_selector.Queue.Wake.{Wakes-Rings}
use async_selector.NodeList.{NodeList, remove_now}
use async_selector.NodeList.Unlink.{unlinked}
use async_selector.Selector.{Selector}
use async_selector.Selector.Invariant.{IsSelector}
use async_selector.Selector.Wake.{enqueue-IsSelector}
use async_selector.Selector.Events.{woken_order-eq}
use async_selector.Selector.Careful.{lend}
use async_selector.Selector.Hands.{lend-less, drop_lent, held-IsMember}
use async_selector.Selector.Guard.{IsWithout, remove_now-IsSelector}
use async_selector.Selector.Kept.{Busy, IsOwn-here, Alert-here}

module _ {T S C : Type 0} ⦃aw : AtomicWaker C⦄ (owner : Addr → Addr) (queue stub : Addr)
    (gap : Addr → Bool) (World : (Addr → ℕ) → S → (Addr → Option T) → Type 0) (w : ℕ)
    (Quiet : List Addr → Type 0) where
  module _ (r : Receiver) (node : Addr) where
    -- `Queue::enqueue` takes the handle of the loop.
    pub enqueued-Busy :
        (m : Mem T C) (s : Selector S) (ext : Addr → ℕ) (tasks order : List Addr)
        → Busy owner queue stub gap World w Quiet m s r ext tasks order node 1
        → (m' : Mem T C) × (added : List Addr) × (enqueue s.queue.queue node m ≡ some (tt, m'))
          × Busy owner queue stub gap World w Quiet m' s r ext tasks (order ++ added) node 0
          × (m'.value ≡ m.value)
    enqueued-Busy m s ext tasks order busy =
        let lent : 0 < ext node + lend node 1 node = ground arith in
        let own = IsOwn-here owner queue stub gap World w Quiet r node m s ext tasks order 1 busy in
        let member =
          held-IsMember m s stub gap (λ a. ext a + lend node 1 a) tasks order node busy.selector own
            (omega (arith, lent)) in
        let (m', run, is, done) =
          enqueue-IsSelector m s stub gap (λ a. ext a + lend node 1 a) tasks order busy.selector
            node member lent in
        (
          m',
          (if m.is_enqueued node then [] else node ∷ []),
          run,
          record {
            selector =
                subst₂ (λ f xs. IsSelector m' s stub gap f tasks xs) (lend-less ext node 0)
                  (woken_order-eq order node (m.is_enqueued node)) is;
            world = subst (World ext s.strategy) (sym done.value) busy.world;
            owner_kept = done.owner ∙ busy.owner_kept;
            queue_kept = busy.queue_kept;
            queue_here = busy.queue_here;
            own = busy.own;
            task = busy.task;
            filled = ap (λ f. f node) done.value ∙ busy.filled;
            alert =
                subst (λ q. Alert m' q w) busy.queue_here
                  (done.alert w (
                    Alert-here owner queue stub gap World w Quiet r node m s ext tasks order 1
                      busy));
            rings = subst (Rings m' w Quiet) (woken_order-eq order node (m.is_enqueued node)) (
                Rings-then m m' w Quiet (done.louder w)
                  (Wakes-Rings order w done (
                    Alert-here owner queue stub gap World w Quiet r node m s ext tasks order 1
                      busy))
                  busy.rings);
          },
          done.value,
        )

    -- `AccessGuard::remove_now`: the list's handle is lent too.
    pub removed-Busy :
        (m : Mem T C) (s : Selector S) (ext : Addr → ℕ) (tasks order : List Addr)
        → has node tasks ≡ true
        → Busy owner queue stub gap World w Quiet m s r ext tasks order node 1
        → (l : NodeList) × (rest : List Addr) × (remove_now
              (record { list = s.list; node = node })
              m
            ≡ some ((node, l), unlinked m node))
          × Busy owner queue stub gap World w Quiet
              (unlinked m node)
              (record s { list = l })
              r
              ext
              rest
              order
              node
              2
          × IsWithout node tasks rest
    removed-Busy m s ext tasks order listed busy =
        let (l, rest, run, is, without) =
          remove_now-IsSelector m s stub gap ext tasks order node 1 busy.selector listed in
        (
          l,
          rest,
          run,
          record {
            selector = is;
            world = busy.world;
            owner_kept = busy.owner_kept;
            queue_kept = busy.queue_kept;
            queue_here = busy.queue_here;
            own = busy.own;
            task = busy.task;
            filled = busy.filled;
            alert = busy.alert;
            rings = busy.rings;
          },
          without,
        )

    -- The drop of a handle of the loop.
    pub dropped_arc-Busy :
        (m : Mem T C) (s : Selector S) (ext : Addr → ℕ) (tasks order : List Addr) (n : ℕ)
        → Busy owner queue stub gap World w Quiet m s r ext tasks order node (n + 1)
        → (drop_arc node m
            ≡ some (tt, record m { strong = update m.strong node (m.strong node - 1) }))
          × Busy owner queue stub gap World w Quiet
              (record m { strong = update m.strong node (m.strong node - 1) })
              s
              r
              ext
              tasks
              order
              node
              n
    dropped_arc-Busy m s ext tasks order n busy =
        let (run, is) =
          drop_lent m s stub gap ext tasks order node n busy.selector (
            IsOwn-here owner queue stub gap World w Quiet r node m s ext tasks order (n + 1)
              busy) in
        (
          run,
          record {
            selector = is;
            world = busy.world;
            owner_kept = busy.owner_kept;
            queue_kept = busy.queue_kept;
            queue_here = busy.queue_here;
            own = busy.own;
            task = busy.task;
            filled = busy.filled;
            alert = busy.alert;
            rings = busy.rings;
          },
        )
