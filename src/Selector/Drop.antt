-- ===== src/Selector/Drop.antt =====
-- The drop of a selector of src/selector.rs: its fields are dropped in the order of their declaration,
-- the queue of src/queue.rs and then the list of src/list.rs. And wakeups behind it.
use async_selector.Base.{
  ℕ, ◌+◌, ◌≡◌, ◌≢◌, refl, ◌∙◌, ap, Bool, true, false, none, some, List, ne_of_has, arith,
  if◌then◌else◌, has, length, update, update_self,
}
use async_selector.Memory.{Addr, Mem, is_live, Live, Cmd, pure, ◌>>◌}
use async_selector.Memory.Release.{released}
use async_selector.Queue.Drop.{drop_queue, drop_queue_lem}
use async_selector.NodeList.{NodeList, drop_list}
use async_selector.NodeList.Invariant.{IsList, IsList-transfer}
use async_selector.NodeList.Drop.{drop_list-IsList}
use async_selector.Selector.{Selector}
use async_selector.Selector.Invariant.{IsSelector, share}

released_twice :
    (strong released₁ : Addr → ℕ) (tasks order : List Addr) (ext : ℕ) (a : Addr)
    → strong a ≡ share a tasks + share a order + ext
    → released₁ a ≡ released strong order a
    → released released₁ tasks a ≡ ext
released_twice strong released₁ tasks order ext a counted once = ground arith

Live-list :
    (strong released₁ : Addr → ℕ) (tasks order : List Addr) (ext : ℕ) (a : Addr)
    → has a tasks ≡ true
    → strong a ≡ share a tasks + share a order + ext
    → released₁ a ≡ released strong order a
    → Live strong a
    → Live released₁ a
unfolding is_live
Live-list strong released₁ tasks order ext a i counted once live = ground arith

module _ {T S C : Type 0} where
  -- The drop of the last handle of the queue, and of the list, each with its fuel.
  unfoldable pub drop_selector : (nodes len : ℕ) → Selector S → Cmd (Mem T C) (Unit {0})
  drop_selector nodes len s = do drop_queue nodes s.queue.queue; drop_list len s.list; pure tt

  -- `into_iter` of a selector by value: the list is moved out, and the other fields are dropped.
  unfoldable pub into_iter : (nodes : ℕ) → Selector S → Cmd (Mem T C) NodeList
  into_iter nodes s = do drop_queue nodes s.queue.queue; pure s.list

  -- Behind the drop of the queue the list is well-formed.
  pub drop_queue-IsList :
      (m : Mem T C) (s : Selector S) (stub : Addr) (gap : Addr → Bool) (ext : Addr → ℕ)
      (tasks order : List Addr)
      → IsSelector m s stub gap ext tasks order
      → ((a : Addr) → gap a ≡ false)
      → (strong : Addr → ℕ) × (drop_queue (length order) s.queue.queue m
          ≡ some (tt, record m { strong = strong; queues = update m.queues s.queue.queue none }))
        × IsList
            (record m { strong = strong; queues = update m.queues s.queue.queue none })
            s.list
            tasks
        × ((a : Addr) → a ≢ stub → strong a ≡ released m.strong order a)
  drop_queue-IsList m s stub gap ext tasks order is closed =
      let (strong, run, counts, freed) = drop_queue_lem stub gap closed m s.queue order is.queue in
      let m₁ = record m { strong = strong; queues = update m.queues s.queue.queue none } in
      let other = λ (a : Addr) (i : has a tasks ≡ true). ne_of_has tasks i is.real in
      (
        strong,
        run,
        IsList-transfer m m₁ s.list tasks (λ a i. refl) (λ a i. refl)
            (λ a i h.
              Live-list m.strong strong tasks order (ext a) a i
                (is.counted a (other a i) (is.owned a i)) (counts a (other a i)) h)
            is.list.valued is.list,
        counts,
      )

  -- For a well-formed selector without a producer between its two steps, the drop of the selector
  -- ends after as many rounds as its queue has nodes and its list has tasks, and does not fault.
  -- Then every task of the list is dropped, and no other value; the handles that are left of a node
  -- are exactly those that the user has, so that nothing leaks and nothing is freed twice; and no
  -- `upgrade` of the queue succeeds.
  pub drop_selector_lem :
      (m : Mem T C) (s : Selector S) (stub : Addr) (gap : Addr → Bool) (ext : Addr → ℕ)
      (tasks order : List Addr)
      → IsSelector m s stub gap ext tasks order
      → ((a : Addr) → gap a ≡ false)
      → (m' : Mem T C) × (drop_selector (length order) (length tasks) s m ≡ some (tt, m'))
        × ((a : Addr) → a ≢ stub → m.queue a ≡ s.queue.queue → m'.strong a ≡ ext a)
        × ((a : Addr) → m'.value a ≡ (if has a tasks then none else m.value a))
        × (m'.queue ≡ m.queue)
        × (m'.queues s.queue.queue ≡ none)
  unfolding drop_selector
  drop_selector_lem m s stub gap ext tasks order is closed =
      let (strong, run, list, counts) = drop_queue-IsList m s stub gap ext tasks order is closed in
      let m₁ = record m { strong = strong; queues = update m.queues s.queue.queue none } in
      let (l, m', rest, empty, values, counts', queues, owner) =
        drop_list-IsList m₁ s.list tasks list in
      (
        m',
        simp (run, rest),
        λ a real own.
            counts' a
            ∙ released_twice m.strong strong tasks order (ext a) a (is.counted a real own)
                (counts a real),
        values,
        owner,
        ap (λ f. f s.queue.queue) queues ∙ update_self m.queues s.queue.queue none,
      )
