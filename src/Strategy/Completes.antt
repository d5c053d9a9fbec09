-- ===== src/Strategy/Completes.antt =====
-- What `poll_next` (src/selector.rs) yields with `FutureBasic` of src/task/strategy.rs.
use async_selector.Base.{
  ℕ, ◌≤◌, ◌≡◌, refl, sym, ◌∙◌, ap, subst, Bool, true, false, Option, none, some, List, has, length,
  update_self,
}
use async_selector.Memory.{Addr, Mem}
use async_selector.Queue.{AtomicWaker}
use async_selector.Queue.Order.{contents}
use async_selector.Selector.{Selector}
use async_selector.Selector.Permits.{handles_after}
use async_selector.Selector.Loop.{Stays}
use async_selector.Selector.Poll.{Polled, poll_next}
use async_selector.Selector.Serve.{View, view, serve}
use async_selector.Selector.Served.{poll_next-serve}
use async_selector.Selector.Trace.{poll_nodes, poll_nodes-contents}
use async_selector.Selector.Turn.{Turned, polled, left_in}
use async_selector.Selector.Yields.{Came, Gave-turn, serve-Came, without-gone}
use async_selector.Strategy.{Future, FutureBasic, map_outcome, with_future_basic}
use async_selector.Strategy.Handles.{CarefulPoll}
use async_selector.Strategy.Strategies.{future_basic-Careful}
use async_selector.Task.{Poll, ready, pending, break, Outcome, returned, panicked}

module _ {F Output : Type 0} (poll : Future F Output) where
  -- An output is that of a future of the list, which has left the list and is dropped.
  abbrev pub Completed :
      (tasks tasks' : List Addr) → (values values' : Addr → Option F) → Polled Output → Type 0
  Completed tasks tasks' values values' panicked = Unit
  Completed tasks tasks' values values' (returned pending) = Unit
  Completed tasks tasks' values values' (returned (ready none)) = Unit
  Completed tasks tasks' values values' (returned (ready (some output))) =
      (id : Addr) × (future : F) × (has id tasks ≡ true)
      × (values id ≡ some future)
      × ((poll id future).outcome ≡ returned (ready output))
      × (has id tasks' ≡ false)
      × (values' id ≡ none)

  abbrev Gives : Outcome (Poll Output) → Turned F FutureBasic Output → Output → Type 0
  Gives outcome d o = (outcome ≡ returned (ready o)) × (d.listed ≡ false) × (d.task ≡ none)

  polled-Gives :
      (node : Addr) (future : F) (s : FutureBasic) (ext : Addr → ℕ)
      (outcome : Outcome (Poll Output)) (o : Output)
      → (polled (with_future_basic poll) node future s ext (map_outcome break outcome)).ends
        ≡ some (returned o)
      → Gives outcome
          (polled (with_future_basic poll) node future s ext (map_outcome break outcome))
          o
  unfolding with_future_basic
  polled-Gives node future s ext panicked o e = absurd (cc)
  polled-Gives node future s ext (returned pending) o e = absurd (cc)
  polled-Gives node future s ext (returned (ready output)) o e =
      let same : output ≡ o = cc in (ap (λ p. returned (ready p)) same, refl, refl)

  pub Came-Completed :
      (nodes : List Addr) (v v' : View F FutureBasic) (result : Polled Output)
      → Came (with_future_basic poll) nodes v result v'
      → Completed v.tasks v'.tasks v.values v'.values result
  unfolding with_future_basic
  Came-Completed nodes v v' panicked came = tt
  Came-Completed nodes v v' (returned pending) came = tt
  Came-Completed nodes v v' (returned (ready none)) came = tt
  Came-Completed nodes v v' (returned (ready (some output))) g =
      let (future, filled, ends, after) = Gave-turn (with_future_basic poll) nodes v v' output g in
      let p = poll g.node future in
      let (gives, leaves, dropped) =
        polled-Gives g.node p.task g.before.strategy (handles_after g.before.handles p.events)
          p.outcome output ends in
      (
        g.node,
        future,
        g.listed,
        filled,
        gives,
        ap (λ u. has g.node u.tasks) after
            ∙ ap (λ b. has g.node (left_in b g.node g.before.tasks)) leaves
            ∙ without-gone g.node g.before.tasks g.unique,
        ap (λ u. u.values g.node) after ∙ update_self g.before.values g.node _ ∙ dropped,
      )

module _ {F Output C : Type 0} ⦃aw : AtomicWaker C⦄ (owner : Addr → Addr) (queue stub : Addr)
    (gap : Addr → Bool) (World : (Addr → ℕ) → FutureBasic → (Addr → Option F) → Type 0)
    (poll : Future F Output) (careful : CarefulPoll owner queue stub World poll) where
  -- What `poll_next` yields with `FutureBasic`. For a well-formed selector of futures whose code
  -- only gives away handles that it has, and with as much fuel as nodes wait in the queue,
  -- `poll_next` returns and does not fault, and the selector is well-formed afterwards. If its
  -- result is an output, then it is that of a future in the list, which gave it when it was polled
  -- in the state that it had before the call; the future is no longer in the list, and it is
  -- dropped.
  pub future_basic-Completed :
      (fuel : ℕ) (m : Mem F C) (s : Selector FutureBasic) (w : ℕ) (ext : Addr → ℕ)
      (tasks order : List Addr)
      → Stays owner queue stub gap World m s ext tasks order
      → length (contents stub order) ≤ fuel
      → (result : Polled Output) × (s' : Selector FutureBasic) × (m' : Mem F C) × (ext' : Addr → ℕ)
        × (tasks' : List Addr) × (order' : List Addr) × (poll_next
              (with_future_basic poll)
              fuel
              s
              w
              m
            ≡ some ((some result, s'), m'))
        × Stays owner queue stub gap World m' s' ext' tasks' order'
        × Completed poll tasks tasks' m.value m'.value result
  future_basic-Completed fuel m s w ext tasks order fine enough =
      let t = with_future_basic poll in
      let fits = future_basic-Careful owner queue stub poll World careful in
      let nodes = poll_nodes t fuel s w m in
      let (rest, whole, distinct, short) =
        poll_nodes-contents owner queue stub gap World t fits fuel m s w ext tasks order fine
          enough in
      let (s', m', ext', tasks', order', run, fine', seen) =
        poll_next-serve owner queue stub gap World t fits fuel m s w ext tasks order fine enough in
      (
        (serve t nodes (view s m ext tasks)).0,
        s',
        m',
        ext',
        tasks',
        order',
        run,
        fine',
        Came-Completed poll nodes (view s m ext tasks) (view s' m' ext' tasks')
            (serve t nodes (view s m ext tasks)).0
            (subst (Came t nodes (view s m ext tasks) (serve t nodes (view s m ext tasks)).0)
              (sym seen)
              (serve-Came t nodes (view s m ext tasks) distinct fine.selector.list.distinct)),
      )
