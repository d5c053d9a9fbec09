-- ===== src/Strategy/Reclaims.antt =====
-- What `poll_next` (src/selector.rs) yields with `FutureReclaim` of src/task/strategy.rs.
use async_selector.Base.{
  ◌<◌, arith, ℕ, ◌≤◌, ◌≡◌, refl, sym, ◌∙◌, ap, subst, Bool, true, false, Option, none, some, List,
  has, length, update_self,
}
use async_selector.Memory.{Addr, Mem}
use async_selector.Queue.{AtomicWaker}
use async_selector.Queue.Order.{contents}
use async_selector.Selector.{Selector}
use async_selector.Selector.Permits.{handles_after}
use async_selector.Selector.Loop.{Stays}
use async_selector.Selector.Poll.{Polled, poll_next}
use async_selector.Selector.Serve.{View, view, serve}
use async_selector.Selector.Served.{poll_next-serve}
use async_selector.Selector.Trace.{poll_nodes, poll_nodes-contents}
use async_selector.Selector.Turn.{Turned, polled, left_in}
use async_selector.Selector.Yields.{Came, Gave-turn, serve-Came, without-gone}
use async_selector.Strategy.{Future, FutureReclaim, map_outcome, with_future_reclaim}
use async_selector.Strategy.Handles.{CarefulPoll}
use async_selector.Strategy.Strategies.{future_reclaim-Careful}
use async_selector.Task.{Poll, ready, pending, break, Outcome, returned, panicked}

module _ {F Output : Type 0} (poll : Future F Output) where
  -- An output is that of the future at its id, which has left the list and is kept.
  abbrev pub Reclaimed :
      (tasks tasks' : List Addr)
      → (values values' : Addr → Option F) → (handles' : Addr → ℕ) → Polled (Addr × Output)
      → Type 0
  Reclaimed tasks tasks' values values' handles' panicked = Unit
  Reclaimed tasks tasks' values values' handles' (returned pending) = Unit
  Reclaimed tasks tasks' values values' handles' (returned (ready none)) = Unit
  Reclaimed tasks tasks' values values' handles' (returned (ready (some (id, output)))) =
      (future : F) × (has id tasks ≡ true)
      × (values id ≡ some future)
      × ((poll id future).outcome ≡ returned (ready output))
      × (has id tasks' ≡ false)
      × (values' id ≡ some (poll id future).task)
      × (0 < handles' id)

  abbrev Gives :
      Addr
      → F
      → Outcome (Poll Output)
      → Turned F FutureReclaim (Addr × Output)
      → Addr × Output
      → Type 0
  Gives node future outcome d o =
      (node ≡ o.0)
      × (outcome ≡ returned (ready o.1))
      × (d.listed ≡ false)
      × (d.task ≡ some future)
      × (0 < d.handles node)

  polled-Gives :
      (node : Addr) (future : F) (s : FutureReclaim) (ext : Addr → ℕ)
      (outcome : Outcome (Poll Output)) (o : Addr × Output)
      → (polled (with_future_reclaim poll) node future s ext (map_outcome break outcome)).ends
        ≡ some (returned o)
      → Gives node future outcome
          (polled (with_future_reclaim poll) node future s ext (map_outcome break outcome))
          o
  unfolding with_future_reclaim
  polled-Gives node future s ext panicked o e = absurd (cc)
  polled-Gives node future s ext (returned pending) o e = absurd (cc)
  polled-Gives node future s ext (returned (ready output)) o e =
      let same : (node, output) ≡ o = cc in
      (ap (λ p. p.0) same, ap (λ p. returned (ready p.1)) same, refl, refl, ground arith)

  pub Came-Reclaimed :
      (nodes : List Addr) (v v' : View F FutureReclaim) (result : Polled (Addr × Output))
      → Came (with_future_reclaim poll) nodes v result v'
      → Reclaimed v.tasks v'.tasks v.values v'.values v'.handles result
  unfolding with_future_reclaim
  Came-Reclaimed nodes v v' panicked came = tt
  Came-Reclaimed nodes v v' (returned pending) came = tt
  Came-Reclaimed nodes v v' (returned (ready none)) came = tt
  Came-Reclaimed nodes v v' (returned (ready (some (id, output)))) g =
      let (future, filled, ends, after) =
        Gave-turn (with_future_reclaim poll) nodes v v' (id, output) g in
      let p = poll g.node future in
      let (same, gives, leaves, new, mine) =
        polled-Gives g.node p.task g.before.strategy (handles_after g.before.handles p.events)
          p.outcome (id, output) ends in
      subst
        (λ a.
          (future : F) × (has a v.tasks ≡ true)
          × (v.values a ≡ some future)
          × ((poll a future).outcome ≡ returned (ready output))
          × (has a v'.tasks ≡ false)
          × (v'.values a ≡ some (poll a future).task)
          × (0 < v'.handles a))
        same
        (
          future,
          g.listed,
          filled,
          gives,
          ap (λ u. has g.node u.tasks) after
              ∙ ap (λ b. has g.node (left_in b g.node g.before.tasks)) leaves
              ∙ without-gone g.node g.before.tasks g.unique,
          ap (λ u. u.values g.node) after ∙ update_self g.before.values g.node _ ∙ new,
          subst (λ u. 0 < u.handles g.node) (sym after) mine,
        )

module _ {F Output C : Type 0} ⦃aw : AtomicWaker C⦄ (owner : Addr → Addr) (queue stub : Addr)
    (gap : Addr → Bool) (World : (Addr → ℕ) → FutureReclaim → (Addr → Option F) → Type 0)
    (poll : Future F Output) (careful : CarefulPoll owner queue stub World poll) where
  -- What `poll_next` yields with `FutureReclaim`. For a well-formed selector of futures whose code
  -- only gives away handles that it has, and with as much fuel as nodes wait in the queue,
  -- `poll_next` returns and does not fault, and the selector is well-formed afterwards. If its
  -- result is an output with a node, then the node is that of a future in the list, which gave this
  -- output when it was polled in the state that it had before the call; the future is no longer in
  -- the list, and it is not dropped: the node holds it, in the state that this poll left, and the
  -- user has a handle of it.
  pub future_reclaim-Reclaimed :
      (fuel : ℕ) (m : Mem F C) (s : Selector FutureReclaim) (w : ℕ) (ext : Addr → ℕ)
      (tasks order : List Addr)
      → Stays owner queue stub gap World m s ext tasks order
      → length (contents stub order) ≤ fuel
      → (result : Polled (Addr × Output)) × (s' : Selector FutureReclaim) × (m' : Mem F C)
        × (ext' : Addr → ℕ) × (tasks' : List Addr) × (order' : List Addr) × (poll_next
              (with_future_reclaim poll)
              fuel
              s
              w
              m
            ≡ some ((some result, s'), m'))
        × Stays owner queue stub gap World m' s' ext' tasks' order'
        × Reclaimed poll tasks tasks' m.value m'.value ext' result
  future_reclaim-Reclaimed fuel m s w ext tasks order fine enough =
      let t = with_future_reclaim poll in
      let fits = future_reclaim-Careful owner queue stub poll World careful in
      let nodes = poll_nodes t fuel s w m in
      let (rest, whole, distinct, short) =
        poll_nodes-contents owner queue stub gap World t fits fuel m s w ext tasks order fine
          enough in
      let (s', m', ext', tasks', order', run, fine', seen) =
        poll_next-serve owner queue stub gap World t fits fuel m s w ext tasks order fine enough in
      (
        (serve t nodes (view s m ext tasks)).0,
        s',
        m',
        ext',
        tasks',
        order',
        run,
        fine',
        Came-Reclaimed poll nodes (view s m ext tasks) (view s' m' ext' tasks')
            (serve t nodes (view s m ext tasks)).0
            (subst (Came t nodes (view s m ext tasks) (serve t nodes (view s m ext tasks)).0)
              (sym seen)
              (serve-Came t nodes (view s m ext tasks) distinct fine.selector.list.distinct)),
      )
