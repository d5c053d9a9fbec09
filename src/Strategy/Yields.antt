-- ===== src/Strategy/Yields.antt =====
-- What `poll_next` (src/selector.rs) yields with the strategies of src/task/strategy.rs.
use async_selector.Base.{
  ◌<◌, arith, ℕ, ◌≤◌, ◌≡◌, refl, sym, ◌∙◌, ap, subst, Bool, true, Option, none, some, List, has,
  length, update_self,
}
use async_selector.Memory.{Addr, Mem}
use async_selector.Queue.{AtomicWaker}
use async_selector.Queue.Order.{contents}
use async_selector.Selector.{Selector}
use async_selector.Selector.Permits.{handles_after}
use async_selector.Selector.Loop.{Stays}
use async_selector.Selector.Poll.{Polled, poll_next}
use async_selector.Selector.Serve.{View, view, serve}
use async_selector.Selector.Served.{poll_next-serve}
use async_selector.Selector.Trace.{poll_nodes, poll_nodes-contents}
use async_selector.Selector.Turn.{Turned, polled, left_in}
use async_selector.Selector.Yields.{Came, Gave-turn, serve-Came}
use async_selector.Strategy.{Stream, StreamWithId, map_outcome, item_or_end, with_stream_with_id}
use async_selector.Strategy.Handles.{CarefulPoll}
use async_selector.Strategy.Strategies.{stream_with_id-Careful}
use async_selector.Task.{Poll, ready, pending, Outcome, returned, panicked}

module _ {T Item : Type 0} (poll : Stream T Item) where
  -- An output is an item of the stream at its id, which stays in the list.
  abbrev pub Yielded :
      (tasks tasks' : List Addr)
      → (values values' : Addr → Option T) → (handles' : Addr → ℕ) → Polled (Addr × Item)
      → Type 0
  Yielded tasks tasks' values values' handles' panicked = Unit
  Yielded tasks tasks' values values' handles' (returned pending) = Unit
  Yielded tasks tasks' values values' handles' (returned (ready none)) = Unit
  Yielded tasks tasks' values values' handles' (returned (ready (some (id, item)))) =
      (task : T) × (has id tasks ≡ true)
      × (values id ≡ some task)
      × ((poll id task).outcome ≡ returned (ready (some item)))
      × (has id tasks' ≡ true)
      × (values' id ≡ some (poll id task).task)
      × (0 < handles' id)

  abbrev Gives :
      Addr
      → T
      → Outcome (Poll (Option Item))
      → Turned T StreamWithId (Addr × Item)
      → (Addr × Item)
      → Type 0
  Gives node task outcome d o =
      (node ≡ o.0)
      × (outcome ≡ returned (ready (some o.1)))
      × (d.listed ≡ true)
      × (d.task ≡ some task)
      × (0 < d.handles node)

  polled-Gives :
      (node : Addr) (task : T) (s : StreamWithId) (ext : Addr → ℕ)
      (outcome : Outcome (Poll (Option Item))) (o : Addr × Item)
      → (polled (with_stream_with_id poll) node task s ext (map_outcome item_or_end outcome)).ends
        ≡ some (returned o)
      → Gives node task outcome
          (polled (with_stream_with_id poll) node task s ext (map_outcome item_or_end outcome))
          o
  unfolding with_stream_with_id
  polled-Gives node task s ext panicked o e = absurd (cc)
  polled-Gives node task s ext (returned pending) o e = absurd (cc)
  polled-Gives node task s ext (returned (ready none)) o e = absurd (cc)
  polled-Gives node task s ext (returned (ready (some item))) o e =
      let same : (node, item) ≡ o = cc in
      (ap (λ p. p.0) same, ap (λ p. returned (ready (some p.1))) same, refl, refl, ground arith)

  Came-Yielded :
      (nodes : List Addr) (v v' : View T StreamWithId) (result : Polled (Addr × Item))
      → Came (with_stream_with_id poll) nodes v result v'
      → Yielded v.tasks v'.tasks v.values v'.values v'.handles result
  unfolding with_stream_with_id
  Came-Yielded nodes v v' panicked came = tt
  Came-Yielded nodes v v' (returned pending) came = tt
  Came-Yielded nodes v v' (returned (ready none)) came = tt
  Came-Yielded nodes v v' (returned (ready (some (id, item)))) g =
      let (task, filled, ends, after) =
        Gave-turn (with_stream_with_id poll) nodes v v' (id, item) g in
      let p = poll g.node task in
      let (same, gives, stays, new, mine) =
        polled-Gives g.node p.task g.before.strategy (handles_after g.before.handles p.events)
          p.outcome (id, item) ends in
      let still = g.still in
      subst
        (λ a.
          (task : T) × (has a v.tasks ≡ true)
          × (v.values a ≡ some task)
          × ((poll a task).outcome ≡ returned (ready (some item)))
          × (has a v'.tasks ≡ true)
          × (v'.values a ≡ some (poll a task).task)
          × (0 < v'.handles a))
        same
        (
          task,
          g.listed,
          filled,
          gives,
          ap (λ u. has g.node u.tasks) after
              ∙ ap (λ b. has g.node (left_in b g.node g.before.tasks)) stays
              ∙ still,
          ap (λ u. u.values g.node) after ∙ update_self g.before.values g.node _ ∙ new,
          subst (λ u. 0 < u.handles g.node) (sym after) mine,
        )

module _ {T Item C : Type 0} ⦃aw : AtomicWaker C⦄ (owner : Addr → Addr) (queue stub : Addr)
    (gap : Addr → Bool) (World : (Addr → ℕ) → StreamWithId → (Addr → Option T) → Type 0)
    (poll : Stream T Item) (careful : CarefulPoll owner queue stub World poll) where
  -- What `poll_next` yields with `StreamWithId`. For a well-formed selector of streams whose code
  -- only gives away handles that it has, and with as much fuel as nodes wait in the queue,
  -- `poll_next` returns and does not fault, and the selector is well-formed afterwards. If its
  -- result is an item with an id, then the id is that of a stream in the list, which gave this item
  -- when it was polled in the state that it had before the call; the stream is still in the list,
  -- in the state that this poll left, and the user has a handle of it, the id.
  pub stream_with_id-Yielded :
      (fuel : ℕ) (m : Mem T C) (s : Selector StreamWithId) (w : ℕ) (ext : Addr → ℕ)
      (tasks order : List Addr)
      → Stays owner queue stub gap World m s ext tasks order
      → length (contents stub order) ≤ fuel
      → (result : Polled (Addr × Item)) × (s' : Selector StreamWithId) × (m' : Mem T C)
        × (ext' : Addr → ℕ) × (tasks' : List Addr) × (order' : List Addr) × (poll_next
              (with_stream_with_id poll)
              fuel
              s
              w
              m
            ≡ some ((some result, s'), m'))
        × Stays owner queue stub gap World m' s' ext' tasks' order'
        × Yielded poll tasks tasks' m.value m'.value ext' result
  stream_with_id-Yielded fuel m s w ext tasks order fine enough =
      let t = with_stream_with_id poll in
      let fits = stream_with_id-Careful owner queue stub poll World careful in
      let nodes = poll_nodes t fuel s w m in
      let (rest, whole, distinct, short) =
        poll_nodes-contents owner queue stub gap World t fits fuel m s w ext tasks order fine
          enough in
      let (s', m', ext', tasks', order', run, fine', seen) =
        poll_next-serve owner queue stub gap World t fits fuel m s w ext tasks order fine enough in
      (
        (serve t nodes (view s m ext tasks)).0,
        s',
        m',
        ext',
        tasks',
        order',
        run,
        fine',
        Came-Yielded poll nodes (view s m ext tasks) (view s' m' ext' tasks')
            (serve t nodes (view s m ext tasks)).0
            (subst (Came t nodes (view s m ext tasks) (serve t nodes (view s m ext tasks)).0)
              (sym seen)
              (serve-Came t nodes (view s m ext tasks) distinct fine.selector.list.distinct)),
      )
