-- ===== src/Strategy/TryYields.antt =====
-- What `poll_next` (src/selector.rs) yields with `TryStreamWithId` of src/task/strategy.rs.
use async_selector.Base.{
  ◌<◌, arith, ℕ, ◌≤◌, ◌≡◌, refl, sym, ◌∙◌, ap, subst, Bool, true, false, Option, none, some, List,
  has, length, update, update_self, Distinct,
}
use async_selector.Memory.{Addr, Mem}
use async_selector.Queue.{AtomicWaker}
use async_selector.Queue.Order.{contents}
use async_selector.Selector.{Selector}
use async_selector.Selector.Permits.{handles_after}
use async_selector.Selector.Loop.{Stays}
use async_selector.Selector.Poll.{Polled, poll_next}
use async_selector.Selector.Serve.{View, view, serve}
use async_selector.Selector.Served.{poll_next-serve}
use async_selector.Selector.Trace.{poll_nodes, poll_nodes-contents}
use async_selector.Selector.Turn.{Turned, polled, left_in}
use async_selector.Selector.Yields.{Came, Gave-turn, serve-Came, without-gone}
use async_selector.Strategy.{
  Result, ok, error, TryStream, TryStreamWithId, map_outcome, item_or_error,
  with_try_stream_with_id,
}
use async_selector.Strategy.Handles.{CarefulPoll}
use async_selector.Strategy.Strategies.{try_stream_with_id-Careful}
use async_selector.Task.{Poll, ready, pending, Outcome, returned, panicked}

-- What is left of a stream at `id` that gave an item, or an error.
abbrev pub LeftBehind :
    {T Ok Error : Type 0}
    → Result Ok Error
    → (id : Addr) → (task : T) → (tasks' : List Addr) → (values' : Addr → Option T) → Type 0
LeftBehind (ok item) id task tasks' values' = (has id tasks' ≡ true) × (values' id ≡ some task)
LeftBehind (error e) id task tasks' values' = (has id tasks' ≡ false) × (values' id ≡ none)

module _ {T Ok Error : Type 0} (poll : TryStream T Ok Error) where
  -- An output is what the stream at its id gave: with an item it stays in the list, with an error it
  -- is removed and dropped.
  abbrev pub TryYielded :
      (tasks tasks' : List Addr)
      → (values values' : Addr → Option T) → (handles' : Addr → ℕ) → Polled (Addr × Result Ok Error)
      → Type 0
  TryYielded tasks tasks' values values' handles' panicked = Unit
  TryYielded tasks tasks' values values' handles' (returned pending) = Unit
  TryYielded tasks tasks' values values' handles' (returned (ready none)) = Unit
  TryYielded tasks tasks' values values' handles' (returned (ready (some (id, result)))) =
      (task : T) × (has id tasks ≡ true)
      × (values id ≡ some task)
      × ((poll id task).outcome ≡ returned (ready (some result)))
      × LeftBehind result id (poll id task).task tasks' values'
      × (0 < handles' id)

  -- The same of a turn.
  abbrev Leaves : Result Ok Error → T → Turned T TryStreamWithId (Addr × Result Ok Error) → Type 0
  Leaves (ok item) task d = (d.listed ≡ true) × (d.task ≡ some task)
  Leaves (error e) task d = (d.listed ≡ false) × (d.task ≡ none)

  abbrev Gives :
      Addr
      → T
      → Outcome (Poll (Option (Result Ok Error)))
      → Turned T TryStreamWithId (Addr × Result Ok Error)
      → Addr
      → Result Ok Error
      → Type 0
  Gives node task outcome d id result =
      (node ≡ id)
      × (outcome ≡ returned (ready (some result)))
      × Leaves result task d
      × (0 < d.handles node)

  polled-Gives :
      (node : Addr) (task : T) (s : TryStreamWithId) (ext : Addr → ℕ)
      (outcome : Outcome (Poll (Option (Result Ok Error)))) (id : Addr) (result : Result Ok Error)
      → (polled
          (with_try_stream_with_id poll)
          node
          task
          s
          ext
          (map_outcome item_or_error outcome)).ends
        ≡ some (returned (id, result))
      → Gives node task outcome
          (polled
            (with_try_stream_with_id poll)
            node
            task
            s
            ext
            (map_outcome item_or_error outcome))
          id
          result
  unfolding with_try_stream_with_id
  polled-Gives node task s ext panicked id result e = absurd (cc)
  polled-Gives node task s ext (returned pending) id result e = absurd (cc)
  polled-Gives node task s ext (returned (ready none)) id result e = absurd (cc)
  polled-Gives node task s ext (returned (ready (some (ok item)))) id result e =
      let same : ◌≡◌ {A = Addr × Result Ok Error} (node, ok item) (id, result) = cc in
      (
        ap (λ p. p.0) same,
        ap (λ p. returned (ready (some p.1))) same,
        subst
            (λ r. Leaves r task (
              polled (with_try_stream_with_id poll) node task s ext
                (map_outcome item_or_error (returned (ready (some (ok item)))))))
            (ap (λ p. p.1) same) (refl, refl),
        ground arith,
      )
  polled-Gives node task s ext (returned (ready (some (error x)))) id result e =
      let same : ◌≡◌ {A = Addr × Result Ok Error} (node, error x) (id, result) = cc in
      (
        ap (λ p. p.0) same,
        ap (λ p. returned (ready (some p.1))) same,
        subst
            (λ r. Leaves r task (
              polled (with_try_stream_with_id poll) node task s ext
                (map_outcome item_or_error (returned (ready (some (error x)))))))
            (ap (λ p. p.1) same) (refl, refl),
        ground arith,
      )

  Leaves-LeftBehind :
      (result : Result Ok Error) (node : Addr) (task : T) (before v' : View T TryStreamWithId)
      (d : Turned T TryStreamWithId (Addr × Result Ok Error))
      → v' ≡ record {
        tasks = left_in d.listed node before.tasks;
        values = update before.values node d.task;
        strategy = d.strategy;
        handles = d.handles;
      }
      → has node before.tasks ≡ true
      → Distinct before.tasks
      → Leaves result task d
      → LeftBehind result node task v'.tasks v'.values
  Leaves-LeftBehind (ok item) node task before v' d after still unique (stays, new) = (
    ap (λ u. has node u.tasks) after
        ∙ ap (λ b. has node (left_in b node before.tasks)) stays
        ∙ still,
    ap (λ u. u.values node) after ∙ update_self before.values node _ ∙ new,
  )
  Leaves-LeftBehind (error e) node task before v' d after still unique (leaves, dropped) = (
    ap (λ u. has node u.tasks) after
        ∙ ap (λ b. has node (left_in b node before.tasks)) leaves
        ∙ without-gone node before.tasks unique,
    ap (λ u. u.values node) after ∙ update_self before.values node _ ∙ dropped,
  )

  pub Came-TryYielded :
      (nodes : List Addr) (v v' : View T TryStreamWithId)
      (polled_to : Polled (Addr × Result Ok Error))
      → Came (with_try_stream_with_id poll) nodes v polled_to v'
      → TryYielded v.tasks v'.tasks v.values v'.values v'.handles polled_to
  unfolding with_try_stream_with_id
  Came-TryYielded nodes v v' panicked came = tt
  Came-TryYielded nodes v v' (returned pending) came = tt
  Came-TryYielded nodes v v' (returned (ready none)) came = tt
  Came-TryYielded nodes v v' (returned (ready (some (id, result)))) g =
      let (task, filled, ends, after) =
        Gave-turn (with_try_stream_with_id poll) nodes v v' (id, result) g in
      let p = poll g.node task in
      let (same, gives, leaves, mine) =
        polled-Gives g.node p.task g.before.strategy (handles_after g.before.handles p.events)
          p.outcome id result ends in
      subst
        (λ a.
          (task : T) × (has a v.tasks ≡ true)
          × (v.values a ≡ some task)
          × ((poll a task).outcome ≡ returned (ready (some result)))
          × LeftBehind result a (poll a task).task v'.tasks v'.values
          × (0 < v'.handles a))
        same
        (
          task,
          g.listed,
          filled,
          gives,
          Leaves-LeftBehind result g.node p.task g.before v' _ after g.still g.unique leaves,
          subst (λ u. 0 < u.handles g.node) (sym after) mine,
        )

module _ {T Ok Error C : Type 0} ⦃aw : AtomicWaker C⦄ (owner : Addr → Addr) (queue stub : Addr)
    (gap : Addr → Bool) (World : (Addr → ℕ) → TryStreamWithId → (Addr → Option T) → Type 0)
    (poll : TryStream T Ok Error) (careful : CarefulPoll owner queue stub World poll) where
  -- What `poll_next` yields with `TryStreamWithId`. For a well-formed selector of fallible streams
  -- whose code only gives away handles that it has, and with as much fuel as nodes wait in the
  -- queue, `poll_next` returns and does not fault, and the selector is well-formed afterwards. If
  -- its result is an item or an error with an id, then the id is that of a stream in the list,
  -- which gave this item or this error when it was polled in the state that it had before the call,
  -- and the user has a handle of it. With an item the stream is still in the list, in the state
  -- that this poll left; with an error it is no longer in the list, and it is dropped.
  pub try_stream_with_id-TryYielded :
      (fuel : ℕ) (m : Mem T C) (s : Selector TryStreamWithId) (w : ℕ) (ext : Addr → ℕ)
      (tasks order : List Addr)
      → Stays owner queue stub gap World m s ext tasks order
      → length (contents stub order) ≤ fuel
      → (result : Polled (Addr × Result Ok Error)) × (s' : Selector TryStreamWithId) × (m' : Mem T
          C)
        × (ext' : Addr → ℕ) × (tasks' : List Addr) × (order' : List Addr) × (poll_next
              (with_try_stream_with_id poll)
              fuel
              s
              w
              m
            ≡ some ((some result, s'), m'))
        × Stays owner queue stub gap World m' s' ext' tasks' order'
        × TryYielded poll tasks tasks' m.value m'.value ext' result
  try_stream_with_id-TryYielded fuel m s w ext tasks order fine enough =
      let t = with_try_stream_with_id poll in
      let fits = try_stream_with_id-Careful owner queue stub poll World careful in
      let nodes = poll_nodes t fuel s w m in
      let (rest, whole, distinct, short) =
        poll_nodes-contents owner queue stub gap World t fits fuel m s w ext tasks order fine
          enough in
      let (s', m', ext', tasks', order', run, fine', seen) =
        poll_next-serve owner queue stub gap World t fits fuel m s w ext tasks order fine enough in
      (
        (serve t nodes (view s m ext tasks)).0,
        s',
        m',
        ext',
        tasks',
        order',
        run,
        fine',
        Came-TryYielded poll nodes (view s m ext tasks) (view s' m' ext' tasks')
            (serve t nodes (view s m ext tasks)).0
            (subst (Came t nodes (view s m ext tasks) (serve t nodes (view s m ext tasks)).0)
              (sym seen)
              (serve-Came t nodes (view s m ext tasks) distinct fine.selector.list.distinct)),
      )
