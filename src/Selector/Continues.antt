-- ===== src/Selector/Continues.antt =====
-- The end of a round of `poll_next` (src/selector.rs), and a task that goes on.
use async_selector.Base.{
  ℕ, ◌≡◌, refl, sym, ◌∙◌, subst, Bool, true, Option, none, some, List, [], ◌++◌, append-nil,
  append_assoc, has, ap, update, update_self, update_there,
}
use async_selector.Memory.{Addr, Mem}
use async_selector.Queue.{AtomicWaker, Receiver}
use async_selector.NodeList.{NodeList, get_pin, drop_guard}
use async_selector.NodeList.Unlink.{unlinked}
use async_selector.Selector.{Selector}
use async_selector.Selector.Invariant.{IsSelector}
use async_selector.Selector.Permits.{handles_after}
use async_selector.Selector.Careful.{Careful}
use async_selector.Selector.Hands.{lend-none, emptied}
use async_selector.Selector.Guard.{drop_guard-IsSelector}
use async_selector.Selector.Kept.{Kept, Settles, Busy, IsOwn-here, Busy-Kept, call-Busy}
use async_selector.Selector.Lent.{enqueued-Busy}
use async_selector.Selector.Poll.{Round, go_on, output, unwound, after_continue, on_continue}
use async_selector.Selector.Turn.{
  Turned, continued, polled, without, Follows, Follows-behind, Follows-still, IsWithout-without,
}
use async_selector.Task.{Task, Outcome, ready, continue, returned, panicked}

module _ {T S C Cont Break Output : Type 0} ⦃aw : AtomicWaker C⦄ (owner : Addr → Addr)
    (queue stub : Addr) (gap : Addr → Bool) (World : (Addr → ℕ) → S → (Addr → Option T) → Type 0)
    (w : ℕ) (Quiet : List Addr → Type 0) (t : Task T S Cont Break Output)
    (careful : Careful owner queue stub World t) (r : Receiver) (node : Addr) (is_last : Bool) where
  -- The states and the ends at these parameters.
  abbrev pub Here : Mem T C → Selector S → (Addr → ℕ) → List Addr → List Addr → ℕ → Type 0
  Here m s ext tasks order n = Busy owner queue stub gap World w Quiet m s r ext tasks order node n

  abbrev pub Settled :
      Option ((Round Output × Selector S) × Mem T C)
      → (order tasks : List Addr) → (Addr → Option T)
      → Turned T S Output
      → Type 0
  Settled run order tasks values turned =
      Settles owner queue stub gap World w Quiet run r order
        (Follows node is_last tasks values turned)

  -- The guard is dropped while `n` handles are lent.
  pub dropped-Busy :
      (m : Mem T C) (s : Selector S) (ext : Addr → ℕ) (tasks order : List Addr)
      → has node tasks ≡ true
      → Busy owner queue stub gap World w Quiet m s r ext tasks order node 0
      → (l : NodeList) × (rest : List Addr) × (drop_guard (record { list = s.list; node = node }) m
          ≡ some (l, emptied (unlinked m node) node))
        × Kept owner queue stub gap World w Quiet
            (emptied (unlinked m node) node)
            (record s { list = l })
            r
            ext
            rest
            order
        × (rest ≡ without node tasks)
  dropped-Busy m s ext tasks order listed busy =
      let (l, rest, run, is, gone) =
        drop_guard-IsSelector m s stub gap ext tasks order node 0 busy.selector listed busy.task
          busy.filled
          (IsOwn-here owner queue stub gap World w Quiet r node m s ext tasks order 0 busy) in
      (
        l,
        rest,
        run,
        record {
          selector =
              subst
                (λ f.
                  IsSelector (emptied (unlinked m node) node) (record s { list = l }) stub gap f
                    rest order)
                (lend-none ext node) is;
          world = careful.drops ext s.strategy m.value node busy.world;
          owner_kept = busy.owner_kept;
          queue_kept = busy.queue_kept;
          alert = busy.alert;
          rings = busy.rings;
        },
        IsWithout-without node tasks rest gone,
      )

  -- A round that is at its end.
  pub unchanged-Settles :
      (m : Mem T C) (s : Selector S) (ext : Addr → ℕ) (rest order tasks : List Addr)
      (values : Addr → Option T) (turned : Turned T S Output) (round : Round Output)
      → Kept owner queue stub gap World w Quiet m s r ext rest order
      → Follows node is_last tasks values turned round s m ext rest
      → Settled (some ((round, s), m)) order tasks values turned
  unchanged-Settles m s ext rest order tasks values turned round kept follows = (
    round,
    s,
    m,
    ext,
    rest,
    [],
    refl,
    subst (Kept owner queue stub gap World w Quiet m s r ext rest) (sym (append-nil order)) kept,
    follows,
  )

  -- A round by its first steps, which may add nodes to the queue and change the task.
  pub Settles-behind :
      {run run' : Option ((Round Output × Selector S) × Mem T C)} (order added tasks : List Addr)
      {before values : Addr → Option T} (turned : Turned T S Output) (o : Option T)
      → run ≡ run'
      → values ≡ update before node o
      → Settled run' (order ++ added) tasks values turned
      → Settled run order tasks before turned
  Settles-behind order added tasks turned o same changed
        (round, s', m', ext', tasks', more, run, kept, follows) =
      (
        round,
        s',
        m',
        ext',
        tasks',
        added ++ more,
        same ∙ run,
        subst (Kept owner queue stub gap World w Quiet m' s' r ext' tasks')
            (append_assoc order added more) kept,
        Follows-behind o changed follows,
      )

  pub Settles-via :
      {run run' : Option ((Round Output × Selector S) × Mem T C)} (order tasks : List Addr)
      (values : Addr → Option T) (turned : Turned T S Output)
      → run ≡ run'
      → Settled run' order tasks values turned
      → Settled run order tasks values turned
  Settles-via order tasks values turned same ends =
      subst (λ o. Settled o order tasks values turned) (sym same) ends

  after_continue-Settles :
      (m : Mem T C) (s : Selector S) (ext : Addr → ℕ) (tasks order : List Addr) (task : T)
      (done : Outcome (Option Output))
      → has node tasks ≡ true
      → m.value node ≡ some task
      → Here m s ext tasks order 0
      → Settled
          (after_continue t s (record { list = s.list; node = node }) is_last done m)
          order
          tasks
          m.value
          (continued task s.strategy ext done)
  unfolding after_continue
  after_continue-Settles m s ext tasks order task panicked listed filled busy =
      let (l, rest, run, kept, gone) = dropped-Busy m s ext tasks order listed busy in
      let turned = continued task s.strategy ext panicked in
      Settles-via order tasks m.value turned (simp run) (
        unchanged-Settles (emptied (unlinked m node) node) (record s { list = l }) ext rest order
          tasks m.value turned unwound kept
          (record {
            round_eq = refl;
            tasks_eq = gone;
            value_eq = refl;
            strategy_eq = refl;
            handles_eq = refl;
          }))
  after_continue-Settles m s ext tasks order task (returned none) listed filled busy =
      unchanged-Settles m s ext tasks order tasks m.value
        (continued task s.strategy ext (returned none)) (go_on is_last)
        (Busy-Kept owner queue stub gap World w Quiet r node m s ext tasks order busy)
        (Follows-still node is_last tasks m (continued task s.strategy ext (returned none)) task s
          ext filled)
  after_continue-Settles m s ext tasks order task (returned (some v)) listed filled busy =
      unchanged-Settles m s ext tasks order tasks m.value
        (continued task s.strategy ext (returned (some v))) (output v)
        (Busy-Kept owner queue stub gap World w Quiet r node m s ext tasks order busy)
        (Follows-still node is_last tasks m (continued task s.strategy ext (returned (some v))) task
          s ext filled)

  pub on_continue-Settles :
      (m : Mem T C) (s : Selector S) (ext : Addr → ℕ) (tasks order : List Addr) (task : T)
      (val : Cont)
      → has node tasks ≡ true
      → m.value node ≡ some task
      → Here m s ext tasks order 1
      → Settled
          (on_continue t s (record { list = s.list; node = node }) node is_last val m)
          order
          tasks
          m.value
          (polled t node task s.strategy ext (returned (ready (continue val))))
  unfolding on_continue get_pin
  on_continue-Settles m s ext tasks order task val listed filled busy =
      let (m₁, added, run, busy₁, same) =
        enqueued-Busy owner queue stub gap World w Quiet r node m s ext tasks order busy in
      let live = busy₁.selector.list.live node listed in
      let c = t.transform_cont node task s.strategy val in
      let turned = continued c.task c.strategy (handles_after ext c.events) c.outcome in
      let filled₁ = ap (λ f. f node) same ∙ filled in
      let fits =
        careful.continues tasks ext s.strategy m₁.value node task val busy.own listed filled₁
          busy₁.world in
      let (m₂, more, called, busy₂, changed) =
        call-Busy owner queue stub gap World w Quiet r node t m₁ s ext tasks (order ++ added) 0 c
          live busy₁ fits in
      let here : m₂.value ≡ update m.value node (some c.task) =
        changed ∙ ap (λ vs. update vs node (some c.task)) same in
      Settles-behind order added tasks turned (some task) (simp (run, live, filled₁, called))
        (same ∙ sym (update_there m.value node (some task) filled))
        (Settles-behind (order ++ added) more tasks turned (some c.task) refl changed (
          after_continue-Settles m₂ (record s { strategy = c.strategy })
            (handles_after ext c.events) tasks ((order ++ added) ++ more) c.task c.outcome listed
            (ap (λ f. f node) here ∙ update_self m.value node (some c.task)) busy₂))
