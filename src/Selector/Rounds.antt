-- ===== src/Selector/Rounds.antt =====
-- A round of the loop of `poll_next` (src/selector.rs) keeps the selector well-formed, however the
-- task and the strategy end it.
use async_selector.Base.{
  ℕ, ◌-◌, ◌≡◌, refl, Bool, true, false, Option, some, List, ◌++◌, has, update, ap, ◌∙◌, update_self,
}
use async_selector.Memory.{Addr, Mem, Live}
use async_selector.Queue.{AtomicWaker, Receiver, into_inner}
use async_selector.NodeList.{get_pin}
use async_selector.NodeList.Unlink.{unlinked}
use async_selector.Selector.{Selector}
use async_selector.Selector.Permits.{handles_after}
use async_selector.Selector.Careful.{Careful}
use async_selector.Selector.Hands.{emptied}
use async_selector.Selector.Kept.{Settles, Busy, Busy-Kept, call-Busy}
use async_selector.Selector.Lent.{dropped_arc-Busy}
use async_selector.Selector.Poll.{Round, go_on, unwound, unwind, on_poll, poll_task}
use async_selector.Selector.Turn.{Turned, polled, turn, Follows, Follows-still}
use async_selector.Task.{
  Task, Poll, ready, pending, ControlFlow, continue, break, Outcome, returned, panicked,
}
use async_selector.Selector.Continues.{
  dropped-Busy, unchanged-Settles, Settles-behind, Settles-via, on_continue-Settles,
}
use async_selector.Selector.Breaks.{on_break-Settles}

module _ {T S C Cont Break Output : Type 0} ⦃aw : AtomicWaker C⦄ (owner : Addr → Addr)
    (queue stub : Addr) (gap : Addr → Bool) (World : (Addr → ℕ) → S → (Addr → Option T) → Type 0)
    (w : ℕ) (Quiet : List Addr → Type 0) (t : Task T S Cont Break Output)
    (careful : Careful owner queue stub World t) (r : Receiver) (node : Addr) (is_last : Bool) where
  -- The states and the ends at these parameters.
  abbrev Here : Mem T C → Selector S → (Addr → ℕ) → List Addr → List Addr → ℕ → Type 0
  Here m s ext tasks order n = Busy owner queue stub gap World w Quiet m s r ext tasks order node n

  abbrev Settled :
      Option ((Round Output × Selector S) × Mem T C)
      → (order tasks : List Addr) → (Addr → Option T)
      → Turned T S Output
      → Type 0
  Settled run order tasks values turned =
      Settles owner queue stub gap World w Quiet run r order
        (Follows node is_last tasks values turned)

  unwind-Settles :
      (m : Mem T C) (s : Selector S) (ext : Addr → ℕ) (tasks order : List Addr) (task : T)
      → has node tasks ≡ true
      → Here m s ext tasks order 1
      → Settled
          (unwind t s (record { list = s.list; node = node }) node m)
          order
          tasks
          m.value
          (polled t node task s.strategy ext panicked)
  unfolding unwind
  unwind-Settles m s ext tasks order task listed busy =
      let (dropped, busy') =
        dropped_arc-Busy owner queue stub gap World w Quiet r node m s ext tasks order 0 busy in
      let m' = record m { strong = update m.strong node (m.strong node - 1) } in
      let (l, rest, run, kept, left) =
        dropped-Busy owner queue stub gap World w Quiet t careful r node is_last m' s ext tasks
          order listed busy' in
      let turned = polled t node task s.strategy ext panicked in
      Settles-via owner queue stub gap World w Quiet t careful r node is_last order tasks m.value
        turned (simp (dropped, run))
        (unchanged-Settles owner queue stub gap World w Quiet t careful r node is_last
          (emptied (unlinked m' node) node) (record s { list = l }) ext rest order tasks m.value
          turned unwound kept
          (record {
            round_eq = refl;
            tasks_eq = left;
            value_eq = refl;
            strategy_eq = refl;
            handles_eq = refl;
          }))

  on_poll-Settles :
      (m : Mem T C) (s : Selector S) (ext : Addr → ℕ) (tasks order : List Addr) (task : T)
      (done : Outcome (Poll (ControlFlow Break Cont)))
      → has node tasks ≡ true
      → m.value node ≡ some task
      → Here m s ext tasks order 1
      → Settled
          (on_poll t s (record { list = s.list; node = node }) node is_last done m)
          order
          tasks
          m.value
          (polled t node task s.strategy ext done)
  unfolding on_poll
  on_poll-Settles m s ext tasks order task panicked listed filled busy =
      unwind-Settles m s ext tasks order task listed busy
  on_poll-Settles m s ext tasks order task (returned pending) listed filled busy =
      let (dropped, busy') =
        dropped_arc-Busy owner queue stub gap World w Quiet r node m s ext tasks order 0 busy in
      let m' = record m { strong = update m.strong node (m.strong node - 1) } in
      let turned = polled t node task s.strategy ext (returned pending) in
      Settles-via owner queue stub gap World w Quiet t careful r node is_last order tasks m.value
        turned (simp dropped)
        (unchanged-Settles owner queue stub gap World w Quiet t careful r node is_last m' s ext
          tasks order tasks m.value turned (go_on is_last)
          (Busy-Kept owner queue stub gap World w Quiet r node m' s ext tasks order busy')
          (Follows-still node is_last tasks m' turned task s ext filled))
  on_poll-Settles m s ext tasks order task (returned (ready (continue val))) listed filled busy =
      on_continue-Settles owner queue stub gap World w Quiet t careful r node is_last m s ext tasks
        order task val listed filled busy
  on_poll-Settles m s ext tasks order task (returned (ready (break val))) listed filled busy =
      on_break-Settles owner queue stub gap World w Quiet t careful r node is_last m s ext tasks
        order task val listed filled busy

  -- The task at the node in hand, from `into_inner` on.
  pub poll_task-Settles :
      (m : Mem T C) (s : Selector S) (ext : Addr → ℕ) (tasks order : List Addr) (task : T)
      → has node tasks ≡ true
      → Live m.strong node
      → m.value node ≡ some task
      → Here (record m { is_enqueued = update m.is_enqueued node false }) s ext tasks order 1
      → Settled
          (poll_task t s (record { list = s.list; node = node }) node is_last m)
          order
          tasks
          m.value
          (turn t node task s.strategy ext)
  unfolding poll_task into_inner get_pin
  poll_task-Settles m s ext tasks order task listed live filled busy =
      let m₁ = record m { is_enqueued = update m.is_enqueued node false } in
      let c = t.poll_progress node task s.strategy in
      let fits =
        careful.polls tasks ext s.strategy m.value node task busy.own listed filled busy.world in
      let (m₂, more, called, busy₂, changed) =
        call-Busy owner queue stub gap World w Quiet r node t m₁ s ext tasks order 1 c live busy
          fits in
      Settles-behind owner queue stub gap World w Quiet t careful r node is_last order more tasks
        (polled t node c.task c.strategy (handles_after ext c.events) c.outcome) (some c.task)
        (simp (live, filled, called)) changed
        (on_poll-Settles m₂ (record s { strategy = c.strategy }) (handles_after ext c.events) tasks
          (order ++ more) c.task c.outcome listed
          (ap (λ f. f node) changed ∙ update_self m.value node (some c.task)) busy₂)
