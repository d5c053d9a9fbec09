-- ===== src/Selector/Poll.antt =====
-- `poll_next` of src/selector.rs. One round of its `while` loop is `poll_round`; the loop runs on
-- fuel.
use async_selector.Base.{ℕ, zero, suc, Bool, Option, none, some, ◌==◌, if◌then◌else◌}
use async_selector.Memory.{Addr, null, Mem, Cmd, pure, ◌>>=◌, ◌>>◌, drop_arc}
use async_selector.Queue.{AtomicWaker, dequeue, into_inner, register_waker, enqueue}
use async_selector.NodeList.{
  AccessGuard, is_empty, access, get_pin, set_pin, remove_now, drop_guard, drop_removed,
}
use async_selector.Selector.{Selector, run_events}
use async_selector.Task.{
  Task, Finished, ControlFlow, Poll, ready, pending, continue, break, Called, Outcome, returned,
  panicked,
}

-- How a round ends: `go_on` stands for the end of the loop's body, `skip` for its `continue` and
-- `break` on a removed task, the others leave the function, `unwound` by a panic.
pub data Round (Output : Type 0) : Type 0 where
  no_node : Round Output
  skip : (is_last : Bool) → Round Output
  go_on : (is_last : Bool) → Round Output
  output : Output → Round Output
  unwound : Round Output

-- What `poll_next` returns: `Poll<Option<Output>>`, or the unwinding of a panic.
abbrev pub Polled : Type 0 → Type 0
Polled Output = Outcome (Poll (Option Output))

-- Behind the loop.
abbrev pub at_end : {S Output : Type 0} → Selector S → Polled Output
at_end s = returned (if is_empty s.list then ready none else pending)

module _ {T S C Cont Break Output : Type 0} ⦃aw : AtomicWaker C⦄
    (t : Task T S Cont Break Output) where
  -- A call of user code on the task at `node`: its changes are written back.
  unfoldable pub after_call :
      {A : Type 0}
      → Selector S
      → (node : Addr) → Called T S A
      → Cmd (Mem T C) (Outcome A × Selector S)
  after_call s node c = do
    set_pin node c.task
    run_events c.events
    pure (c.outcome, record s { strategy = c.strategy })

  -- Unwinding with the node in hand and the guard alive: both are dropped.
  unfoldable pub unwind :
      Selector S → AccessGuard → (node : Addr) → Cmd (Mem T C) (Round Output × Selector S)
  unwind s guard node = do
    drop_arc node
    l ← drop_guard guard
    pure (unwound, record s { list = l })

  -- Behind `transform_cont`.
  unfoldable pub after_continue :
      Selector S
      → AccessGuard
      → (is_last : Bool) → Outcome (Option Output)
      → Cmd (Mem T C) (Round Output × Selector S)
  after_continue s guard is_last panicked = do
    l ← drop_guard guard
    pure (unwound, record s { list = l })
  after_continue s guard is_last (returned none) = pure (go_on is_last, s)
  after_continue s guard is_last (returned (some v)) = pure (output v, s)

  -- `Poll::Ready(ControlFlow::Continue(val))`
  unfoldable pub on_continue :
      Selector S
      → AccessGuard
      → (node : Addr) → (is_last : Bool) → Cont
      → Cmd (Mem T C) (Round Output × Selector S)
  on_continue s guard node is_last val = do
    enqueue s.queue.queue node
    task ← get_pin node
    (done, s) ← after_call s node (t.transform_cont node task s.strategy val)
    after_continue s guard is_last done

  -- Behind `transform_break`: the removed task is the user's.
  unfoldable pub after_break :
      Selector S
      → (removed node : Addr) → (is_last : Bool) → Outcome (Finished Output)
      → Cmd (Mem T C) (Round Output × Selector S)
  after_break s removed node is_last panicked = do
    drop_removed removed
    drop_arc node
    pure (unwound, s)
  after_break s removed node is_last (returned f) = do
    if f.keeps then pure tt else drop_removed removed
    drop_arc node
    pure (elim f.output [ none ↦ go_on is_last | some v ↦ output v ], s)

  -- `Poll::Ready(ControlFlow::Break(val))`
  unfoldable pub on_break :
      Selector S
      → AccessGuard
      → (node : Addr) → (is_last : Bool) → Break
      → Cmd (Mem T C) (Round Output × Selector S)
  on_break s guard node is_last val = do
    (removed, l) ← remove_now guard
    task ← get_pin removed
    (done, s) ←
        after_call (record s { list = l }) removed (t.transform_break removed task s.strategy val)
    after_break s removed node is_last done

  -- `match result`, and the unwinding of a panic.
  unfoldable pub on_poll :
      Selector S
      → AccessGuard
      → (node : Addr) → (is_last : Bool) → Outcome (Poll (ControlFlow Break Cont))
      → Cmd (Mem T C) (Round Output × Selector S)
  on_poll s guard node is_last panicked = unwind s guard node
  on_poll s guard node is_last (returned pending) = do drop_arc node; pure (go_on is_last, s)
  on_poll s guard node is_last (returned (ready (continue val))) =
      on_continue s guard node is_last val
  on_poll s guard node is_last (returned (ready (break val))) = on_break s guard node is_last val

  -- The body of the loop behind a node that is still in the list.
  unfoldable pub poll_task :
      Selector S
      → AccessGuard
      → (node : Addr) → (is_last : Bool) → Cmd (Mem T C) (Round Output × Selector S)
  poll_task s guard node is_last = do
    node ← into_inner node
    task ← get_pin node
    (done, s) ← after_call s node (t.poll_progress node task s.strategy)
    on_poll s guard node is_last done

  -- One evaluation of the loop's condition and of its body.
  unfoldable pub poll_round :
      Selector S → (marker : Addr) → Cmd (Mem T C) (Round Output × Selector S)
  poll_round s marker = do
    (next, r) ← dequeue s.queue
    let s = record s { queue = r }
    elim next [
      | none ↦ pure (no_node, s)
      | some node ↦ do
        guard ← access s.list node
        elim guard [
          | none ↦ do drop_arc node; pure (skip (node == marker), s)
          | some guard ↦ poll_task s guard node (node == marker)
        ]
    ]

  -- The `while` loop. `none` of the inner option means that the fuel ran out.
  unfoldable pub poll_loop :
      ℕ → Selector S → (marker : Addr) → Cmd (Mem T C) (Option (Polled Output) × Selector S)
  poll_loop zero s marker = pure (none, s)
  poll_loop (suc fuel) s marker = do
    (round, s) ← poll_round s marker
    elim round [
      | no_node ↦ pure (some (at_end s), s)
      | skip is_last ↦ if is_last then pure (some (at_end s), s) else poll_loop fuel s marker
      | go_on is_last ↦ if is_last then pure (some (at_end s), s) else poll_loop fuel s marker
      | output v ↦ pure (some (returned (ready (some v))), s)
      | unwound ↦ pure (some panicked, s)
    ]

  -- `Selector::poll_next`, for the waker `w` of its context.
  unfoldable pub poll_next :
      (fuel : ℕ) → Selector S → (w : ℕ) → Cmd (Mem T C) (Option (Polled Output) × Selector S)
  poll_next fuel s w = do
    marker ← register_waker s.queue w
    if marker == null then pure (some (at_end s), s) else poll_loop fuel s marker
