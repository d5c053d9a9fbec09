-- ===== src/Selector/Events.antt =====
-- What user code does with wakers and ids (src/selector/waker.rs, src/selector/id.rs) keeps the
-- selector of src/selector.rs well-formed, if it gives away only the handles that it has.
use async_selector.Base.{
  append-nil, append_assoc, ap, ◌++◌, if◌then◌else◌, ℕ, ◌+◌, ◌-◌, ◌<◌, ◌≡◌, refl, sym, ◌∙◌, subst,
  fun_ext, Bool, true, false, some, List, [], ◌∷◌, arith, update,
}
use async_selector.Memory.{Addr, Mem}
use async_selector.Queue.{AtomicWaker}
use async_selector.Queue.Wake.{enqueue_node-eq}
use async_selector.Queue.Flag.{IsMember, woken_order}
use async_selector.Selector.{Selector, run_event, run_events}
use async_selector.Selector.Invariant.{IsSelector, share}
use async_selector.Selector.Wake.{wake-IsSelector, enqueue-IsSelector}
use async_selector.Selector.Counts.{Live-counted, clone-IsSelector, drop-IsSelector}
use async_selector.Task.{Event, clone, wake, wake_by_ref, drop}
use async_selector.Selector.Permits.{target, handles, Permits, Permitted, handles_after}
use async_selector.Selector.Ran.{Ran, counted-Ran, woken-Ran, Ran-then}

-- The queue after an event.
abbrev pub event_order : {T C : Type 0} → Mem T C → List Addr → Event → List Addr
event_order m order (clone a) = order
event_order m order (wake a) = woken_order m order a
event_order m order (wake_by_ref a) = woken_order m order a
event_order m order (drop a) = order

-- What an event adds to the queue.
event_added : {T C : Type 0} → Mem T C → Event → List Addr
event_added m (clone a) = []
event_added m (wake a) = if m.is_enqueued a then [] else a ∷ []
event_added m (wake_by_ref a) = if m.is_enqueued a then [] else a ∷ []
event_added m (drop a) = []

pub woken_order-eq :
    (order : List Addr) (a : Addr) (b : Bool)
    → (if b then order else order ++ a ∷ []) ≡ order ++ (if b then [] else a ∷ [])
woken_order-eq order a true = sym (append-nil order)
woken_order-eq order a false = refl

event_order-eq :
    {T C : Type 0} (m : Mem T C) (order : List Addr) (e : Event)
    → event_order m order e ≡ order ++ event_added m e
unfolding event_added
event_order-eq m order (clone a) = sym (append-nil order)
event_order-eq m order (wake a) = woken_order-eq order a (m.is_enqueued a)
event_order-eq m order (wake_by_ref a) = woken_order-eq order a (m.is_enqueued a)
event_order-eq m order (drop a) = sym (append-nil order)

handles_more :
    (ext hand : Addr → ℕ) (id : Addr)
    → update (λ a. ext a + hand a) id (ext id + hand id + 1)
      ≡ (λ a. update ext id (ext id + 1) a + hand a)
handles_more ext hand id = fun_ext λ a. ground arith

handles_less :
    (ext hand : Addr → ℕ) (id : Addr)
    → 0 < ext id
    → update (λ a. ext a + hand a) id (ext id + hand id - 1)
      ≡ (λ a. update ext id (ext id - 1) a + hand a)
handles_less ext hand id held = fun_ext λ a. ground arith

module _ {T S C : Type 0} ⦃aw : AtomicWaker C⦄ (s : Selector S) (stub : Addr) (gap : Addr → Bool)
    (hand : Addr → ℕ) (tasks : List Addr) where
  permitted-IsMember :
      (m : Mem T C) (ext : Addr → ℕ) (order : List Addr) (e : Event)
      → IsSelector m s stub gap (λ a. ext a + hand a) tasks order
      → Permits m.queue s.queue.queue stub tasks ext hand e
      → IsMember m s.queue stub (target e)
  permitted-IsMember m ext order e is may = record {
    live =
        Live-counted m.strong (target e) (share (target e) order)
          (share (target e) tasks + (ext (target e) + hand (target e))) may.present
          (omega (arith, is.counted (target e) may.real may.owned)) may.held;
    real = may.real;
    owned = may.owned;
  }

  -- For a well-formed selector and one use of a waker or an id with a handle that user code has or
  -- is lent, the waker's function does not fault and leaves the selector well-formed; the handles
  -- change as the event says, and the queue has the node of a wakeup at its end if its flag was not
  -- set.
  pub run_event-IsSelector :
      (m : Mem T C) (ext : Addr → ℕ) (order : List Addr) (e : Event)
      → IsSelector m s stub gap (λ a. ext a + hand a) tasks order
      → Permits m.queue s.queue.queue stub tasks ext hand e
      → (m' : Mem T C) × (run_event e m ≡ some (tt, m'))
        × IsSelector m' s stub gap (λ a. handles ext e a + hand a) tasks (event_order m order e)
        × Ran m m' s.queue.queue order (event_order m order e)
  unfolding run_event
  run_event-IsSelector m ext order (clone a) is may =
      let member = permitted-IsMember m ext order (clone a) is may in
      let (run, is') =
        clone-IsSelector m s stub gap (λ a. ext a + hand a) tasks order is a member in
      (
        record m { strong = update m.strong a (m.strong a + 1) },
        simp run,
        subst
            (λ f.
              IsSelector (record m { strong = update m.strong a (m.strong a + 1) }) s stub gap f
                tasks order)
            (handles_more ext hand a) is',
        counted-Ran m (update m.strong a (m.strong a + 1)) order,
      )
  run_event-IsSelector m ext order (wake a) is may =
      let member = permitted-IsMember m ext order (wake a) is may in
      let (m', run, is', done) =
        enqueue-IsSelector m s stub gap (λ a. ext a + hand a) tasks order is a member
          (omega (arith, may.spent refl)) in
      (
        m',
        enqueue_node-eq m s.queue stub gap order a is.queue member ∙ run,
        subst (λ f. IsSelector m' s stub gap f tasks (woken_order m order a))
            (handles_less ext hand a (may.spent refl)) is',
        woken-Ran order done,
      )
  run_event-IsSelector m ext order (wake_by_ref a) is may =
      let member = permitted-IsMember m ext order (wake_by_ref a) is may in
      let (m', run, is', done) =
        wake-IsSelector m s stub gap (λ a. ext a + hand a) tasks order is a member in
      (m', run, is', woken-Ran order done)
  run_event-IsSelector m ext order (drop a) is may =
      let member = permitted-IsMember m ext order (drop a) is may in
      let (run, is') =
        drop-IsSelector m s stub gap (λ a. ext a + hand a) tasks order is a member
          (omega (arith, may.spent refl)) in
      (
        record m { strong = update m.strong a (m.strong a - 1) },
        run,
        subst
            (λ f.
              IsSelector (record m { strong = update m.strong a (m.strong a - 1) }) s stub gap f
                tasks order)
            (handles_less ext hand a (may.spent refl)) is',
        counted-Ran m (update m.strong a (m.strong a - 1)) order,
      )

  -- For a well-formed selector and a run of uses of its wakers and ids (clone, wake, wake by
  -- reference, drop), each with a handle that user code has or is lent at that time, the run does
  -- not fault and leaves the selector well-formed, with the reference counts that belong to the
  -- handles after it. Nodes join the queue at its end only; the tasks' values and who owns a node
  -- stay, and a registered waker is still stored or was woken.
  pub run_events-IsSelector :
      (m : Mem T C) (ext : Addr → ℕ) (order : List Addr) (es : List Event)
      → IsSelector m s stub gap (λ a. ext a + hand a) tasks order
      → Permitted m.queue s.queue.queue stub tasks ext hand es
      → (m' : Mem T C) × (added : List Addr) × (run_events es m ≡ some (tt, m'))
        × IsSelector m' s stub gap (λ a. handles_after ext es a + hand a) tasks (order ++ added)
        × Ran m m' s.queue.queue order (order ++ added)
  unfolding run_events
  run_events-IsSelector m ext order [] is may = (
    m,
    [],
    refl,
    subst (IsSelector m s stub gap (λ a. ext a + hand a) tasks) (sym (append-nil order)) is,
    subst (Ran m m s.queue.queue order) (sym (append-nil order)) (counted-Ran m m.strong order),
  )
  run_events-IsSelector m ext order (e ∷ es) is may =
      let (m₁, run, is₁, ran) = run_event-IsSelector m ext order e is may.0 in
      let (m', added, rest, is', ran') =
        run_events-IsSelector m₁ (handles ext e) (event_order m order e) es is₁ (
          subst (λ f. Permitted f s.queue.queue stub tasks (handles ext e) hand es) (sym ran.owner)
            may.1) in
      (
        m',
        event_added m e ++ added,
        simp (run, rest),
        subst (IsSelector m' s stub gap (λ a. handles_after (handles ext e) es a + hand a) tasks)
            (ap (λ xs. xs ++ added) (event_order-eq m order e)
              ∙ append_assoc order (event_added m e) added)
            is',
        subst (Ran m m' s.queue.queue order)
            (ap (λ xs. xs ++ added) (event_order-eq m order e)
              ∙ append_assoc order (event_added m e) added)
            (Ran-then ran ran'),
      )
