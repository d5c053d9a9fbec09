-- ===== src/Selector/Careful.antt =====
-- What `poll_next` of src/selector.rs relies on: the user's code of a task (`trait Task` of
-- src/task.rs) uses the handles that it has. And a call of that code, as `poll_next` makes it.
use async_selector.Base.{
  ℕ, ◌+◌, ◌≡◌, ◌≢◌, refl, Bool, true, Option, none, some, List, ◌++◌, ◌==◌, if◌then◌else◌, has,
  update,
}
use async_selector.Memory.{Addr, null, Mem, Live}
use async_selector.Queue.{AtomicWaker}
use async_selector.NodeList.{get_pin, set_pin}
use async_selector.NodeList.Invariant.{IsList-transfer, filled-update}
use async_selector.Queue.Transfer.{IsQueue-transfer}
use async_selector.Selector.{Selector}
use async_selector.Selector.Invariant.{IsSelector}
use async_selector.Selector.Events.{run_events-IsSelector}
use async_selector.Selector.Ran.{Ran}
use async_selector.Selector.Permits.{Permitted, handles_after}
use async_selector.Selector.Poll.{after_call}
use async_selector.Task.{Task, Called}

-- `n` handles of one node.
abbrev pub lend : Addr → ℕ → Addr → ℕ
lend id n a = if a == id then n else 0

-- A node of the queue `queue`.
pub record IsOwn (owner : Addr → Addr) (queue stub id : Addr) : Type 0 where
  pub present : id ≢ null
  pub real : id ≢ stub
  pub owned : owner id ≡ queue

module _ {T S : Type 0} (owner : Addr → Addr) (queue stub : Addr)
    (World : (Addr → ℕ) → S → (Addr → Option T) → Type 0) where
  -- A call that gives away only handles that the user has, and that keeps the user's invariant
  -- `World` of the handles, the strategy and the tasks.
  pub record Fits {A : Type 0} (tasks : List Addr) (ext hand : Addr → ℕ) (id : Addr)
      (values : Addr → Option T) (c : Called T S A) : Type 0 where
    pub permitted : Permitted owner queue stub tasks ext hand c.events
    pub world : World (handles_after ext c.events) c.strategy (update values id (some c.task))

  pub record Careful {Cont Break Output : Type 0} (t : Task T S Cont Break Output) : Type 0 where
    pub polls :
        (tasks : List Addr) (ext : Addr → ℕ) (s : S) (values : Addr → Option T) (id : Addr)
        (task : T)
        → IsOwn owner queue stub id
        → has id tasks ≡ true
        → values id ≡ some task
        → World ext s values
        → Fits tasks ext (lend id 1) id values (t.poll_progress id task s)
    pub continues :
        (tasks : List Addr) (ext : Addr → ℕ) (s : S) (values : Addr → Option T) (id : Addr)
        (task : T) (v : Cont)
        → IsOwn owner queue stub id
        → has id tasks ≡ true
        → values id ≡ some task
        → World ext s values
        → Fits tasks ext (lend id 0) id values (t.transform_cont id task s v)
    pub breaks :
        (tasks : List Addr) (ext : Addr → ℕ) (s : S) (values : Addr → Option T) (id : Addr)
        (task : T) (v : Break)
        → IsOwn owner queue stub id
        → values id ≡ some task
        → World ext s values
        → Fits tasks ext (lend id 2) id values (t.transform_break id task s v)
    -- A task that is dropped, and a handle more, do no harm.
    pub drops :
        (ext : Addr → ℕ) (s : S) (values : Addr → Option T) (id : Addr)
        → World ext s values
        → World ext s (update values id none)
    pub gains :
        (ext : Addr → ℕ) (s : S) (values : Addr → Option T) (id : Addr)
        → World ext s values
        → World (update ext id (ext id + 1)) s values

-- Other values and another strategy.
pub valued-IsSelector :
    {T S R C : Type 0} (m : Mem T C) (s : Selector S) (strategy : R) (stub : Addr)
    (gap : Addr → Bool) (ext : Addr → ℕ) (tasks order : List Addr) (values : Addr → Option T)
    → ((a : Addr) → has a tasks ≡ true → (v : T) × (values a ≡ some v))
    → IsSelector m s stub gap ext tasks order
    → IsSelector
        (record m { value = values })
        (record { queue = s.queue; list = s.list; strategy = strategy })
        stub
        gap
        ext
        tasks
        order
valued-IsSelector m s strategy stub gap ext tasks order values filled is = record {
  list =
      IsList-transfer m (record m { value = values }) s.list tasks (λ a i. refl) (λ a i. refl)
        (λ a i h. h) filled is.list;
  queue =
      IsQueue-transfer m (record m { value = values }) s.queue stub gap order refl (λ a i. refl)
        (λ a i. refl) (λ a h. h) is.queue.marked is.queue;
  owned = is.owned;
  real = is.real;
  counted = is.counted;
  unlinked = is.unlinked;
  awake = is.awake;
}

module _ {T S C Cont Break Output : Type 0} ⦃aw : AtomicWaker C⦄ (t : Task T S Cont Break Output)
    (s : Selector S) (stub : Addr) (gap : Addr → Bool) (hand : Addr → ℕ) (tasks : List Addr) where
  pub after_call-IsSelector :
      {A : Type 0} (m : Mem T C) (ext : Addr → ℕ) (order : List Addr) (node : Addr) (old : T)
      (c : Called T S A)
      → IsSelector m s stub gap (λ a. ext a + hand a) tasks order
      → Live m.strong node
      → m.value node ≡ some old
      → Permitted m.queue s.queue.queue stub tasks ext hand c.events
      → (m' : Mem T C) × (added : List Addr) × (after_call t s node c m
          ≡ some ((c.outcome, record s { strategy = c.strategy }), m'))
        × IsSelector m'
            (record s { strategy = c.strategy })
            stub
            gap
            (λ a. handles_after ext c.events a + hand a)
            tasks
            (order ++ added)
        × Ran
            (record m { value = update m.value node (some c.task) })
            m'
            s.queue.queue
            order
            (order ++ added)
  unfolding after_call set_pin get_pin
  after_call-IsSelector m ext order node old c is live filled may =
      let values = update m.value node (some c.task) in
      let set =
        valued-IsSelector m s c.strategy stub gap (λ a. ext a + hand a) tasks order values
          (filled-update m.value tasks node c.task is.list.valued) is in
      let (m', added, run, is', ran) =
        run_events-IsSelector (record s { strategy = c.strategy }) stub gap hand tasks
          (record m { value = values }) ext order c.events set may in
      (m', added, simp (live, filled, run), is', ran)
