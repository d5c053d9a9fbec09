-- ===== src/Task.antt =====
-- src/task.rs: what the selector asks of a task, and the implementations for borrowed and boxed
-- strategies. The code of a task is the user's: here it is a function on values, which also says
-- what it did with wakers while it ran, and whether it panicked.
use async_selector.Base.{Bool, Option, List}
use async_selector.Memory.{Addr}

-- `std::task::Poll`
pub data Poll (A : Type 0) : Type 0 where
  ready : A → Poll A
  pending : Poll A

-- `std::ops::ControlFlow`
pub data ControlFlow (B C : Type 0) : Type 0 where
  continue : C → ControlFlow B C
  break : B → ControlFlow B C

-- What user code does to the nodes of the selector through `Waker`s and `Id`s: the entries of the
-- waker's table, of which `clone` and `drop` also serve `Id`, and `wake_by_ref` serves `Id::wake`.
pub data Event : Type 0 where
  clone : Addr → Event
  wake : Addr → Event
  wake_by_ref : Addr → Event
  drop : Addr → Event

-- The end of a call of user code.
pub data Outcome (A : Type 0) : Type 0 where
  returned : A → Outcome A
  panicked : Outcome A

-- A call of user code that may change the task and the strategy.
pub record Called (T S A : Type 0) : Type 0 where
  pub task : T
  pub strategy : S
  pub events : List Event
  pub outcome : Outcome A

-- The output of `transform_break`, which owns the removed task: `keeps` says that it is kept, inside
-- the output or elsewhere. If not it is dropped.
pub record Finished (A : Type 0) : Type 0 where
  pub output : Option A
  pub keeps : Bool

-- `trait Task<S>`, with its types `Cont`, `Break` and `Output`. The address is the task's `Id`.
pub record Task (T S Cont Break Output : Type 0) : Type 0 where
  pub poll_progress : Addr → T → S → Called T S (Poll (ControlFlow Break Cont))
  pub transform_cont : Addr → T → S → Cont → Called T S (Option Output)
  pub transform_break : Addr → T → S → Break → Called T S (Finished Output)

-- `&mut S` and `Box<S>`, as the place that holds the strategy.
pub record Held (S : Type 0) : Type 0 where
  pub inner : S

unfoldable pub hold : {T S A : Type 0} → Called T S A → Called T (Held S) A
hold c = record {
  task = c.task;
  strategy = record { inner = c.strategy };
  events = c.events;
  outcome = c.outcome;
}

-- `impl Task<&mut S> for T` and `impl Task<Box<S>> for T`
unfoldable pub held :
    {T S Cont Break Output : Type 0}
    → Task T S Cont Break Output
    → Task T (Held S) Cont Break Output
unfolding hold
held t = record {
  poll_progress = λ id task s. hold (t.poll_progress id task s.inner);
  transform_cont = λ id task s v. hold (t.transform_cont id task s.inner v);
  transform_break = λ id task s v. hold (t.transform_break id task s.inner v);
}
