-- ===== src/Strategy.antt =====
-- src/task/strategy.rs: the strategies, and for each the implementation of `Task` over a future, a
-- stream or a fallible stream. An `Id` and a `Removed` are the address of their node.
pub mod Handles
pub mod Strategies
pub mod Yields
pub mod Reclaims
pub mod Completes
pub mod TryYields
use async_selector.Base.{true, false, Option, none, some, List, [], ◌∷◌}
use async_selector.Memory.{Addr}
use async_selector.Task.{
  Task, Poll, ready, pending, ControlFlow, continue, break, Event, clone, Outcome, returned,
  panicked, Called, Finished,
}

-- `std::result::Result`
pub data Result (A E : Type 0) : Type 0 where
  ok : A → Result A E
  error : E → Result A E

-- A call of `poll`, `poll_next` or `try_poll_next`, which know no strategy.
pub record Progress (T A : Type 0) : Type 0 where
  pub task : T
  pub events : List Event
  pub outcome : Outcome (Poll A)

-- `futures::Future`, `Stream` and `TryStream`: the code of the user, by the node of its waker.
abbrev pub Future : (F Output : Type 0) → Type 0
Future F Output = Addr → F → Progress F Output

abbrev pub Stream : (T Item : Type 0) → Type 0
Stream T Item = Addr → T → Progress T (Option Item)

abbrev pub TryStream : (T Ok Error : Type 0) → Type 0
TryStream T Ok Error = Addr → T → Progress T (Option (Result Ok Error))

-- The strategies are unit structs.
pub data FutureBasic : Type 0 where
  future_basic : FutureBasic

pub data FutureReclaim : Type 0 where
  future_reclaim : FutureReclaim

pub data StreamBasic : Type 0 where
  stream_basic : StreamBasic

pub data StreamWithId : Type 0 where
  stream_with_id : StreamWithId

pub data StreamReclaim : Type 0 where
  stream_reclaim : StreamReclaim

pub data TryStreamBasic : Type 0 where
  try_stream_basic : TryStreamBasic

pub data TryStreamWithId : Type 0 where
  try_stream_with_id : TryStreamWithId

pub data TryStreamReclaim : Type 0 where
  try_stream_reclaim : TryStreamReclaim

-- `Poll::map` and `ready!`, through the unwinding of a panic.
abbrev pub map_outcome : {A B : Type 0} → (A → B) → Outcome (Poll A) → Outcome (Poll B)
map_outcome f panicked = panicked
map_outcome f (returned pending) = returned pending
map_outcome f (returned (ready a)) = returned (ready (f a))

abbrev pub map_progress : {T S A B : Type 0} → (A → B) → Progress T A → S → Called T S (Poll B)
map_progress f p s = record {
  task = p.task;
  strategy = s;
  events = p.events;
  outcome = map_outcome f p.outcome;
}

-- A transformation that leaves the task and the strategy alone.
abbrev pub transformed : {T S A : Type 0} → T → S → List Event → A → Called T S A
transformed task s events a = record {
  task = task;
  strategy = s;
  events = events;
  outcome = returned a;
}

-- `transform_break` with the task dropped, or moved into the output.
abbrev pub dropping : {T S A : Type 0} → T → S → Option A → Called T S (Finished A)
dropping task s o = transformed task s [] (record { output = o; keeps = false })

abbrev pub keeping : {T S A : Type 0} → T → S → A → Called T S (Finished A)
keeping task s a = transformed task s [] (record { output = some a; keeps = true })

-- `Some(item)` goes on, `None` ends the stream.
abbrev pub item_or_end : {A : Type 0} → Option A → ControlFlow (Unit {0}) A
item_or_end none = break tt
item_or_end (some a) = continue a

abbrev pub item_or_error :
    {A E : Type 0} → Option (Result A E) → ControlFlow (Result (Unit {0}) E) A
item_or_error none = break (ok tt)
item_or_error (some (ok a)) = continue a
item_or_error (some (error e)) = break (error e)

-- `value.err().map(Err)`
abbrev pub error_of : {A E : Type 0} → Result (Unit {0}) E → Option (Result A E)
error_of (ok u) = none
error_of (error e) = some (error e)

-- `impl Task<FutureBasic> for F`
unfoldable pub with_future_basic :
    {F Output : Type 0} → Future F Output → Task F FutureBasic ⊥ Output Output
with_future_basic poll = record {
  poll_progress = λ id task s. map_progress break (poll id task) s;
  transform_cont = λ id task s v. absurd v;
  transform_break = λ id task s v. dropping task s (some v);
}

-- `impl Task<FutureReclaim> for F`
unfoldable pub with_future_reclaim :
    {F Output : Type 0} → Future F Output → Task F FutureReclaim ⊥ Output (Addr × Output)
with_future_reclaim poll = record {
  poll_progress = λ id task s. map_progress break (poll id task) s;
  transform_cont = λ id task s v. absurd v;
  transform_break = λ id task s v. keeping task s (id, v);
}

module _ {T Item : Type 0} (poll_next : Stream T Item) where
  -- `impl Task<StreamBasic> for S`
  unfoldable pub with_stream_basic : Task T StreamBasic Item (Unit {0}) Item
  with_stream_basic = record {
    poll_progress = λ id task s. map_progress item_or_end (poll_next id task) s;
    transform_cont = λ id task s v. transformed task s [] (some v);
    transform_break = λ id task s v. dropping task s none;
  }

  -- `impl Task<StreamWithId> for S`
  unfoldable pub with_stream_with_id : Task T StreamWithId Item (Unit {0}) (Addr × Item)
  with_stream_with_id = record {
    poll_progress = λ id task s. map_progress item_or_end (poll_next id task) s;
    transform_cont = λ id task s v. transformed task s (clone id ∷ []) (some (id, v));
    transform_break = λ id task s v. dropping task s none;
  }

  -- `impl Task<StreamReclaim> for S`
  unfoldable pub with_stream_reclaim :
      Task T StreamReclaim Item (Unit {0}) (ControlFlow Addr (Addr × Item))
  with_stream_reclaim = record {
    poll_progress = λ id task s. map_progress item_or_end (poll_next id task) s;
    transform_cont = λ id task s v. transformed task s (clone id ∷ []) (some (continue (id, v)));
    transform_break = λ id task s v. keeping task s (break id);
  }

-- The end of a stream that names its task in an error.
abbrev pub error_with_id :
    {T A E : Type 0}
    → Addr
    → T
    → TryStreamWithId
    → Result (Unit {0}) E
    → Called T TryStreamWithId (Finished (Addr × Result A E))
error_with_id id task s (ok u) = dropping task s none
error_with_id id task s (error e) =
    transformed task s (clone id ∷ []) (record { output = some (id, error e); keeps = false })

module _ {T Ok Error : Type 0} (try_poll_next : TryStream T Ok Error) where
  -- `impl Task<TryStreamBasic> for S`
  unfoldable pub with_try_stream_basic :
      Task T TryStreamBasic Ok (Result (Unit {0}) Error) (Result Ok Error)
  with_try_stream_basic = record {
    poll_progress = λ id task s. map_progress item_or_error (try_poll_next id task) s;
    transform_cont = λ id task s v. transformed task s [] (some (ok v));
    transform_break = λ id task s v. dropping task s (error_of v);
  }

  -- `impl Task<TryStreamWithId> for S`
  unfoldable pub with_try_stream_with_id :
      Task T TryStreamWithId Ok (Result (Unit {0}) Error) (Addr × Result Ok Error)
  with_try_stream_with_id = record {
    poll_progress = λ id task s. map_progress item_or_error (try_poll_next id task) s;
    transform_cont = λ id task s v. transformed task s (clone id ∷ []) (some (id, ok v));
    transform_break = λ id task s v. error_with_id id task s v;
  }

  -- `impl Task<TryStreamReclaim> for S`
  unfoldable pub with_try_stream_reclaim :
      Task T TryStreamReclaim Ok
        (Result (Unit {0}) Error)
        (ControlFlow (Addr × Result (Unit {0}) Error) (Addr × Ok))
  with_try_stream_reclaim = record {
    poll_progress = λ id task s. map_progress item_or_error (try_poll_next id task) s;
    transform_cont = λ id task s v. transformed task s (clone id ∷ []) (some (continue (id, v)));
    transform_break = λ id task s v. keeping task s (break (id, v));
  }
