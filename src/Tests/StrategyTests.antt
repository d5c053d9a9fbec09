-- ===== src/Tests/StrategyTests.antt =====
-- The strategies (src/task/strategy.rs) at futures and streams on the sample.
use async_selector.Base.{ℕ, ◌+◌, ◌≡◌, refl, Option, some, List, [], ◌∷◌, arith}
use async_selector.Memory.{Addr, Mem}
use async_selector.Strategy.{
  FutureBasic, future_basic, with_future_basic, Result, try_stream_with_id, Future, FutureReclaim,
  future_reclaim, with_future_reclaim, Stream, TryStream, error, StreamWithId, stream_with_id,
  TryStreamWithId, with_stream_with_id, with_try_stream_with_id,
}
use async_selector.Strategy.Handles.{CarefulPoll}
use async_selector.Strategy.Completes.{Completed, future_basic-Completed}
use async_selector.Strategy.TryYields.{TryYielded, try_stream_with_id-TryYielded}
use async_selector.Strategy.Reclaims.{Reclaimed, future_reclaim-Reclaimed}
use async_selector.Strategy.Yields.{Yielded, stream_with_id-Yielded}
use async_selector.Selector.{Selector}
use async_selector.Selector.Loop.{Stays}
use async_selector.Selector.Poll.{Polled, poll_next}
use async_selector.Task.{ready, returned, wake_by_ref}
use async_selector.Tests.Sample.{
  cell, memory, two_nodes, receiver, no_gap, ids, selector-IsSelector,
}

-- Streams that wake themselves and yield their state.
abbrev counter : Stream ℕ ℕ
counter id n = record {
  task = n + 1;
  events = wake_by_ref id ∷ [];
  outcome = returned (ready (some n));
}

abbrev try_counter : TryStream ℕ ℕ ℕ
try_counter id n = record {
  task = n + 1;
  events = wake_by_ref id ∷ [];
  outcome = returned (ready (some (error n)));
}

abbrev EveryWorld : {S : Type 0} → (Addr → ℕ) → S → (Addr → Option ℕ) → Type 0
EveryWorld ext s values = Unit

counter-CarefulPoll : CarefulPoll {S = StreamWithId} memory.queue 10 1 EveryWorld counter
counter-CarefulPoll = record {
  permitted = λ tasks ext s values id task own listed filled world. (
    (
      record {
        present = own.present;
        real = own.real;
        owned = own.owned;
        held = ground arith;
        spent = λ e. cc;
      },
      tt,
    ),
    tt,
  );
  drops = λ ext s values id world. tt;
  gains = λ ext s values id world. tt;
}

try_counter-CarefulPoll : CarefulPoll {S = TryStreamWithId} memory.queue 10 1 EveryWorld try_counter
try_counter-CarefulPoll = record {
  permitted = λ tasks ext s values id task own listed filled world. (
    (
      record {
        present = own.present;
        real = own.real;
        owned = own.owned;
        held = ground arith;
        spent = λ e. cc;
      },
      tt,
    ),
    tt,
  );
  drops = λ ext s values id world. tt;
  gains = λ ext s values id world. tt;
}

-- The sample with other strategies.
abbrev sampled : {S : Type 0} → S → Selector S
sampled strategy = record { queue = receiver; list = two_nodes; strategy = strategy }

sampled-Stays :
    {S : Type 0} (strategy : S)
    → Stays memory.queue 10 1 no_gap EveryWorld memory
        (sampled strategy)
        ids
        (2 ∷ 3 ∷ [])
        (1 ∷ 2 ∷ [])
sampled-Stays strategy = record {
  selector = record {
    list = selector-IsSelector.list;
    queue = selector-IsSelector.queue;
    owned = selector-IsSelector.owned;
    real = selector-IsSelector.real;
    counted = selector-IsSelector.counted;
    unlinked = selector-IsSelector.unlinked;
    awake = selector-IsSelector.awake;
  };
  world = tt;
  owner_kept = refl;
  queue_here = refl;
}

stream_with_id-Yielded_example :
    (result : Polled (Addr × ℕ)) × (s' : Selector StreamWithId) × (m' : Mem ℕ (Option ℕ))
    × (ext' : Addr → ℕ) × (tasks' : List Addr) × (order' : List Addr) × (poll_next
          (with_stream_with_id counter)
          5
          (sampled stream_with_id)
          9
          memory
        ≡ some ((some result, s'), m'))
    × Stays memory.queue 10 1 no_gap EveryWorld m' s' ext' tasks' order'
    × Yielded counter (2 ∷ 3 ∷ []) tasks' memory.value m'.value ext' result
stream_with_id-Yielded_example =
    stream_with_id-Yielded memory.queue 10 1 no_gap EveryWorld counter counter-CarefulPoll 5 memory
      (sampled stream_with_id) 9 ids (2 ∷ 3 ∷ []) (1 ∷ 2 ∷ []) (sampled-Stays stream_with_id)
      (omega arith)

try_stream_with_id-TryYielded_example :
    (result : Polled (Addr × Result ℕ ℕ)) × (s' : Selector TryStreamWithId) × (m' : Mem ℕ
      (Option ℕ))
    × (ext' : Addr → ℕ) × (tasks' : List Addr) × (order' : List Addr) × (poll_next
          (with_try_stream_with_id try_counter)
          5
          (sampled try_stream_with_id)
          9
          memory
        ≡ some ((some result, s'), m'))
    × Stays memory.queue 10 1 no_gap EveryWorld m' s' ext' tasks' order'
    × TryYielded try_counter (2 ∷ 3 ∷ []) tasks' memory.value m'.value ext' result
try_stream_with_id-TryYielded_example =
    try_stream_with_id-TryYielded memory.queue 10 1 no_gap EveryWorld try_counter
      try_counter-CarefulPoll 5 memory (sampled try_stream_with_id) 9 ids (2 ∷ 3 ∷ []) (1 ∷ 2 ∷ [])
      (sampled-Stays try_stream_with_id) (omega arith)

-- A future that is ready at once, with its state.
abbrev at_once : Future ℕ ℕ
at_once id n = record { task = n + 1; events = []; outcome = returned (ready n) }

at_once-CarefulPoll : {S : Type 0} → CarefulPoll {S = S} memory.queue 10 1 EveryWorld at_once
at_once-CarefulPoll = record {
  permitted = λ tasks ext s values id task own listed filled world. (tt, tt);
  drops = λ ext s values id world. tt;
  gains = λ ext s values id world. tt;
}

future_reclaim-Reclaimed_example :
    (result : Polled (Addr × ℕ)) × (s' : Selector FutureReclaim) × (m' : Mem ℕ (Option ℕ))
    × (ext' : Addr → ℕ) × (tasks' : List Addr) × (order' : List Addr) × (poll_next
          (with_future_reclaim at_once)
          5
          (sampled future_reclaim)
          9
          memory
        ≡ some ((some result, s'), m'))
    × Stays memory.queue 10 1 no_gap EveryWorld m' s' ext' tasks' order'
    × Reclaimed at_once (2 ∷ 3 ∷ []) tasks' memory.value m'.value ext' result
future_reclaim-Reclaimed_example =
    future_reclaim-Reclaimed memory.queue 10 1 no_gap EveryWorld at_once at_once-CarefulPoll 5
      memory (sampled future_reclaim) 9 ids (2 ∷ 3 ∷ []) (1 ∷ 2 ∷ []) (sampled-Stays future_reclaim)
      (omega arith)

future_basic-Completed_example :
    (result : Polled ℕ) × (s' : Selector FutureBasic) × (m' : Mem ℕ (Option ℕ)) × (ext' : Addr → ℕ)
    × (tasks' : List Addr) × (order' : List Addr) × (poll_next
          (with_future_basic at_once)
          5
          (sampled future_basic)
          9
          memory
        ≡ some ((some result, s'), m'))
    × Stays memory.queue 10 1 no_gap EveryWorld m' s' ext' tasks' order'
    × Completed at_once (2 ∷ 3 ∷ []) tasks' memory.value m'.value result
future_basic-Completed_example =
    future_basic-Completed memory.queue 10 1 no_gap EveryWorld at_once at_once-CarefulPoll 5 memory
      (sampled future_basic) 9 ids (2 ∷ 3 ∷ []) (1 ∷ 2 ∷ []) (sampled-Stays future_basic)
      (omega arith)
