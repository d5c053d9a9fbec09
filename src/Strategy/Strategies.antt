-- ===== src/Strategy/Strategies.antt =====
-- The strategies of src/task/strategy.rs use only the handles that they have, if the future or the
-- stream does, so that `poll_next` may run them.
use async_selector.Base.{ℕ, ◌+◌, ◌<◌, Option, List, arith}
use async_selector.Memory.{Addr}
use async_selector.Selector.Invariant.{share, share_of_mem}
use async_selector.Selector.Careful.{lend, Fits, Careful}
use async_selector.Strategy.{
  FutureBasic, FutureReclaim, StreamBasic, StreamWithId, StreamReclaim, TryStreamBasic,
  TryStreamWithId, TryStreamReclaim, item_or_end, item_or_error, Future, Stream, TryStream, ok,
  error, error_with_id, with_future_basic, with_future_reclaim, with_stream_basic,
  with_stream_with_id, with_stream_reclaim, with_try_stream_basic, with_try_stream_with_id,
  with_try_stream_reclaim,
}
use async_selector.Task.{break}
use async_selector.Strategy.Handles.{CarefulPoll, polled-Fits, silent-Fits, cloned-Fits}

module _ {F Output : Type 0} (owner : Addr → Addr) (queue stub : Addr)
    (poll : Future F Output) where
  pub future_basic-Careful :
      (World : (Addr → ℕ) → FutureBasic → (Addr → Option F) → Type 0)
      → CarefulPoll owner queue stub World poll
      → Careful owner queue stub World (with_future_basic poll)
  unfolding with_future_basic
  future_basic-Careful World careful = record {
    polls = λ tasks ext s values id task own listed filled world.
        polled-Fits owner queue stub World poll careful tasks ext s values id task own filled world
          break listed;
    continues = λ tasks ext s values id task v. absurd v;
    breaks = λ tasks ext s values id task v own filled world.
        silent-Fits owner queue stub World poll careful tasks ext s values id task own filled world
          2 _;
    drops = careful.drops;
    gains = careful.gains;
  }

  pub future_reclaim-Careful :
      (World : (Addr → ℕ) → FutureReclaim → (Addr → Option F) → Type 0)
      → CarefulPoll owner queue stub World poll
      → Careful owner queue stub World (with_future_reclaim poll)
  unfolding with_future_reclaim
  future_reclaim-Careful World careful = record {
    polls = λ tasks ext s values id task own listed filled world.
        polled-Fits owner queue stub World poll careful tasks ext s values id task own filled world
          break listed;
    continues = λ tasks ext s values id task v. absurd v;
    breaks = λ tasks ext s values id task v own filled world.
        silent-Fits owner queue stub World poll careful tasks ext s values id task own filled world
          2 _;
    drops = careful.drops;
    gains = careful.gains;
  }

module _ {T Item : Type 0} (owner : Addr → Addr) (queue stub : Addr) (poll : Stream T Item) where
  pub stream_basic-Careful :
      (World : (Addr → ℕ) → StreamBasic → (Addr → Option T) → Type 0)
      → CarefulPoll owner queue stub World poll
      → Careful owner queue stub World (with_stream_basic poll)
  unfolding with_stream_basic
  stream_basic-Careful World careful = record {
    polls = λ tasks ext s values id task own listed filled world.
        polled-Fits owner queue stub World poll careful tasks ext s values id task own filled world
          item_or_end listed;
    continues = λ tasks ext s values id task v own listed filled world.
        silent-Fits owner queue stub World poll careful tasks ext s values id task own filled world
          0 _;
    breaks = λ tasks ext s values id task v own filled world.
        silent-Fits owner queue stub World poll careful tasks ext s values id task own filled world
          2 _;
    drops = careful.drops;
    gains = careful.gains;
  }

  pub stream_with_id-Careful :
      (World : (Addr → ℕ) → StreamWithId → (Addr → Option T) → Type 0)
      → CarefulPoll owner queue stub World poll
      → Careful owner queue stub World (with_stream_with_id poll)
  unfolding with_stream_with_id
  stream_with_id-Careful World careful = record {
    polls = λ tasks ext s values id task own listed filled world.
        polled-Fits owner queue stub World poll careful tasks ext s values id task own filled world
          item_or_end listed;
    continues = λ tasks ext s values id task v own listed filled world.
        cloned-Fits owner queue stub World poll careful tasks ext s values id task own filled world
          0 _ (omega (arith, share_of_mem id tasks listed));
    breaks = λ tasks ext s values id task v own filled world.
        silent-Fits owner queue stub World poll careful tasks ext s values id task own filled world
          2 _;
    drops = careful.drops;
    gains = careful.gains;
  }

  pub stream_reclaim-Careful :
      (World : (Addr → ℕ) → StreamReclaim → (Addr → Option T) → Type 0)
      → CarefulPoll owner queue stub World poll
      → Careful owner queue stub World (with_stream_reclaim poll)
  unfolding with_stream_reclaim
  stream_reclaim-Careful World careful = record {
    polls = λ tasks ext s values id task own listed filled world.
        polled-Fits owner queue stub World poll careful tasks ext s values id task own filled world
          item_or_end listed;
    continues = λ tasks ext s values id task v own listed filled world.
        cloned-Fits owner queue stub World poll careful tasks ext s values id task own filled world
          0 _ (omega (arith, share_of_mem id tasks listed));
    breaks = λ tasks ext s values id task v own filled world.
        silent-Fits owner queue stub World poll careful tasks ext s values id task own filled world
          2 _;
    drops = careful.drops;
    gains = careful.gains;
  }

-- A handle of a removed task is lent.
lent_two :
    (ext : Addr → ℕ) (tasks : List Addr) (id : Addr) → 0 < share id tasks + (ext id + lend id 2 id)
lent_two ext tasks id = ground arith

module _ {T Ok Error : Type 0} (owner : Addr → Addr) (queue stub : Addr)
    (poll : TryStream T Ok Error) where
  pub try_stream_basic-Careful :
      (World : (Addr → ℕ) → TryStreamBasic → (Addr → Option T) → Type 0)
      → CarefulPoll owner queue stub World poll
      → Careful owner queue stub World (with_try_stream_basic poll)
  unfolding with_try_stream_basic
  try_stream_basic-Careful World careful = record {
    polls = λ tasks ext s values id task own listed filled world.
        polled-Fits owner queue stub World poll careful tasks ext s values id task own filled world
          item_or_error listed;
    continues = λ tasks ext s values id task v own listed filled world.
        silent-Fits owner queue stub World poll careful tasks ext s values id task own filled world
          0 _;
    breaks = λ tasks ext s values id task v own filled world.
        silent-Fits owner queue stub World poll careful tasks ext s values id task own filled world
          2 _;
    drops = careful.drops;
    gains = careful.gains;
  }

  pub try_stream_with_id-Careful :
      (World : (Addr → ℕ) → TryStreamWithId → (Addr → Option T) → Type 0)
      → CarefulPoll owner queue stub World poll
      → Careful owner queue stub World (with_try_stream_with_id poll)
  unfolding with_try_stream_with_id
  try_stream_with_id-Careful World careful = record {
    polls = λ tasks ext s values id task own listed filled world.
        polled-Fits owner queue stub World poll careful tasks ext s values id task own filled world
          item_or_error listed;
    continues = λ tasks ext s values id task v own listed filled world.
        cloned-Fits owner queue stub World poll careful tasks ext s values id task own filled world
          0 _ (omega (arith, share_of_mem id tasks listed));
    breaks = λ tasks ext s values id task v own filled world.
        elim v
          as (λ k.
            Fits owner queue stub World tasks ext (lend id 2) id values
              (error_with_id {A = Ok} id task s k)) [
                | ok u ↦
                    silent-Fits owner queue stub World poll careful tasks ext s values id task own
                      filled world 2 _
                | error e ↦
                    cloned-Fits owner queue stub World poll careful tasks ext s values id task own
                      filled world 2 _ (lent_two ext tasks id)
              ];
    drops = careful.drops;
    gains = careful.gains;
  }

  pub try_stream_reclaim-Careful :
      (World : (Addr → ℕ) → TryStreamReclaim → (Addr → Option T) → Type 0)
      → CarefulPoll owner queue stub World poll
      → Careful owner queue stub World (with_try_stream_reclaim poll)
  unfolding with_try_stream_reclaim
  try_stream_reclaim-Careful World careful = record {
    polls = λ tasks ext s values id task own listed filled world.
        polled-Fits owner queue stub World poll careful tasks ext s values id task own filled world
          item_or_error listed;
    continues = λ tasks ext s values id task v own listed filled world.
        cloned-Fits owner queue stub World poll careful tasks ext s values id task own filled world
          0 _ (omega (arith, share_of_mem id tasks listed));
    breaks = λ tasks ext s values id task v own filled world.
        silent-Fits owner queue stub World poll careful tasks ext s values id task own filled world
          2 _;
    drops = careful.drops;
    gains = careful.gains;
  }
