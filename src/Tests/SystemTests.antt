-- ===== src/Tests/SystemTests.antt =====
-- Producers and the receiver on the sample's queue: the node at 3 is published, and the receiver runs
-- before it is linked.
use async_selector.Base.{
  ◌+◌, ◌<◌, ◌≢◌, ◌==◌, if◌then◌else◌, share, ◌≡◌, refl, ℕ, Option, none, some, List, [], ◌∷◌, ◌++◌,
  arith,
}
use async_selector.Memory.{Addr, Mem, is_live, clone_arc, drop_arc}
use async_selector.Queue.{
  Receiver, swap_is_enqueued, create, publish, link, dequeue, into_inner, register_waker, wake,
  dequeue_from, pop,
}
use async_selector.Queue.System.{
  nobody, producer, taker, System, borrower, allocate, discard, busy, release, claim, join, connect,
  miss, take, Reach, here, next,
}
use async_selector.Queue.System.Owners.{in_hand}
use async_selector.Queue.System.Holds.{Holds}
use async_selector.Queue.System.Interleaved.{Answers, Runs, Reach-Fifo, Reach-Runs}
use async_selector.Tests.Sample.{cell, memory, receiver, receiver-IsQueue}

abbrev at_start : System ℕ (Option ℕ)
at_start = record {
  mem = memory;
  receiver = receiver;
  holder = λ a. nobody;
  handles = λ a. if a == 2 then 2 else (if a == 3 then 2 else (if a == 4 then 1 else 0));
  pending = λ a. none;
  joined = 2 ∷ [];
  handed = [];
}

at_start-Holds : Holds 10 1 at_start (1 ∷ 2 ∷ [])
at_start-Holds = record {
  is = receiver-IsQueue;
  queue_here = refl;
  away = λ a held. absurd held;
  adjacent = λ a b e. cc;
  owners = record {
    counted = λ a real own. ground arith;
    present = λ a i. ground arith;
    real = λ a i. ground arith;
    owned = λ a i. ground arith;
  };
  history = refl;
}

-- The node at 3 is claimed and published, a `dequeue` runs in between, the node is linked and that at
-- 2 is taken, which is kept and then dropped; the flag of the node at 3 is found set, and a node is
-- allocated.
abbrev steps : (u : System ℕ (Option ℕ)) × Reach 10 1 at_start u
unfolding is_live publish link wake dequeue dequeue_from pop into_inner drop_arc create
steps = (
  _,
  next
      (next
        (next
          (next
            (next
              (next
                (next (next (next here (claim 3 _ (omega arith) refl)) (join 3 2 _ refl refl))
                  (miss _ _ refl))
                (connect 2 3 _ refl refl))
              (take 2 _ _ refl))
            (release 2 _ refl refl))
          (discard 2 _ (omega arith) refl))
        (busy 3 _ (omega arith) refl))
      (allocate 5 (record { next = 0; prev = 0; value = some 50 }) _ (λ e. omega arith) refl refl),
)

Reach-Fifo_example :
    (waiting : List Addr) × (steps.0.joined ≡ steps.0.handed ++ waiting)
    × (x : Option Addr) × (r : Receiver) × (m : Mem ℕ (Option ℕ)) × (dequeue steps.0.receiver
          steps.0.mem
        ≡ some ((x, r), m))
    × Answers 10 1 steps.0 waiting x
Reach-Fifo_example = Reach-Fifo 10 1 at_start steps.0 (1 ∷ 2 ∷ []) at_start-Holds steps.1

Reach-Runs_example :
    ((node : Addr)
      → 0 < steps.0.handles node
      → Runs (clone_arc node steps.0.mem)
        × Runs (drop_arc node steps.0.mem)
        × Runs (swap_is_enqueued node steps.0.mem))
    × ((node : Addr) → steps.0.holder node ≡ borrower → Runs (clone_arc node steps.0.mem))
    × ((node : Addr) → steps.0.holder node ≡ producer → Runs (publish 10 node steps.0.mem))
    × ((head node : Addr) → steps.0.pending head ≡ some node → Runs (link 10 head node steps.0.mem))
    × Runs (dequeue steps.0.receiver steps.0.mem)
    × ((node : Addr)
        → steps.0.holder node ≡ taker
        → Runs (into_inner node steps.0.mem) × Runs (drop_arc node steps.0.mem))
    × ((w : ℕ) → Runs (register_waker steps.0.receiver w steps.0.mem))
    × (waiting : List Addr) × (steps.0.joined ≡ steps.0.handed ++ waiting)
    × ((node : Addr)
        → node ≢ 1
        → steps.0.mem.queue node ≡ 10
        → steps.0.mem.strong node
          ≡ share node waiting + in_hand (steps.0.holder node) + steps.0.handles node)
Reach-Runs_example = Reach-Runs 10 1 at_start steps.0 (1 ∷ 2 ∷ []) at_start-Holds steps.1
