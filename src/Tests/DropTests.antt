-- ===== src/Tests/DropTests.antt =====
-- The drop of the sample's selector, and wakeups behind it.
use async_selector.Base.{
  ℕ, ◌≡◌, ◌≢◌, refl, Option, none, some, [], ◌∷◌, arith, if◌then◌else◌, ◌==◌, has, update,
}
use async_selector.Memory.{Addr, Mem}
use async_selector.Memory.Release.{released}
use async_selector.Queue.Drop.{drop_queue, drop_queue_lem}
use async_selector.Selector.{run_events}
use async_selector.Selector.Drop.{drop_selector, drop_selector_lem}
use async_selector.Selector.Leftover.{IsLeft, Silent, run_events-IsLeft}
use async_selector.Task.{clone, wake, wake_by_ref}
use async_selector.Tests.Sample.{
  cell, memory, selector, no_gap, ids, receiver-IsQueue, selector-IsSelector, receiver,
}

drop_queue_lem_example :
    (strong : Addr → ℕ) × (drop_queue 2 10 memory
      ≡ some (tt, record memory { strong = strong; queues = update memory.queues 10 none }))
    × ((a : Addr) → a ≢ 1 → strong a ≡ released memory.strong (1 ∷ 2 ∷ []) a)
    × (strong 1 ≡ 0)
drop_queue_lem_example =
    drop_queue_lem 1 no_gap (λ a. refl) memory receiver (1 ∷ 2 ∷ []) receiver-IsQueue

drop_selector_lem_example :
    (m' : Mem ℕ (Option ℕ)) × (drop_selector 2 2 selector memory ≡ some (tt, m'))
    × ((a : Addr) → a ≢ 1 → memory.queue a ≡ 10 → m'.strong a ≡ ids a)
    × ((a : Addr) → m'.value a ≡ (if has a (2 ∷ 3 ∷ []) then none else memory.value a))
    × (m'.queue ≡ memory.queue)
    × (m'.queues 10 ≡ none)
drop_selector_lem_example =
    drop_selector_lem memory selector 1 no_gap ids (2 ∷ 3 ∷ []) (1 ∷ 2 ∷ []) selector-IsSelector
      (λ a. refl)

-- The sample without its selector: the ids are left.
abbrev left : Mem ℕ (Option ℕ)
left = record memory {
  strong = λ a. if a == 1 then 0 else ids a;
  value = λ a. none;
  queues = λ a. none;
}

left-IsLeft : IsLeft left 10 1 ids
left-IsLeft = record { gone = refl; counted = λ a real own. ground arith }

run_events-IsLeft_example :
    (m' : Mem ℕ (Option ℕ)) × (run_events (clone 3 ∷ wake 3 ∷ wake_by_ref 2 ∷ []) left
      ≡ some (tt, m'))
    × IsLeft m' 10 1 (update (update ids 3 2) 3 1)
    × Silent left m'
run_events-IsLeft_example =
    run_events-IsLeft 10 1 left ids (clone 3 ∷ wake 3 ∷ wake_by_ref 2 ∷ []) left-IsLeft (
      record {
        present = λ e. omega arith;
        real = λ e. omega arith;
        owned = refl;
        held = omega arith;
        spent = λ e. cc;
      },
      (
        record {
          present = λ e. omega arith;
          real = λ e. omega arith;
          owned = refl;
          held = omega arith;
          spent = λ e. omega arith;
        },
        (
          record {
            present = λ e. omega arith;
            real = λ e. omega arith;
            owned = refl;
            held = omega arith;
            spent = λ e. cc;
          },
          tt,
        ),
      ),
    )
