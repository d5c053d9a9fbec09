-- ===== src/Tests/PollTests.antt =====
-- Wakeups and `poll_next` (src/selector.rs) on the sample, with a task that wakes itself whenever it
-- is polled.
use async_selector.Base.{
  subst, fun_ext, ℕ, ◌+◌, ◌≡◌, refl, Option, none, some, List, [], ◌∷◌, arith, true, update,
}
use async_selector.Memory.{Addr, Mem}
use async_selector.Queue.{enqueue_by_ref}
use async_selector.Queue.Wake.{Wakes}
use async_selector.Selector.{Selector, wake_all, run_event, run_events}
use async_selector.Selector.Invariant.{IsSelector}
use async_selector.Selector.Wake.{wake-IsSelector}
use async_selector.Selector.WakeAll.{wake_all-IsSelector}
use async_selector.Selector.Events.{run_event-IsSelector, run_events-IsSelector}
use async_selector.Selector.Ran.{Ran}
use async_selector.Selector.Permits.{Permits}
use async_selector.Selector.Careful.{Careful}
use async_selector.Selector.Loop.{Stays}
use async_selector.Selector.Poll.{poll_next}
use async_selector.Selector.Polling.{Returns, poll_next-Returns}
use async_selector.Selector.Serve.{view}
use async_selector.Selector.Shows.{Serves}
use async_selector.Selector.Served.{poll_next-serve}
use async_selector.Selector.Trace.{poll_nodes}
use async_selector.Selector.Rounded.{Rounded}
use async_selector.Task.{Task, pending, clone, wake, wake_by_ref, returned}
use async_selector.Tests.Sample.{
  cell, memory, selector, no_gap, ids, selector-IsSelector, node_3-IsMember,
}

abbrev busy_task : Task ℕ ℕ ℕ ℕ ℕ
busy_task = record {
  poll_progress = λ id task s. record {
    task = task + 1;
    strategy = s;
    events = wake_by_ref id ∷ [];
    outcome = returned pending;
  };
  transform_cont =
      λ id task s v. record { task = task; strategy = s; events = []; outcome = returned none };
  transform_break = λ id task s v. record {
    task = task;
    strategy = s;
    events = [];
    outcome = returned (record { output = some v; keeps = true });
  };
}

abbrev AnyWorld : (Addr → ℕ) → ℕ → (Addr → Option ℕ) → Type 0
AnyWorld ext s values = Unit

busy_task-Careful : Careful memory.queue 10 1 AnyWorld busy_task
busy_task-Careful = record {
  polls = λ tasks ext s values id task own listed filled world. record {
    permitted = (
      record {
        present = own.present;
        real = own.real;
        owned = own.owned;
        held = ground arith;
        spent = λ e. cc;
      },
      tt,
    );
    world = tt;
  };
  continues =
      λ tasks ext s values id task v own listed filled world. record { permitted = tt; world = tt };
  breaks = λ tasks ext s values id task v own filled world. record { permitted = tt; world = tt };
  drops = λ ext s values id world. tt;
  gains = λ ext s values id world. tt;
}

selector-Stays :
    Stays memory.queue 10 1 no_gap AnyWorld memory selector ids (2 ∷ 3 ∷ []) (1 ∷ 2 ∷ [])
selector-Stays = record {
  selector = selector-IsSelector;
  world = tt;
  owner_kept = refl;
  queue_here = refl;
}

poll_next-Returns_example :
    Returns memory.queue 10 1 no_gap AnyWorld busy_task busy_task-Careful
      (poll_next busy_task 5 selector 9 memory)
poll_next-Returns_example =
    poll_next-Returns memory.queue 10 1 no_gap AnyWorld busy_task busy_task-Careful 5 memory
      selector 9 ids (2 ∷ 3 ∷ []) (1 ∷ 2 ∷ []) selector-Stays (omega arith)

poll_next-serve_example :
    Serves memory.queue 10 1 no_gap AnyWorld busy_task busy_task-Careful
      (poll_next busy_task 5 selector 9 memory)
      (poll_nodes busy_task 5 selector 9 memory)
      (view selector memory ids (2 ∷ 3 ∷ []))
poll_next-serve_example =
    poll_next-serve memory.queue 10 1 no_gap AnyWorld busy_task busy_task-Careful 5 memory selector
      9 ids (2 ∷ 3 ∷ []) (1 ∷ 2 ∷ []) selector-Stays (omega arith)

wake-IsSelector_example :
    (m' : Mem ℕ (Option ℕ)) × (enqueue_by_ref 3 memory ≡ some (tt, m'))
    × IsSelector m' selector 1 no_gap ids (2 ∷ 3 ∷ []) (1 ∷ 2 ∷ 3 ∷ [])
    × Wakes memory m' 10 3 (update memory.strong 3 3)
wake-IsSelector_example =
    wake-IsSelector memory selector 1 no_gap ids (2 ∷ 3 ∷ []) (1 ∷ 2 ∷ []) selector-IsSelector 3
      node_3-IsMember

wake_all-IsSelector_example :
    (m' : Mem ℕ (Option ℕ)) × (wake_all selector memory ≡ some (tt, m'))
    × IsSelector m' selector 1 no_gap ids (2 ∷ 3 ∷ []) (1 ∷ 2 ∷ 3 ∷ [])
wake_all-IsSelector_example =
    wake_all-IsSelector selector 1 no_gap ids memory (2 ∷ 3 ∷ []) (1 ∷ 2 ∷ []) selector-IsSelector

-- Of the two handles of each node one is lent.
abbrev none_lent : Addr → ℕ
none_lent a = 0

lent-IsSelector :
    IsSelector memory selector 1 no_gap (λ a. ids a + none_lent a) (2 ∷ 3 ∷ []) (1 ∷ 2 ∷ [])
lent-IsSelector =
    subst (λ f. IsSelector memory selector 1 no_gap f (2 ∷ 3 ∷ []) (1 ∷ 2 ∷ []))
      (fun_ext λ a. ground arith) selector-IsSelector

clone_3-Permits : Permits memory.queue 10 1 (2 ∷ 3 ∷ []) ids none_lent (clone 3)
clone_3-Permits = record {
  present = λ e. omega arith;
  real = λ e. omega arith;
  owned = refl;
  held = omega arith;
  spent = λ e. cc;
}

wake_3-Permits : Permits memory.queue 10 1 (2 ∷ 3 ∷ []) (update ids 3 2) none_lent (wake 3)
wake_3-Permits = record {
  present = λ e. omega arith;
  real = λ e. omega arith;
  owned = refl;
  held = omega arith;
  spent = λ e. omega arith;
}

run_event-IsSelector_example :
    (m' : Mem ℕ (Option ℕ)) × (run_event (clone 3) memory ≡ some (tt, m'))
    × IsSelector m' selector 1 no_gap
        (λ a. update ids 3 2 a + none_lent a)
        (2 ∷ 3 ∷ [])
        (1 ∷ 2 ∷ [])
    × Ran memory m' 10 (1 ∷ 2 ∷ []) (1 ∷ 2 ∷ [])
run_event-IsSelector_example =
    run_event-IsSelector selector 1 no_gap none_lent (2 ∷ 3 ∷ []) memory ids (1 ∷ 2 ∷ []) (clone 3)
      lent-IsSelector clone_3-Permits

run_events-IsSelector_example :
    (m' : Mem ℕ (Option ℕ)) × (added : List Addr) × (run_events (clone 3 ∷ wake 3 ∷ []) memory
      ≡ some (tt, m'))
    × IsSelector m' selector 1 no_gap
        (λ a. update (update ids 3 2) 3 1 a + none_lent a)
        (2 ∷ 3 ∷ [])
        (1 ∷ 2 ∷ added)
    × Ran memory m' 10 (1 ∷ 2 ∷ []) (1 ∷ 2 ∷ added)
run_events-IsSelector_example =
    run_events-IsSelector selector 1 no_gap none_lent (2 ∷ 3 ∷ []) memory ids (1 ∷ 2 ∷ [])
      (clone 3 ∷ wake 3 ∷ []) lent-IsSelector (clone_3-Permits, (wake_3-Permits, tt))
