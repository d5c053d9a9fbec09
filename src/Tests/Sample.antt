-- ===== src/Tests/Sample.antt =====
-- The sample: a cell for one waker, a memory with a selector in it, and that they are well-formed.
use async_selector.Base.{
  ℕ, refl, Bool, true, false, Option, none, some, [], ◌∷◌, arith, ◌==◌, if◌then◌else◌,
}
use async_selector.Memory.{Addr, Mem, is_live, Live}
use async_selector.Queue.{AtomicWaker, Receiver}
use async_selector.Queue.Order.{IsQueue}
use async_selector.Queue.Publish.{MayPublish}
use async_selector.Queue.Flag.{IsMember}
use async_selector.NodeList.{NodeList}
use async_selector.NodeList.Invariant.{IsList}
use async_selector.NodeList.Cursor.{Cursor}
use async_selector.NodeList.Cursor.Place.{IsCursor}
use async_selector.Selector.{Selector}
use async_selector.Selector.Invariant.{IsSelector}
use async_selector.Selector.Push.{IsFresh}

-- A waker cell that keeps the last waker.
instance pub cell : AtomicWaker (Option ℕ)
cell = record {
  empty = none;
  register = λ w c. some w;
  take = λ c. (none, c);
  take-register = λ w c. refl;
}

abbrev pub memory : Mem ℕ (Option ℕ)
memory = record {
  strong = λ a.
      if a == 1
      then 1
      else (if a == 2 then 3 else (if a == 3 then 2 else (if a == 4 then 1 else 0)));
  queue = λ a. if a == 2 then 10 else (if a == 3 then 10 else (if a == 4 then 10 else 0));
  is_enqueued = λ a. if a == 2 then true else a == 4;
  next_enqueued = λ a. if a == 1 then 2 else 0;
  next = λ a. if a == 2 then 3 else (if a == 3 then 2 else 0);
  prev = λ a. if a == 2 then 3 else (if a == 3 then 2 else 0);
  value = λ a. if a == 2 then some 20 else (if a == 3 then some 30 else none);
  queues =
      λ a. if a == 10 then some (record { waker = some 7; head = 2; tail = 1; stub = 1 }) else none;
  woken = [];
}

abbrev pub two_nodes : NodeList
two_nodes = record { front = 2; len = 2 }

abbrev pub receiver : Receiver
receiver = record { queue = 10; stub_predecessor = 0 }

abbrev pub selector : Selector ℕ
selector = record { queue = receiver; list = two_nodes; strategy = 0 }

abbrev pub no_gap : Addr → Bool
no_gap a = false

-- An `Id` of each node.
abbrev pub ids : Addr → ℕ
ids a = if a == 2 then 1 else (if a == 3 then 1 else (if a == 4 then 1 else 0))

pub two_nodes-IsList : IsList memory two_nodes (2 ∷ 3 ∷ [])
unfolding is_live
two_nodes-IsList = record {
  forward = (refl, (refl, tt));
  backward = (refl, (refl, tt));
  distinct = (refl, (refl, tt));
  live = λ a i. ground arith;
  valued = λ a i. (if a == 2 then 20 else 30, ground arith);
  front = refl;
  count = refl;
}

pub receiver-IsQueue : IsQueue memory receiver 1 no_gap (1 ∷ 2 ∷ [])
unfolding is_live
receiver-IsQueue = record {
  waker = some 7;
  found = refl;
  chain = (refl, (refl, tt));
  settled = refl;
  gaps = λ a g. ground arith;
  distinct = (refl, (refl, tt));
  live = λ a i. ground arith;
  stub_live = refl;
  filled = λ e. cc;
  owned = λ a i ne. ground arith;
  marked = λ a i ne. ground arith;
  behind = λ e. ground arith;
}

pub selector-IsSelector : IsSelector memory selector 1 no_gap ids (2 ∷ 3 ∷ []) (1 ∷ 2 ∷ [])
unfolding is_live
selector-IsSelector = record {
  list = two_nodes-IsList;
  queue = receiver-IsQueue;
  owned = λ a i. ground arith;
  real = refl;
  counted = λ a real own. ground arith;
  unlinked = λ a real own live out. ground arith;
  awake = λ a i on. ground arith;
}

pub node_3-IsMember : IsMember memory receiver 1 3
unfolding is_live
node_3-IsMember = record { live = refl; real = λ e. omega arith; owned = refl }

-- The node at 4 is between the swap of its flag and its enqueueing.
pub node_4-MayPublish : MayPublish memory receiver 1 no_gap (1 ∷ 2 ∷ []) 4
unfolding is_live
node_4-MayPublish = record {
  live = refl;
  out = refl;
  real = λ e. omega arith;
  owned = refl;
  marked = refl;
}

pub node_4-Live : Live memory.strong 4
unfolding is_live
node_4-Live = refl

pub node_5-IsFresh : IsFresh memory ids 5
node_5-IsFresh = record { ne_null = λ e. omega arith; unused = refl; unheld = refl }

-- Cursors before the two nodes, and behind them.
abbrev pub start : Cursor
start = record { front = 2; back = 3; popped = 0; list = two_nodes }

pub start-IsCursor : IsCursor memory start [] (2 ∷ 3 ∷ []) []
start-IsCursor = record { list = two_nodes-IsList; popped = refl; front = refl; back = refl }

abbrev pub done : Cursor
done = record { front = 2; back = 3; popped = 2; list = two_nodes }

pub done-IsCursor : IsCursor memory done (2 ∷ 3 ∷ []) [] []
done-IsCursor = record { list = two_nodes-IsList; popped = refl; front = refl; back = refl }
