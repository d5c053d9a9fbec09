-- ===== src/Queue/Transfer.antt =====
-- A queue in another memory, which agrees on its nodes.
use async_selector.Base.{◌≡◌, ◌≢◌, refl, ap, ◌∙◌, Bool, true, List, has}
use async_selector.Memory.{Addr, Mem, Live}
use async_selector.Queue.{Receiver}
use async_selector.Queue.Order.{IsQueue}
use async_selector.Queue.Chain.{Chain-congr}

pub IsQueue-transfer :
    {T C : Type 0} (m m' : Mem T C) (r : Receiver) (stub : Addr) (gap : Addr → Bool)
    (order : List Addr)
    → m'.queues ≡ m.queues
    → ((a : Addr) → has a order ≡ true → m'.next_enqueued a ≡ m.next_enqueued a)
    → ((a : Addr) → has a order ≡ true → m'.queue a ≡ m.queue a)
    → ((a : Addr) → Live m.strong a → Live m'.strong a)
    → ((a : Addr) → has a order ≡ true → a ≢ stub → m'.is_enqueued a ≡ true)
    → IsQueue m r stub gap order
    → IsQueue m' r stub gap order
IsQueue-transfer m m' r stub gap order same_queues same_links same_owner live marked is = record {
  waker = is.waker;
  found = ap (λ f. f r.queue) same_queues ∙ is.found;
  chain =
      Chain-congr m.next_enqueued m'.next_enqueued gap gap order (λ a i. (same_links a i, refl))
        is.chain;
  settled = is.settled;
  gaps = is.gaps;
  distinct = is.distinct;
  live = λ a i. live a (is.live a i);
  stub_live = live stub is.stub_live;
  filled = is.filled;
  owned = λ a i e. same_owner a i ∙ is.owned a i e;
  marked = marked;
  behind = is.behind;
}
