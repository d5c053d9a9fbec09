-- ===== src/Queue/Publish.antt =====
-- The first step of `enqueue_inner` of src/queue.rs: the node becomes the head, behind a gap.
use mathlib.Core.Path.{ap₂}
use async_selector.Base.{
  has-left, ◌≡◌, ◌≢◌, refl, sym, ◌∙◌, Bool, true, false, some, List, [], ◌∷◌, ◌++◌, arith, first,
  last, last-append, has, has-last, has-append, ne_of_has, append-Distinct, update, update_self,
  update_ne, eq→==,
}
use async_selector.Memory.{Addr, null, Mem, Live}
use async_selector.Queue.{Receiver, publish}
use async_selector.Queue.Order.{IsQueue}
use async_selector.Queue.Chain.{Chain-snoc}

-- The last node of a queue is one of its nodes.
last-mem : (xs : List Addr) → ((xs ≡ []) → ⊥) → has (last xs null) xs ≡ true
last-mem [] h = absurd (h refl)
last-mem (x ∷ xs) h = has-last x xs

first-snoc :
    (xs : List Addr) (n : Addr) → ((xs ≡ []) → ⊥) → first (xs ++ n ∷ []) null ≡ first xs null
first-snoc [] n h = absurd (h refl)
first-snoc (x ∷ xs) n h = refl

snoc-ne_nil : (xs : List Addr) (n : Addr) → (xs ++ n ∷ [] ≡ []) → ⊥
snoc-ne_nil [] n e = cc
snoc-ne_nil (x ∷ xs) n e = cc

gap-mem :
    (gap : Addr → Bool) (order : List Addr) (b a : Addr)
    → has b order ≡ true
    → (gap a ≡ true → has a order ≡ true)
    → update gap b true a ≡ true
    → has a order ≡ true
gap-mem gap order b a i h e = ground arith

pub gap-mem_filled :
    (gap : Addr → Bool) (order : List Addr) (b a : Addr)
    → (gap a ≡ true → has a order ≡ true)
    → update gap b false a ≡ true
    → has a order ≡ true
gap-mem_filled gap order b a h e = ground arith

pub settled_filled : (gap : Addr → Bool) (b a : Addr) → gap a ≡ false → update gap b false a ≡ false
settled_filled gap b a e = ground arith

module _ {T C : Type 0} (m : Mem T C) (r : Receiver) (stub : Addr) (gap : Addr → Bool)
    (order : List Addr) where
  abbrev pub published : C → Addr → Mem T C
  published waker node = record m {
    next_enqueued = update m.next_enqueued node null;
    queues =
        update m.queues r.queue
          (some (record { waker = waker; head = node; tail = first order null; stub = stub }));
  }

  -- What a node must be for `enqueue_inner` to be called with it.
  pub record MayPublish (node : Addr) : Type 0 where
    pub live : Live m.strong node
    pub out : has node order ≡ false
    pub real : node ≢ stub
    pub owned : m.queue node ≡ r.queue
    pub marked : m.is_enqueued node ≡ true

  pub publish-run :
      (node : Addr) (is : IsQueue m r stub gap order)
      → MayPublish node
      → publish r.queue node m ≡ some (last order null, published is.waker node)
  unfolding publish
  publish-run node is may =
      simp (may.live, may.marked, may.owned, eq→== {a = r.queue} refl, may.live, is.found)

  update-found :
      (node : Addr) (is : IsQueue m r stub gap order)
      → update m.queues r.queue
          (some (record { waker = is.waker; head = node; tail = first order null; stub = stub }))
          r.queue
        ≡ some (record {
          waker = is.waker;
          head = last (order ++ node ∷ []) null;
          tail = first (order ++ node ∷ []) null;
          stub = stub;
        })
  update-found node is =
      update_self m.queues r.queue _
      ∙ ap₂ (λ h t. some (record { waker = is.waker; head = h; tail = t; stub = stub }))
          (sym (last-append order (node ∷ []) null)) (sym (first-snoc order node is.filled))

  -- After the first step the node stands at the end, behind a gap.
  pub publish-IsQueue :
      (node : Addr) (is : IsQueue m r stub gap order)
      → MayPublish node
      → IsQueue
          (published is.waker node)
          r
          stub
          (update gap (last order null) true)
          (order ++ node ∷ [])
  publish-IsQueue node is may = record {
    waker = is.waker;
    found = update-found node is;
    chain = Chain-snoc m.next_enqueued gap order node null is.distinct may.out is.chain;
    settled = rw (last-append order (node ∷ []) null) (
        update_ne gap true (λ e. ne_of_has order (last-mem order is.filled) may.out (sym e))
        ∙ no_gap);
    gaps = λ a i.
        has-left a order (node ∷ [])
          (gap-mem gap order (last order null) a (last-mem order is.filled) (is.gaps a) i);
    distinct = append-Distinct order (node ∷ []) (record {
      left = is.distinct;
      right = (refl, tt);
      disjoint = λ a i. ground (arith, may.out);
    });
    live = λ a i. grind (arith, is.live, may.live, has-append a order (node ∷ []));
    stub_live = is.stub_live;
    filled = snoc-ne_nil order node;
    owned = λ a i. grind (arith, is.owned, may.owned, has-append a order (node ∷ []));
    marked = λ a i. grind (arith, is.marked, may.marked, has-append a order (node ∷ []));
    behind = λ e. absurd (may.real (sym (last-append order (node ∷ []) null) ∙ e));
  }
    where
      no_gap : gap node ≡ false
      no_gap = ground (arith, is.gaps node, may.out)
