-- ===== src/Selector/Counts.antt =====
-- A handle of a node of src/selector.rs more or less: the clone and the drop of an `Arc`.
use native.Mathlib.Decide.{ℕ_discrete}
use async_selector.Base.{
  ℕ, ◌+◌, ◌-◌, ◌<◌, ◌≡◌, ◌≢◌, refl, sym, subst, Bool, true, some, List, arith, has, update,
}
use async_selector.Memory.{Addr, null, Mem, is_live, Live, clone_arc, drop_arc}
use async_selector.Queue.{AtomicWaker}
use async_selector.Queue.Flag.{IsMember}
use async_selector.NodeList.Invariant.{IsList-transfer}
use async_selector.Selector.{Selector}
use async_selector.Selector.Invariant.{IsSelector, share, share_of_mem}

pub Live-counted :
    (strong : Addr → ℕ) (a : Addr) (n k : ℕ) → a ≢ null → strong a ≡ n + k → 0 < k → Live strong a
unfolding is_live
Live-counted strong a n k ne count pos = ground arith

Live-more :
    (strong : Addr → ℕ) (id a : Addr) → Live strong a → Live (update strong id (strong id + 1)) a
unfolding is_live
Live-more strong id a h = ground arith

Live-more_before :
    (strong : Addr → ℕ) (id a : Addr)
    → Live strong id
    → Live (update strong id (strong id + 1)) a
    → Live strong a
unfolding is_live
Live-more_before strong id a live h = ground arith

Live-less :
    (strong : Addr → ℕ) (id a : Addr)
    → (a ≡ id → 1 < strong id)
    → Live strong a
    → Live (update strong id (strong id - 1)) a
unfolding is_live
Live-less strong id a shared h = ground arith

Live-less_before :
    (strong : Addr → ℕ) (id a : Addr) → Live (update strong id (strong id - 1)) a → Live strong a
unfolding is_live
Live-less_before strong id a h = ground arith

module _ {T S C : Type 0} ⦃aw : AtomicWaker C⦄ (m : Mem T C) (s : Selector S) (stub : Addr)
    (gap : Addr → Bool) (ext : Addr → ℕ) (tasks order : List Addr)
    (is : IsSelector m s stub gap ext tasks order) where
  -- Other counts, with nothing else changed.
  recounted-IsSelector :
      (strong : Addr → ℕ) (ext' : Addr → ℕ)
      → ((a : Addr) → has a tasks ≡ true → Live m.strong a → Live strong a)
      → ((a : Addr) → has a order ≡ true → Live m.strong a → Live strong a)
      → Live strong stub
      → ((a : Addr) → Live strong a → Live m.strong a)
      → ((a : Addr)
          → a ≢ stub
          → m.strong a ≡ share a tasks + share a order + ext a
          → strong a ≡ share a tasks + share a order + ext' a)
      → IsSelector (record m { strong = strong }) s stub gap ext' tasks order
  recounted-IsSelector strong ext' listed queued kept before counted = record {
    list =
        IsList-transfer m (record m { strong = strong }) s.list tasks (λ a i. refl) (λ a i. refl)
          listed is.list.valued is.list;
    queue = record {
      waker = is.queue.waker;
      found = is.queue.found;
      chain = is.queue.chain;
      settled = is.queue.settled;
      gaps = is.queue.gaps;
      distinct = is.queue.distinct;
      live = λ a i. queued a i (is.queue.live a i);
      stub_live = kept;
      filled = is.queue.filled;
      owned = is.queue.owned;
      marked = is.queue.marked;
      behind = is.queue.behind;
    };
    owned = is.owned;
    real = is.real;
    counted = λ a real own. counted a real (is.counted a real own);
    unlinked = λ a real own h gone. is.unlinked a real own (before a h) gone;
    awake = is.awake;
  }

  pub clone-IsSelector :
      (id : Addr)
      → IsMember m s.queue stub id
      → (clone_arc id m ≡ some (id, record m { strong = update m.strong id (m.strong id + 1) }))
        × IsSelector
            (record m { strong = update m.strong id (m.strong id + 1) })
            s
            stub
            gap
            (update ext id (ext id + 1))
            tasks
            order
  unfolding clone_arc
  clone-IsSelector id member = (
    simp member.live,
    recounted-IsSelector _ _ (λ a i h. Live-more m.strong id a h)
        (λ a i h. Live-more m.strong id a h) (Live-more m.strong id stub is.queue.stub_live)
        (λ a h. Live-more_before m.strong id a member.live h)
        (λ a real h. elim (ℕ_discrete a id) [ yes e ↦ ground arith | no ne ↦ ground arith ]),
  )

  pub drop-IsSelector :
      (id : Addr)
      → IsMember m s.queue stub id
      → 0 < ext id
      → (drop_arc id m ≡ some (tt, record m { strong = update m.strong id (m.strong id - 1) }))
        × IsSelector
            (record m { strong = update m.strong id (m.strong id - 1) })
            s
            stub
            gap
            (update ext id (ext id - 1))
            tasks
            order
  unfolding drop_arc
  drop-IsSelector id member held =
      let count = is.counted id member.real member.owned in
      (
        simp member.live,
        recounted-IsSelector _ _
            (λ a i h.
              Live-less m.strong id a
                (λ e.
                  omega (
                    arith,
                    count,
                    share_of_mem id tasks (subst (λ b. has b tasks ≡ true) e i),
                    held,
                  ))
                h)
            (λ a i h.
              Live-less m.strong id a
                (λ e.
                  omega (
                    arith,
                    count,
                    share_of_mem id order (subst (λ b. has b order ≡ true) e i),
                    held,
                  ))
                h)
            (Live-less m.strong id stub (λ e. absurd (member.real (sym e))) is.queue.stub_live)
            (λ a h. Live-less_before m.strong id a h)
            (λ a real h. elim (ℕ_discrete a id) [ yes e ↦ ground arith | no ne ↦ ground arith ]),
      )
