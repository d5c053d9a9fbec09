-- ===== src/Selector/Hands.antt =====
-- The handles that `poll_next` of src/selector.rs holds itself: the node that it took out of the
-- queue, and a removed task.
use async_selector.Base.{
  ℕ, ◌+◌, ◌-◌, ◌<◌, ◌≡◌, ◌≢◌, sym, subst, fun_ext, Bool, false, none, some, List, arith, has,
  update, update_ne, ne_of_has,
}
use async_selector.Memory.{Addr, null, Mem, is_live, Live, drop_arc}
use async_selector.Queue.{AtomicWaker}
use async_selector.Queue.Flag.{IsMember}
use async_selector.NodeList.{drop_removed, take_value, get_pin}
use async_selector.Selector.{Selector}
use async_selector.Selector.Invariant.{IsSelector, share}
use async_selector.Selector.Counts.{Live-counted, drop-IsSelector}
use async_selector.Selector.Careful.{lend, IsOwn, valued-IsSelector}

pub lend-less :
    (ext : Addr → ℕ) (id : Addr) (n : ℕ)
    → update (λ a. ext a + lend id (n + 1) a) id (ext id + lend id (n + 1) id - 1)
      ≡ (λ a. ext a + lend id n a)
lend-less ext id n = fun_ext λ a. ground arith

pub lend-none : (ext : Addr → ℕ) (id : Addr) → (λ a. ext a + lend id 0 a) ≡ ext
lend-none ext id = fun_ext λ a. ground arith

pub lend-more :
    (ext : Addr → ℕ) (id : Addr) (n : ℕ)
    → update (λ a. ext a + lend id n a) id (ext id + lend id n id + 1)
      ≡ (λ a. ext a + lend id (n + 1) a)
lend-more ext id n = fun_ext λ a. ground arith

pub lend-one :
    (ext : Addr → ℕ) (id : Addr) → update ext id (ext id + 1) ≡ (λ a. ext a + lend id 1 a)
lend-one ext id = fun_ext λ a. ground arith

Live-ne : (strong : Addr → ℕ) (a : Addr) → Live strong a → a ≢ null
unfolding is_live
Live-ne strong a h e = ground arith

module _ {T S C : Type 0} (m : Mem T C) (s : Selector S) (stub : Addr) (gap : Addr → Bool)
    (ext : Addr → ℕ) (tasks order : List Addr) (id : Addr) where
  -- A node that is held is allocated.
  pub held-IsMember :
      IsSelector m s stub gap ext tasks order
      → IsOwn m.queue s.queue.queue stub id
      → 0 < share id tasks + ext id
      → IsMember m s.queue stub id
  held-IsMember is own held = record {
    live =
        Live-counted m.strong id (share id order) (share id tasks + ext id) own.present
          (omega (arith, is.counted id own.real own.owned)) held;
    real = own.real;
    owned = own.owned;
  }

pub member-IsOwn :
    {T S C : Type 0} (m : Mem T C) (s : Selector S) (stub id : Addr)
    → IsMember m s.queue stub id
    → IsOwn m.queue s.queue.queue stub id
member-IsOwn m s stub id member = record {
  present = Live-ne m.strong id member.live;
  real = member.real;
  owned = member.owned;
}

module _ {T S C : Type 0} ⦃aw : AtomicWaker C⦄ (m : Mem T C) (s : Selector S) (stub : Addr)
    (gap : Addr → Bool) (ext : Addr → ℕ) (tasks order : List Addr) (id : Addr) (n : ℕ) where
  -- The drop of a handle that was lent.
  pub drop_lent :
      IsSelector m s stub gap (λ a. ext a + lend id (n + 1) a) tasks order
      → IsOwn m.queue s.queue.queue stub id
      → (drop_arc id m ≡ some (tt, record m { strong = update m.strong id (m.strong id - 1) }))
        × IsSelector
            (record m { strong = update m.strong id (m.strong id - 1) })
            s
            stub
            gap
            (λ a. ext a + lend id n a)
            tasks
            order
  drop_lent is own =
      let lent : 0 < ext id + lend id (n + 1) id = ground arith in
      let member =
        held-IsMember m s stub gap (λ a. ext a + lend id (n + 1) a) tasks order id is own
          (omega (arith, lent)) in
      let (run, is') =
        drop-IsSelector m s stub gap (λ a. ext a + lend id (n + 1) a) tasks order is id member
          lent in
      (
        run,
        subst
            (λ f.
              IsSelector (record m { strong = update m.strong id (m.strong id - 1) }) s stub gap f
                tasks order)
            (lend-less ext id n) is',
      )

-- The memory after the drop of a removed task.
abbrev pub emptied : {T C : Type 0} → Mem T C → Addr → Mem T C
emptied m id = record m {
  value = update m.value id none;
  strong = update m.strong id (m.strong id - 1);
}

module _ {T S C : Type 0} ⦃aw : AtomicWaker C⦄ (m : Mem T C) (s : Selector S) (stub : Addr)
    (gap : Addr → Bool) (ext : Addr → ℕ) (tasks order : List Addr) (id : Addr) (n : ℕ) (v : T) where
  pub drop_removed_lent :
      IsSelector m s stub gap (λ a. ext a + lend id (n + 1) a) tasks order
      → IsOwn m.queue s.queue.queue stub id
      → has id tasks ≡ false
      → m.value id ≡ some v
      → (drop_removed id m ≡ some (tt, emptied m id))
        × IsSelector (emptied m id) s stub gap (λ a. ext a + lend id n a) tasks order
  unfolding drop_removed take_value get_pin
  drop_removed_lent is own out filled =
      let lent : 0 < ext id + lend id (n + 1) id = ground arith in
      let member =
        held-IsMember m s stub gap (λ a. ext a + lend id (n + 1) a) tasks order id is own
          (omega (arith, lent)) in
      let emptied-is =
        valued-IsSelector m s s.strategy stub gap (λ a. ext a + lend id (n + 1) a) tasks order
          (update m.value id none)
          (λ a i.
            subst (λ o. (w : T) × (o ≡ some w))
              (sym (update_ne m.value none (ne_of_has tasks i out))) (is.list.valued a i))
          is in
      let (run, is') =
        drop_lent (record m { value = update m.value id none }) s stub gap ext tasks order id n
          emptied-is own in
      (simp (member.live, filled, run), is')
