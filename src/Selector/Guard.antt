-- ===== src/Selector/Guard.antt =====
-- The guard of a task in `poll_next` of src/selector.rs: `AccessGuard::remove_now`, and its drop when
-- a call unwinds.
use async_selector.Base.{
  ℕ, ◌+◌, ◌≡◌, refl, subst, Bool, true, false, some, List, ◌∷◌, ◌++◌, has, has-split,
  Distinct-remove,
}
use async_selector.Memory.{Addr, Mem}
use async_selector.Queue.{AtomicWaker}
use async_selector.NodeList.{NodeList, remove_now, drop_guard}
use async_selector.NodeList.Unlink.{unlinked}
use async_selector.Selector.{Selector}
use async_selector.Selector.Invariant.{IsSelector}
use async_selector.Selector.Access.{remove_unchecked-IsSelector}
use async_selector.Selector.Careful.{lend, IsOwn}
use async_selector.Selector.Hands.{lend-more, emptied, drop_removed_lent}

-- The tasks without one, in the same order.
pub record IsWithout (id : Addr) (tasks rest : List Addr) : Type 0 where
  pub before : List Addr
  pub behind : List Addr
  pub whole : tasks ≡ before ++ id ∷ behind
  pub left : rest ≡ before ++ behind
  pub gone : has id rest ≡ false

module _ {T S C : Type 0} ⦃aw : AtomicWaker C⦄ (m : Mem T C) (s : Selector S) (stub : Addr)
    (gap : Addr → Bool) (ext : Addr → ℕ) (tasks order : List Addr) (id : Addr) (n : ℕ)
    (is : IsSelector m s stub gap (λ a. ext a + lend id n a) tasks order)
    (listed : has id tasks ≡ true) where
  pub remove_now-IsSelector :
      (l : NodeList) × (rest : List Addr) × (remove_now (record { list = s.list; node = id }) m
        ≡ some ((id, l), unlinked m id))
      × IsSelector
          (unlinked m id)
          (record s { list = l })
          stub
          gap
          (λ a. ext a + lend id (n + 1) a)
          rest
          order
      × IsWithout id tasks rest
  unfolding remove_now
  remove_now-IsSelector =
      let (us, vs, e) = has-split id tasks listed in
      let is' = subst (λ xs. IsSelector m s stub gap (λ a. ext a + lend id n a) xs order) e is in
      let (l, run, is₁) =
        remove_unchecked-IsSelector m s stub gap (λ a. ext a + lend id n a) us vs order id is' in
      (
        l,
        us ++ vs,
        run,
        subst (λ f. IsSelector (unlinked m id) (record s { list = l }) stub gap f (us ++ vs) order)
            (lend-more ext id n) is₁,
        record {
          before = us;
          behind = vs;
          whole = e;
          left = refl;
          gone = (Distinct-remove us vs id is'.list.distinct).1;
        },
      )

  pub drop_guard-IsSelector :
      (v : T)
      → m.value id ≡ some v
      → IsOwn m.queue s.queue.queue stub id
      → (l : NodeList) × (rest : List Addr) × (drop_guard (record { list = s.list; node = id }) m
          ≡ some (l, emptied (unlinked m id) id))
        × IsSelector
            (emptied (unlinked m id) id)
            (record s { list = l })
            stub
            gap
            (λ a. ext a + lend id n a)
            rest
            order
        × IsWithout id tasks rest
  unfolding drop_guard remove_now
  drop_guard-IsSelector v filled own =
      let (l, rest, run, is', without) = remove_now-IsSelector in
      let (dropped, is'') =
        drop_removed_lent (unlinked m id) (record s { list = l }) stub gap ext rest order id n v is'
          own without.gone filled in
      (l, rest, simp (run, dropped), is'', without)
