-- ===== src/Selector/Draining.antt =====
-- The iterator by value of src/selector/iter.rs hands out the tasks of a selector from both ends.
use async_selector.Base.{◌≡◌, subst, none, some, List, [], ◌∷◌, ◌++◌, append-nil}
use async_selector.Memory.{Addr, Mem}
use async_selector.NodeList.{NodeList}
use async_selector.NodeList.Invariant.{IsList}
use async_selector.NodeList.Unlink.{unlinked}
use async_selector.NodeList.Cursor.Laws.{
  done-stays, remove_front-cons, remove_back-snoc, cursor-IsCursor,
}
use async_selector.Selector.Iter.{into_iter_next, into_iter_next_back}

module _ {T C : Type 0} (m : Mem T C) (l : NodeList) where
  -- From an empty list `IntoIter::next` hands out nothing.
  pub into_iter_next-nil :
      IsList m l [] → (l' : NodeList) × (into_iter_next l m ≡ some ((none, l'), m))
  unfolding into_iter_next
  into_iter_next-nil is =
      let (c, run, at) = cursor-IsCursor m l [] is in
      let (front, back, removed, removed_back) = done-stays m c [] [] at in
      (c.list, simp (run, removed))

  -- For a well-formed list that begins with `x`, `IntoIter::next` does not fault, hands out `x`,
  -- unlinked, and keeps a well-formed list of the others.
  pub into_iter_next-cons :
      (x : Addr) (xs : List Addr)
      → IsList m l (x ∷ xs)
      → (l' : NodeList) × (into_iter_next l m ≡ some ((some x, l'), unlinked m x))
        × IsList (unlinked m x) l' xs
  unfolding into_iter_next
  into_iter_next-cons x xs is =
      let (c, run, at) = cursor-IsCursor m l (x ∷ xs) is in
      let (c', removed, at') = remove_front-cons m c [] xs [] x at in
      (c'.list, simp (run, removed), subst (IsList (unlinked m x) c'.list) (append-nil xs) at'.list)

  -- For a well-formed list that ends with `x`, `IntoIter::next_back` does not fault, hands out `x`,
  -- unlinked, and keeps a well-formed list of the others.
  into_iter_next_back-snoc :
      (xs : List Addr) (x : Addr)
      → IsList m l (xs ++ x ∷ [])
      → (l' : NodeList) × (into_iter_next_back l m ≡ some ((some x, l'), unlinked m x))
        × IsList (unlinked m x) l' xs
  unfolding into_iter_next_back
  into_iter_next_back-snoc xs x is =
      let (c, run, at) = cursor-IsCursor m l (xs ++ x ∷ []) is in
      let (c', removed, at') = remove_back-snoc m c [] xs [] x at in
      (c'.list, simp (run, removed), subst (IsList (unlinked m x) c'.list) (append-nil xs) at'.list)
