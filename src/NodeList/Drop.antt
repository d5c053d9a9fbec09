-- ===== src/NodeList/Drop.antt =====
-- The drop of a list of src/list.rs: every value is dropped, and the list's handle of every node.
use async_selector.Base.{
  false, ◌-◌, ◌≡◌, refl, sym, ◌∙◌, subst, true, none, some, List, [], ◌∷◌, arith, if◌then◌else◌,
  has, has_here, ne_of_has, length, update, update_ne,
}
use async_selector.Memory.Release.{released, released-cons, Live-released_ne}
use async_selector.Memory.{Addr, Mem, Live, Live-ne_null, drop_arc}
use async_selector.NodeList.{NodeList, get_pin, take_value, drop_removed, drop_list}
use async_selector.NodeList.Invariant.{IsList, IsList-transfer}
use async_selector.NodeList.Unlink.{unlinked, remove_unchecked-IsList}

module _ {T C : Type 0} where
  abbrev pub discarded : Mem T C → Addr → Mem T C
  discarded m x = record m {
    value = update m.value x none;
    strong = update m.strong x (m.strong x - 1);
  }

  pub drop_removed-run :
      (m : Mem T C) (x : Addr) (v : T)
      → Live m.strong x
      → m.value x ≡ some v
      → drop_removed x m ≡ some (tt, discarded m x)
  unfolding drop_removed take_value get_pin drop_arc
  drop_removed-run m x v live filled = simp (live, filled)

  -- A node that is not in the list is dropped.
  pub discarded-IsList :
      (m : Mem T C) (l : NodeList) (xs : List Addr) (x : Addr)
      → has x xs ≡ false
      → IsList m l xs
      → IsList (discarded m x) l xs
  discarded-IsList m l xs x out is =
      let other = λ (a : Addr) (i : has a xs ≡ true). ne_of_has xs i out in
      IsList-transfer m (discarded m x) l xs (λ a i. refl) (λ a i. refl)
        (λ a i h. Live-released_ne m.strong x a (other a i) h)
        (λ a i.
          subst (λ o. (w : T) × (o ≡ some w)) (sym (update_ne m.value none (other a i)))
            (is.valued a i))
        is

  -- For a well-formed list the loop of `List::drop` ends after as many rounds as the list is long,
  -- does not fault, and leaves the empty list. Exactly the values of its nodes are dropped, and
  -- each of its nodes, and no other, has one owner less; who owns a node and the queues stay.
  pub drop_list-IsList :
      (m : Mem T C) (l : NodeList) (xs : List Addr)
      → IsList m l xs
      → (l' : NodeList) × (m' : Mem T C) × (drop_list (length xs) l m ≡ some (l', m'))
        × IsList m' l' []
        × ((a : Addr) → m'.value a ≡ (if has a xs then none else m.value a))
        × ((a : Addr) → m'.strong a ≡ released m.strong xs a)
        × (m'.queues ≡ m.queues)
        × (m'.queue ≡ m.queue)
  unfolding drop_list
  drop_list-IsList m l [] is = (l, m, simp is.front, is, λ a. refl, λ a. refl, refl, refl)
  drop_list-IsList m l (x ∷ xs) is =
      let live = is.live x (has_here x xs) in
      let (v, filled) = is.valued x (has_here x xs) in
      let out = is.distinct.0 in
      let (l₁, removed, is₁) = remove_unchecked-IsList m l [] xs x is in
      let dropped = drop_removed-run (unlinked m x) x v live filled in
      let m₁ = discarded (unlinked m x) x in
      let is₂ = discarded-IsList (unlinked m x) l₁ xs x out is₁ in
      let (l', m', rest, empty, values, counts, queues, owner) = drop_list-IsList m₁ l₁ xs is₂ in
      (
        l',
        m',
        simp (is.front, Live-ne_null m.strong x live, removed, dropped, rest),
        empty,
        λ a. values a ∙ ground arith,
        λ a. counts a ∙ released-cons m.strong x a xs out,
        queues,
        owner,
      )
