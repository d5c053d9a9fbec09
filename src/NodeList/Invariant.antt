-- ===== src/NodeList/Invariant.antt =====
-- Well-formedness of the list of src/list.rs: the list stands for the addresses of its nodes.
use native.Mathlib.Decide.{ℕ_discrete}
use async_selector.Base.{
  update, update_self, update_ne, Option, sym, ◌∙◌, has-reverse, ◌≡◌, true, some, List, reverse,
  first, length, has, Distinct,
}
use async_selector.Memory.{Addr, null, Mem, Live}
use async_selector.NodeList.{NodeList}
use async_selector.NodeList.Ring.{Ring, Links-congr}

-- `next` runs round `xs` and `prev` runs round it backwards; every node is allocated and holds its
-- value; the handle has the first node and the length.
pub record IsList {T C : Type 0} (m : Mem T C) (l : NodeList) (xs : List Addr) : Type 0 where
  pub forward : Ring m.next xs
  pub backward : Ring m.prev (reverse xs)
  pub distinct : Distinct xs
  pub live : (a : Addr) → has a xs ≡ true → Live m.strong a
  pub valued : (a : Addr) → has a xs ≡ true → (v : T) × (m.value a ≡ some v)
  pub front : l.front ≡ first xs null
  pub count : l.len ≡ length xs

-- A list in another memory, which agrees on its nodes.
pub IsList-transfer :
    {T C : Type 0} (m m' : Mem T C) (l : NodeList) (xs : List Addr)
    → ((a : Addr) → has a xs ≡ true → m'.next a ≡ m.next a)
    → ((a : Addr) → has a xs ≡ true → m'.prev a ≡ m.prev a)
    → ((a : Addr) → has a xs ≡ true → Live m.strong a → Live m'.strong a)
    → ((a : Addr) → has a xs ≡ true → (v : T) × (m'.value a ≡ some v))
    → IsList m l xs
    → IsList m' l xs
IsList-transfer m m' l xs same_next same_prev live valued is = record {
  forward = Links-congr m.next m'.next xs (first xs null) same_next is.forward;
  backward =
      Links-congr m.prev m'.prev (reverse xs) (first (reverse xs) null)
        (λ a i. same_prev a (sym (has-reverse a xs) ∙ i)) is.backward;
  distinct = is.distinct;
  live = λ a i. live a i (is.live a i);
  valued = valued;
  front = is.front;
  count = is.count;
}

-- Another value in one node.
pub filled-update :
    {T : Type 0} (values : Addr → Option T) (tasks : List Addr) (node : Addr) (new : T)
    → ((a : Addr) → has a tasks ≡ true → (v : T) × (values a ≡ some v))
    → (a : Addr) → has a tasks ≡ true
    → (v : T) × (update values node (some new) a ≡ some v)
filled-update values tasks node new filled a i = elim (ℕ_discrete a node) [
  | yes e ↦ (new, rw e (update_self values node (some new)))
  | no ne ↦ ((filled a i).0, update_ne values (some new) ne ∙ (filled a i).1)
]
