-- ===== src/Selector/Access.antt =====
-- `contains`, `get`, `get_mut` and `remove` of src/selector.rs, for any handle of a node.
use native.Mathlib.Decide.{ℕ_discrete}
use mathlib.Core.Path.{ap₂}
use async_selector.Base.{
  has-split, ℕ, ◌+◌, ◌≡◌, ◌≢◌, refl, sym, ◌∙◌, subst, Bool, Bool-cases, inl, inr, true, false, none,
  some, List, ◌∷◌, ◌++◌, arith, ◌==◌, if◌then◌else◌, has, has-append, has-append-here, has-insert,
  ne_of_has, Distinct-remove, update, update_self, update_ne, eq→==,
}
use async_selector.Memory.{Addr, null, Mem, Live, Live-ne_null}
use async_selector.NodeList
use async_selector.NodeList.{NodeList, remove_unchecked}
use async_selector.NodeList.Ring.{Ring-link, after-mem}
use async_selector.NodeList.Invariant.{IsList}
use async_selector.NodeList.Unlink.{unlinked, remove_unchecked-IsList, unlinked-next_ne}
use async_selector.Queue.Transfer.{IsQueue-transfer}
use async_selector.Selector.{Selector, created, get, contains, remove}
use async_selector.Selector.Invariant.{IsSelector, share, share_of_mem, share_of_not_mem}

-- The link of an item of a list is not null.
pub linked_of_mem :
    {T C : Type 0} (m : Mem T C) (l : NodeList) (us vs : List Addr) (a : Addr)
    → IsList m l (us ++ a ∷ vs)
    → (m.next a == null) ≡ false
linked_of_mem m l us vs a is = Live-ne_null m.strong (m.next a) (
    subst (Live m.strong) (sym (Ring-link m.next us vs a is.forward))
      (is.live _ (after-mem us vs a)))

module _ {T S C : Type 0} (m : Mem T C) (s : Selector S) (stub : Addr) (gap : Addr → Bool)
    (ext : Addr → ℕ) (tasks order : List Addr) (is : IsSelector m s stub gap ext tasks order) where
  module _ (id : Addr) (live : Live m.strong id) (real : id ≢ stub) where
    -- For a well-formed selector and any allocated node but the stub, `get` changes nothing and
    -- finds the node exactly if it is a task of this selector: neither the id of a task that was
    -- removed nor that of another selector's task is found.
    pub get-eq : get s id m ≡ some (if has id tasks then some id else none, m)
    unfolding get created NodeList.get
    get-eq = elim (Bool-cases (has id tasks)) [
      | inl i ↦
          let (us, vs, e) = has-split id tasks i in
          let linked = linked_of_mem m s.list us vs id (subst (IsList m s.list) e is.list) in
          simp (i, live, eq→== {a = s.queue.queue} (sym (is.owned id i)), linked)
      | inr o ↦ elim (ℕ_discrete (m.queue id) s.queue.queue) [
        | yes own ↦
            simp
              (o, live, eq→== {a = s.queue.queue} (sym own), eq→== (is.unlinked id real own live o))
        | no other ↦ ground arith
      ]
    ]

    -- For a well-formed selector and any allocated node but the stub, `contains` changes nothing
    -- and answers whether the node is a task of this selector.
    pub contains-eq : contains s id m ≡ some (has id tasks, m)
    unfolding contains
    contains-eq = elim (Bool-cases (has id tasks)) [
      | inl i ↦ let found = get-eq in ground arith
      | inr o ↦ let found = get-eq in ground arith
    ]

    -- For a well-formed selector and an allocated node, not the stub, that is no task of this
    -- selector, `remove` hands out nothing and changes neither the selector nor the memory.
    pub remove-absent : has id tasks ≡ false → remove s id m ≡ some ((none, s), m)
    unfolding remove created NodeList.remove
    remove-absent o = elim (ℕ_discrete (m.queue id) s.queue.queue) [
      | yes own ↦ let unlinked = is.unlinked id real own live o in ground arith
      | no other ↦ ground arith
    ]

-- The list without an item, for each address.
has-remove_ne : (a x : Addr) (us vs : List Addr) → a ≢ x → has a (us ++ x ∷ vs) ≡ has a (us ++ vs)
has-remove_ne a x us vs ne = ground (arith, has-append a us (x ∷ vs), has-append a us vs)

module _ {T S C : Type 0} (m : Mem T C) (s : Selector S) (stub : Addr) (gap : Addr → Bool)
    (ext : Addr → ℕ) (us vs order : List Addr) (id : Addr)
    (is : IsSelector m s stub gap ext (us ++ id ∷ vs) order) where
  -- The removed task has one more handle, its `Removed`.
  abbrev pub more : Addr → ℕ
  more = update ext id (ext id + 1)

  gone : has id (us ++ vs) ≡ false
  gone = (Distinct-remove us vs id is.list.distinct).1

  counted-remove :
      (a : Addr)
      → a ≢ stub
      → m.queue a ≡ s.queue.queue
      → m.strong a ≡ share a (us ++ vs) + share a order + more a
  counted-remove a real own = elim (ℕ_discrete a id) [
    | yes e ↦
        let here : has a (us ++ id ∷ vs) ≡ true = rw e (has-append-here us vs id) in
        let there : has a (us ++ vs) ≡ false = rw e gone in
        let one : more a ≡ ext a + 1 = rw e (update_self ext id (ext id + 1)) in
        omega (arith, is.counted a real own, share_of_mem a _ here, share_of_not_mem a _ there, one)
    | no ne ↦
        is.counted a real own
        ∙ ap₂ (λ (b : Bool) (n : ℕ). (if b then 1 else 0) + share a order + n)
            (has-remove_ne a id us vs ne) (sym (update_ne ext (ext id + 1) ne))
  ]

  unlinked-remove :
      (a : Addr)
      → a ≢ stub
      → m.queue a ≡ s.queue.queue
      → Live m.strong a
      → has a (us ++ vs) ≡ false
      → (unlinked m id).next a ≡ null
  unlinked-remove a real own live o = elim (ℕ_discrete a id) [
    | yes e ↦ rw e (update_self (update m.next (m.prev id) (m.next id)) id null)
    | no ne ↦
        let out = has-remove_ne a id us vs ne ∙ o in
        unlinked-next_ne m s.list us vs id a is.list out ∙ is.unlinked a real own live out
  ]

  -- `remove_unchecked` of a task, also as the guard calls it.
  pub remove_unchecked-IsSelector :
      (l : NodeList) × (remove_unchecked s.list id m ≡ some ((id, l), unlinked m id))
      × IsSelector (unlinked m id) (record s { list = l }) stub gap more (us ++ vs) order
  remove_unchecked-IsSelector =
      let (l, run, list) = remove_unchecked-IsList m s.list us vs id is.list in
      (
        l,
        run,
        record {
          list = list;
          queue =
              IsQueue-transfer m (unlinked m id) s.queue stub gap order refl (λ a i. refl)
                (λ a i. refl) (λ a h. h) is.queue.marked is.queue;
          owned = λ a i. is.owned a (has-insert a us vs id i);
          real = sym (has-remove_ne stub id us vs (λ e. real (sym e))) ∙ is.real;
          counted = counted-remove;
          unlinked = unlinked-remove;
          awake = λ a i. is.awake a (has-insert a us vs id i);
        },
      )
    where
      real : id ≢ stub
      real e = ne_of_has (us ++ id ∷ vs) (has-append-here us vs id) is.real e

  -- For a well-formed selector and the id of one of its tasks, `remove` does not fault, hands out
  -- the task's node with its links cleared, and leaves the selector well-formed with the other
  -- tasks in the same order; the queue, its order and the strategy stay as they were, and the node
  -- has one more owner outside of the list.
  pub remove-present :
      (s' : Selector S) × (remove s id m ≡ some ((some id, s'), unlinked m id))
      × IsSelector (unlinked m id) s' stub gap more (us ++ vs) order
      × (s'.queue ≡ s.queue)
      × (s'.strategy ≡ s.strategy)
  unfolding remove created NodeList.remove
  remove-present =
      let (l, run, is') = remove_unchecked-IsSelector in
      let here = has-append-here us vs id in
      let linked = linked_of_mem m s.list us vs id is.list in
      (
        record s { list = l },
        simp
            (is.list.live id here, eq→== {a = s.queue.queue} (sym (is.owned id here)), linked, run),
        is',
        refl,
        refl,
      )
