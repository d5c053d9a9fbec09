-- ===== src/NodeList/Cursor/Laws.antt =====
-- Every operation of a cursor at a place of a well-formed list: the result, no fault, and the place
-- after it.
use async_selector.Base.{
  has_here, ◌≡◌, refl, sym, ◌∙◌, subst, true, false, none, some, List, [], ◌∷◌, ◌++◌, append_assoc,
  append-nil, arith, first, last, length-append, last-append, has-append-here, ◌+◌,
}
use async_selector.Memory.{Addr, null, Mem, Live-ne_null}
use async_selector.NodeList.{NodeList}
use async_selector.NodeList.Ring.{Ring, Ring-link}
use async_selector.NodeList.Invariant.{IsList}
use async_selector.NodeList.Unlink.{unlinked, remove_unchecked-IsList, prev-before}
use async_selector.NodeList.Cursor.{
  Cursor, is_done, cursor, pop_front, pop_back, remove_front, remove_back,
}
use async_selector.NodeList.Cursor.Place.{IsCursor}

-- A place between two items, as seen from either end.
last-settled : (xs : List Addr) {p : Addr} (q : Addr) → p ≡ last xs q → p ≡ last xs p
last-settled [] q e = refl
last-settled (x ∷ xs) q e = e

first-settled : (xs ys : List Addr) {p : Addr} → p ≡ first (xs ++ ys) p → p ≡ first xs p
first-settled [] ys e = refl
first-settled (x ∷ xs) ys e = e

next-settled :
    (f : Addr → Addr) (us ys vs : List Addr) (y : Addr)
    → Ring f (us ++ (y ∷ ys ++ vs))
    → f y ≡ first ys (f y)
next-settled f us [] vs y h = refl
next-settled f us (z ∷ ys) vs y h = Ring-link f us (z ∷ ys ++ vs) y h

regroup : (us ys vs : List Addr) (y : Addr) → us ++ ((ys ++ y ∷ []) ++ vs) ≡ (us ++ ys) ++ y ∷ vs
regroup us ys vs y = simp append_assoc

module _ {T C : Type 0} (m : Mem T C) (c : Cursor) where
  pub is_done-nil : (us vs : List Addr) → IsCursor m c us [] vs → is_done c ≡ true
  is_done-nil us vs at = ground (arith, at.list.count, at.popped, length-append {0} us vs)

  pub is_done-middle :
      (us ys zs vs : List Addr) (y : Addr) → IsCursor m c us (ys ++ y ∷ zs) vs → is_done c ≡ false
  is_done-middle us ys zs vs y at = ground (
    arith,
    at.list.count,
    at.popped,
    length-append {0} us ((ys ++ y ∷ zs) ++ vs),
    length-append {0} (ys ++ y ∷ zs) vs,
    length-append {0} ys (y ∷ zs),
  )

  module _ (us ys vs : List Addr) (y : Addr) where
    -- At a place of a well-formed list with `y` in front, `pop_front` does not fault, returns `y`,
    -- writes nothing, and moves the place behind `y`; the other end of the cursor stays.
    pub pop_front-cons :
        IsCursor m c us (y ∷ ys) vs
        → (c' : Cursor) × (pop_front c m ≡ some ((some y, c'), m))
          × IsCursor m c' (us ++ y ∷ []) ys vs
    unfolding pop_front
    pop_front-cons at = (
      record c { popped = c.popped + 1; front = m.next y },
      simp (
        is_done-middle us [] ys vs y at,
        at.front,
        at.list.live y (has-append-here us (ys ++ vs) y),
      ),
      record {
        list = rw (append_assoc us (y ∷ []) (ys ++ vs)) at.list;
        popped = omega (arith, at.popped, length-append us (y ∷ []));
        front = next-settled m.next us ys vs y at.list.forward;
        back = last-settled ys y at.back;
      },
    )

    -- The same place, with the item at the back in the middle of the list.
    at_back : IsCursor m c us (ys ++ y ∷ []) vs → IsList m c.list ((us ++ ys) ++ y ∷ vs)
    at_back at = subst (IsList m c.list) (regroup us ys vs y) at.list

    back-eq : IsCursor m c us (ys ++ y ∷ []) vs → c.back ≡ y
    back-eq at = at.back ∙ last-append ys (y ∷ []) c.back

    prev-settled : IsCursor m c us (ys ++ y ∷ []) vs → m.prev y ≡ last ys (m.prev y)
    prev-settled at =
        last-settled ys _
          (prev-before m c.list (us ++ ys) vs y (at_back at) ∙ last-append us ys (last vs y))

    -- At a place of a well-formed list with `y` at the back, `pop_back` does not fault, returns
    -- `y`, writes nothing, and moves the place before `y`; the other end of the cursor stays.
    pub pop_back-snoc :
        IsCursor m c us (ys ++ y ∷ []) vs
        → (c' : Cursor) × (pop_back c m ≡ some ((some y, c'), m)) × IsCursor m c' us ys (y ∷ vs)
    unfolding pop_back
    pop_back-snoc at = (
      record c { popped = c.popped + 1; back = m.prev y },
      simp (
        is_done-middle us ys [] vs y at,
        back-eq at,
        (at_back at).live y (has-append-here (us ++ ys) vs y),
      ),
      record {
        list = subst (IsList m c.list) (append_assoc us ys (y ∷ vs)) (at_back at);
        popped = omega (arith, at.popped);
        front = first-settled ys (y ∷ []) at.front;
        back = prev-settled at;
      },
    )

    -- At a place of a well-formed list with `y` in front, `remove_front` does not fault, returns
    -- `y`, unlinks it, and stands at the same place of the well-formed list without `y`.
    pub remove_front-cons :
        IsCursor m c us (y ∷ ys) vs
        → (c' : Cursor) × (remove_front c m ≡ some ((some y, c'), unlinked m y))
          × IsCursor (unlinked m y) c' us ys vs
    unfolding remove_front
    remove_front-cons at =
        let (l, run, is) = remove_unchecked-IsList m c.list us (ys ++ vs) y at.list in
        (
          record c { front = m.next y; list = l },
          simp (
            is_done-middle us [] ys vs y at,
            at.front,
            at.list.live y (has-append-here us (ys ++ vs) y),
            run,
          ),
          record {
            list = is;
            popped = at.popped;
            front = next-settled m.next us ys vs y at.list.forward;
            back = last-settled ys y at.back;
          },
        )

    -- At a place of a well-formed list with `y` at the back, `remove_back` does not fault, returns
    -- `y`, unlinks it, and stands at the same place of the well-formed list without `y`.
    pub remove_back-snoc :
        IsCursor m c us (ys ++ y ∷ []) vs
        → (c' : Cursor) × (remove_back c m ≡ some ((some y, c'), unlinked m y))
          × IsCursor (unlinked m y) c' us ys vs
    unfolding remove_back
    remove_back-snoc at =
        let (l, run, is) = remove_unchecked-IsList m c.list (us ++ ys) vs y (at_back at) in
        (
          record c { back = m.prev y; list = l },
          simp (
            is_done-middle us ys [] vs y at,
            back-eq at,
            (at_back at).live y (has-append-here (us ++ ys) vs y),
            run,
          ),
          record {
            list = subst (IsList (unlinked m y) l) (append_assoc us ys vs) is;
            popped = at.popped;
            front = first-settled ys (y ∷ []) at.front;
            back = prev-settled at;
          },
        )

  -- A cursor of a well-formed list that has passed every item pops and removes nothing at either
  -- end, and changes neither itself nor the memory, although its ends still point at nodes of the
  -- list.
  pub done-stays :
      (us vs : List Addr)
      → IsCursor m c us [] vs
      → (pop_front c m ≡ some ((none, c), m))
        × (pop_back c m ≡ some ((none, c), m))
        × (remove_front c m ≡ some ((none, c), m))
        × (remove_back c m ≡ some ((none, c), m))
  unfolding pop_front pop_back remove_front remove_back
  done-stays us vs at =
      let done = is_done-nil us vs at in (simp done, simp done, simp done, simp done)

-- On a well-formed list `cursor` does not fault and stands before the first item and behind the
-- last one, also if the list is empty.
pub cursor-IsCursor :
    {T C : Type 0} (m : Mem T C) (l : NodeList) (xs : List Addr)
    → IsList m l xs
    → (c : Cursor) × (cursor l m ≡ some (c, m)) × IsCursor m c [] xs []
unfolding cursor
cursor-IsCursor m l [] is = (
  record { front = l.front; back = null; popped = 0; list = l },
  simp is.front,
  record { list = is; popped = refl; front = refl; back = refl },
)
cursor-IsCursor m l (x ∷ xs) is =
    let live = is.live x (has_here x xs) in
    (
      record { front = x; back = m.prev x; popped = 0; list = l },
      simp (is.front, Live-ne_null m.strong x live, live),
      record {
        list = subst (IsList m l) (sym (append-nil (x ∷ xs))) is;
        popped = refl;
        front = refl;
        back = prev-before m l [] xs x is;
      },
    )
