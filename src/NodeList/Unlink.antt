-- ===== src/NodeList/Unlink.antt =====
-- `remove_unchecked` of src/list.rs takes its node out of the ring and writes nowhere else.
use async_selector.Base.{
  update-update_else, has-append-here, Distinct-remove, subst, ap, first-reverse, has-insert, ℕ,
  suc, ◌≡◌, sym, ◌∙◌, true, false, ◌==◌, if◌then◌else◌, List, [], ◌∷◌, ◌++◌, reverse, arith, first,
  last, length, has, update, reverse-append, reverse-middle, first-reverse, last-reverse,
  length-append, has-append, Distinct, reverse-Distinct, ne_of_has, some,
}
use async_selector.Memory.{Addr, null, Mem, Live}
use async_selector.NodeList.{NodeList, remove_unchecked}
use async_selector.NodeList.Ring.{before-mem, after-mem, Ring, before, Ring-unlink, Ring-link}
use async_selector.NodeList.Invariant.{IsList}

module _ {T C : Type 0} where
  -- The memory after the writes of `remove_unchecked`.
  abbrev pub unlinked : Mem T C → Addr → Mem T C
  unlinked m x = record m {
    next = update (update m.next (m.prev x) (m.next x)) x null;
    prev = update (update m.prev (m.next x) (m.prev x)) x null;
  }

  abbrev pub shortened : Mem T C → NodeList → Addr → ℕ → NodeList
  shortened m l x len = record {
    front = if len == 0 then null else (if l.front == x then m.next x else l.front);
    len = len;
  }

  remove_unchecked-run :
      (m : Mem T C) (l : NodeList) {x : Addr} {len : ℕ}
      → Live m.strong x
      → Live m.strong (m.prev x)
      → Live m.strong (m.next x)
      → l.len ≡ suc len
      → remove_unchecked l x m ≡ some ((x, shortened m l x len), unlinked m x)
  unfolding remove_unchecked
  remove_unchecked-run m l hx hp hn count = ground arith

  -- In a well-formed list, the neighbours of an item.
  pub prev-before :
      (m : Mem T C) (l : NodeList) (us vs : List Addr) (x : Addr)
      → IsList m l (us ++ x ∷ vs)
      → m.prev x ≡ before us vs x
  prev-before m l us vs x is =
      Ring-link m.prev (reverse vs) (reverse us) x
        (subst (Ring m.prev) (reverse-middle us vs x) is.backward)
      ∙ first-reverse us (first (reverse vs) x)
      ∙ ap (last us) (first-reverse vs x)

  next-before :
      (m : Mem T C) (l : NodeList) (us vs : List Addr) (x : Addr)
      → IsList m l (us ++ x ∷ vs)
      → m.next x ≡ before (reverse vs) (reverse us) x
  next-before m l us vs x is =
      Ring-link m.next us vs x is.forward
      ∙ sym (last-reverse vs (last (reverse us) x) ∙ ap (first vs) (last-reverse us x))

  forward-unlinked :
      (m : Mem T C) (l : NodeList) (us vs : List Addr) (x : Addr)
      → IsList m l (us ++ x ∷ vs)
      → Ring (unlinked m x).next (us ++ vs)
  forward-unlinked m l us vs x is =
      let p = prev-before m l us vs x is in
      Ring-unlink m.next (unlinked m x).next us vs x is.distinct is.forward (λ e. ground arith)
        (λ a e e'. ground arith)

  backward-unlinked :
      (m : Mem T C) (l : NodeList) (us vs : List Addr) (x : Addr)
      → IsList m l (us ++ x ∷ vs)
      → Ring (unlinked m x).prev (reverse (us ++ vs))
  backward-unlinked m l us vs x is =
      let n = next-before m l us vs x is in
      rw (reverse-append us vs) (
        Ring-unlink m.prev (unlinked m x).prev (reverse vs) (reverse us) x
          (subst Distinct (reverse-middle us vs x) (reverse-Distinct (us ++ x ∷ vs) is.distinct))
          (subst (Ring m.prev) (reverse-middle us vs x) is.backward) (λ e. ground arith)
          (λ a e e'. ground arith))

  front-shortened :
      (m : Mem T C) (l : NodeList) (us vs : List Addr) (x : Addr) (len : ℕ)
      → IsList m l (us ++ x ∷ vs)
      → l.len ≡ suc len
      → (shortened m l x len).front ≡ first (us ++ vs) null
  front-shortened m l [] [] x len is count = ground (arith, is.count)
  front-shortened m l [] (v ∷ vs) x len is count = ground (arith, is.count, is.front, is.forward.0)
  front-shortened m l (u ∷ us) vs x len is count = ground (
    arith,
    is.count,
    is.front,
    has-append u us (x ∷ vs),
    is.distinct.0,
    length-append {0} us (x ∷ vs),
  )

  IsList-unlinked :
      (m : Mem T C) (l : NodeList) (us vs : List Addr) (x : Addr) (len : ℕ)
      → IsList m l (us ++ x ∷ vs)
      → l.len ≡ suc len
      → IsList (unlinked m x) (shortened m l x len) (us ++ vs)
  IsList-unlinked m l us vs x len is count = record {
    forward = forward-unlinked m l us vs x is;
    backward = backward-unlinked m l us vs x is;
    distinct = (Distinct-remove us vs x is.distinct).0;
    live = λ a i. is.live a (has-insert a us vs x i);
    valued = λ a i. is.valued a (has-insert a us vs x i);
    front = front-shortened m l us vs x len is count;
    count = omega (arith, count, is.count, length-append us vs, length-append us (x ∷ vs));
  }

  -- In a well-formed list with `x` between `us` and `vs`, `remove_unchecked` of `x` does not fault,
  -- makes exactly the writes of `unlinked`, and leaves a well-formed list of `us` and `vs`.
  pub remove_unchecked-IsList :
      (m : Mem T C) (l : NodeList) (us vs : List Addr) (x : Addr)
      → IsList m l (us ++ x ∷ vs)
      → (l' : NodeList) × (remove_unchecked l x m ≡ some ((x, l'), unlinked m x))
        × IsList (unlinked m x) l' (us ++ vs)
  remove_unchecked-IsList m l us vs x is =
      let count : l.len ≡ suc (length (us ++ vs)) =
        omega (arith, is.count, length-append us vs, length-append us (x ∷ vs)) in
      let live = λ (a : Addr) (i : has a (us ++ x ∷ vs) ≡ true). is.live a i in
      (
        shortened m l x (length (us ++ vs)),
        remove_unchecked-run m l (live x (has-append-here us vs x))
            (rw (prev-before m l us vs x is) (live _ (before-mem us vs x)))
            (rw (Ring-link m.next us vs x is.forward) (live _ (after-mem us vs x))) count,
        IsList-unlinked m l us vs x (length (us ++ vs)) is count,
      )

  -- Other nodes keep their links.
  pub unlinked-next_ne :
      (m : Mem T C) (l : NodeList) (us vs : List Addr) (x a : Addr)
      → IsList m l (us ++ x ∷ vs)
      → has a (us ++ x ∷ vs) ≡ false
      → (unlinked m x).next a ≡ m.next a
  unlinked-next_ne m l us vs x a is out =
      update-update_else m.next (m.next x) null a
        (λ e. ne_of_has (us ++ x ∷ vs) (has-append-here us vs x) out (sym e))
        (λ e.
          ne_of_has (us ++ x ∷ vs) (before-mem us vs x) out (sym (e ∙ prev-before m l us vs x is)))
