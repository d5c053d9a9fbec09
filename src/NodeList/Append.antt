-- ===== src/NodeList/Append.antt =====
-- `attach`, the part of `push_back` of src/list.rs that links a new node in at the end.
use async_selector.Base.{
  update-update_under, update-update_else, ne_of_has, has_here, Bool-cases, inl, inr, update_self,
  ◌+◌, ◌≡◌, ◌≢◌, refl, sym, ◌∙◌, ap, subst, false, ◌==◌, if◌then◌else◌, List, [], ◌∷◌, ◌++◌,
  reverse, arith, first, last, has, update, reverse-append, reverse-middle, first-reverse,
  last-reverse, length-append, has-append, has-last, has-reverse, append-Distinct, reverse-Distinct,
  some,
}
use mathlib.Core.Path.{subst₂}
use async_selector.Memory.{Addr, null, Mem, Live, Live-ne_null}
use async_selector.NodeList.{NodeList, attach}
use async_selector.NodeList.Ring.{Ring, Ring-snoc, Ring-cons, Ring-link}
use async_selector.NodeList.Invariant.{IsList}

abbrev pub lengthened : NodeList → Addr → NodeList
lengthened l x = record { front = if l.front == null then x else l.front; len = l.len + 1 }

module _ {T C : Type 0} where
  -- The memory after the writes of `attach`.
  abbrev pub appended : Mem T C → NodeList → Addr → Mem T C
  appended m l x = record m {
    next =
        if l.front == null
        then update m.next x x
        else update (update m.next (m.prev l.front) x) x l.front;
    prev =
        if l.front == null
        then update m.prev x x
        else update (update m.prev l.front x) x (m.prev l.front);
  }

  last-prev :
      (m : Mem T C) (l : NodeList) (y : Addr) (ys : List Addr)
      → IsList m l (y ∷ ys)
      → m.prev y ≡ last ys y
  last-prev m l y ys is =
      Ring-link m.prev (reverse ys) [] y (subst (Ring m.prev) (reverse-middle [] ys y) is.backward)
      ∙ first-reverse ys y

  attach-run :
      (m : Mem T C) (l : NodeList) (xs : List Addr) (x : Addr)
      → IsList m l xs
      → Live m.strong x
      → attach l x m ≡ some (lengthened l x, appended m l x)
  unfolding attach
  attach-run m l [] x is new = simp (new, is.front)
  attach-run m l (y ∷ ys) x is new =
      let front : Live m.strong l.front = rw is.front (is.live y (ground arith)) in
      let back : Live m.strong (m.prev l.front) =
        rw (is.front, last-prev m l y ys is) (is.live (last ys y) (has-last y ys)) in
      simp (new, Live-ne_null m.strong l.front front, front, back)

  -- The links of a list that is not empty, after `attach`.
  appended-links :
      (m : Mem T C) (l : NodeList) (y : Addr) (ys : List Addr) (x : Addr)
      → IsList m l (y ∷ ys)
      → ((appended m l x).next ≡ update (update m.next (last ys y) x) x y)
        × ((appended m l x).prev ≡ update (update m.prev y x) x (last ys y))
  appended-links m l y ys x is =
      let live = Live-ne_null m.strong y (is.live y (ground arith)) in
      let p = last-prev m l y ys is in (simp (is.front, live, p), simp (is.front, live, p))

  forward-appended :
      (m : Mem T C) (l : NodeList) (xs : List Addr) (x : Addr)
      → IsList m l xs
      → has x xs ≡ false
      → Ring (appended m l x).next (xs ++ x ∷ [])
  forward-appended m l [] x is out = (ground (arith, is.front), tt)
  forward-appended m l (y ∷ ys) x is out =
      subst (λ f. Ring f (y ∷ ys ++ x ∷ [])) (sym (appended-links m l y ys x is).0)
        (Ring-snoc m.next _ (y ∷ ys) x is.distinct out is.forward
          (update_self (update m.next (last ys y) x) x y)
          (update-update_under m.next x y (ne_of_has (y ∷ ys) (has-last y ys) out))
          (update-update_else m.next x y))

  backward-appended :
      (m : Mem T C) (l : NodeList) (xs : List Addr) (x : Addr)
      → IsList m l xs
      → has x xs ≡ false
      → Ring (appended m l x).prev (reverse (xs ++ x ∷ []))
  backward-appended m l [] x is out = (ground (arith, is.front), tt)
  backward-appended m l (y ∷ ys) x is out =
      let r = reverse (y ∷ ys) in
      let e₁ = first-reverse (y ∷ ys) x in
      let e₂ = last-reverse (y ∷ ys) x in
      subst₂ (λ f zs. Ring f zs) (sym (appended-links m l y ys x is).1)
        (sym (reverse-append (y ∷ ys) (x ∷ [])))
        (Ring-cons m.prev _ r x (reverse-Distinct (y ∷ ys) is.distinct)
          (has-reverse x (y ∷ ys) ∙ out) is.backward
          (update_self (update m.prev y x) x (last ys y) ∙ sym e₁)
          (ap (update (update m.prev y x) x (last ys y)) e₂
            ∙ update-update_under m.prev x (last ys y) (ne_of_has (y ∷ ys) (has_here y ys) out))
          (λ a e e'. update-update_else m.prev x (last ys y) a e (λ d. e' (d ∙ sym e₂))))

  front-lengthened :
      (m : Mem T C) (l : NodeList) (xs : List Addr) (x : Addr)
      → IsList m l xs
      → (lengthened l x).front ≡ first (xs ++ x ∷ []) null
  front-lengthened m l [] x is = simp is.front
  front-lengthened m l (y ∷ ys) x is =
      simp (is.front, Live-ne_null m.strong y (is.live y (ground arith)))

  -- For a well-formed list and an allocated node outside of it that holds a value, `attach` does
  -- not fault, makes exactly the writes of `appended`, and leaves a well-formed list with the node
  -- at the end.
  pub attach-IsList :
      (m : Mem T C) (l : NodeList) (xs : List Addr) (x : Addr)
      → IsList m l xs
      → Live m.strong x
      → has x xs ≡ false
      → (v : T) × (m.value x ≡ some v)
      → (attach l x m ≡ some (lengthened l x, appended m l x))
        × IsList (appended m l x) (lengthened l x) (xs ++ x ∷ [])
  attach-IsList m l xs x is new out filled = (
    attach-run m l xs x is new,
    record {
      forward = forward-appended m l xs x is out;
      backward = backward-appended m l xs x is out;
      distinct =
          append-Distinct xs (x ∷ [])
            (record { left = is.distinct; right = (refl, tt); disjoint = λ a i. ground arith });
      live = λ a i. ground (arith, has-append a xs (x ∷ []), is.live a);
      valued = λ a i. elim (Bool-cases (has a xs)) [
        | inl old ↦ is.valued a old
        | inr fresh ↦
            subst (λ b. (v : T) × (m.value b ≡ some v)) (ground (arith, has-append a xs (x ∷ [])))
              filled
      ];
      front = front-lengthened m l xs x is;
      count = omega (arith, is.count, length-append xs (x ∷ []));
    },
  )

  -- Other nodes keep their links.
  pub appended-next_ne :
      (m : Mem T C) (l : NodeList) (xs : List Addr) (x a : Addr)
      → IsList m l xs
      → a ≢ x
      → has a xs ≡ false
      → (appended m l x).next a ≡ m.next a
  appended-next_ne m l [] x a is ne out = ground (arith, is.front)
  appended-next_ne m l (y ∷ ys) x a is ne out =
      ap (λ f. f a) (appended-links m l y ys x is).0
      ∙ update-update_else m.next x y a ne (λ e. ne_of_has (y ∷ ys) (has-last y ys) out (sym e))
