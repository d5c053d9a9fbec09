-- ===== src/Selector/WakeAll.antt =====
-- `wake_all` of src/selector.rs: a cursor over the list, and a wakeup at each place.
use mathlib.Core.Path.{subst₂}
use async_selector.Base.{
  ℕ, zero, suc, ◌<◌, ◌≡◌, refl, sym, ◌∙◌, ap, subst, Bool, Bool-cases, inl, inr, true, false, some,
  List, [], ◌∷◌, ◌++◌, append_assoc, append-nil, arith, if◌then◌else◌, has, has-append-here,
  ne_of_has, Distinct-remove, length, update,
}
use async_selector.Memory.{Addr, Mem, Live}
use async_selector.Queue.{AtomicWaker}
use async_selector.Queue.Flag.{IsMember, woken_order}
use async_selector.NodeList.Invariant.{IsList-transfer}
use async_selector.NodeList.Cursor.{Cursor}
use async_selector.NodeList.Cursor.Place.{IsCursor}
use async_selector.NodeList.Cursor.Laws.{done-stays, pop_front-cons, cursor-IsCursor}
use async_selector.Selector.{Selector, wake_loop, wake_all}
use async_selector.Selector.Wake.{wake-IsSelector, Live-woken}
use async_selector.Selector.Invariant.{IsSelector}

-- The items whose flag is not set.
abbrev pub asleep : (Addr → Bool) → List Addr → List Addr
asleep flags [] = []
asleep flags (x ∷ xs) = if flags x then asleep flags xs else x ∷ asleep flags xs

asleep-update :
    (flags : Addr → Bool) (x : Addr) (xs : List Addr)
    → has x xs ≡ false
    → asleep (update flags x true) xs ≡ asleep flags xs
asleep-update flags x [] out = refl
asleep-update flags x (y ∷ ys) out = ground (arith, asleep-update flags x ys)

order-asleep :
    (flags : Addr → Bool) (order : List Addr) (x : Addr) (xs : List Addr)
    → (if flags x then order else order ++ x ∷ []) ++ asleep flags xs
      ≡ order ++ asleep flags (x ∷ xs)
order-asleep flags order x xs = elim (Bool-cases (flags x)) [
  | inl e ↦ simp e
  | inr e ↦ simp (e, append_assoc)
]

has-right : (a : Addr) (xs ys : List Addr) → has a (xs ++ ys) ≡ false → has a ys ≡ false
has-right a [] ys h = h
has-right a (x ∷ xs) ys h = has-right a xs ys (ground arith)

-- A cursor in a memory that agrees with the other on the list.
module _ {T C : Type 0} where
  IsCursor-transfer :
      (m m' : Mem T C) (c : Cursor) (us ys vs : List Addr)
      → m'.next ≡ m.next
      → m'.prev ≡ m.prev
      → m'.value ≡ m.value
      → ((a : Addr) → Live m.strong a → Live m'.strong a)
      → IsCursor m c us ys vs
      → IsCursor m' c us ys vs
  IsCursor-transfer m m' c us ys vs next prev value live at = record {
    list =
        IsList-transfer m m' c.list (us ++ (ys ++ vs)) (λ a i. ap (λ f. f a) next)
          (λ a i. ap (λ f. f a) prev) (λ a i h. live a h)
          (λ a i.
            subst (λ o. (v : T) × (o ≡ some v)) (sym (ap (λ f. f a) value)) (at.list.valued a i))
          at.list;
    popped = at.popped;
    front = at.front;
    back = at.back;
  }

module _ {T S C : Type 0} ⦃aw : AtomicWaker C⦄ (s : Selector S) (stub : Addr) (gap : Addr → Bool)
    (ext : Addr → ℕ) where
  -- What is left of the loop at a place of the list: enough fuel is more than the rest.
  wake_loop-IsSelector :
      (fuel : ℕ) (m : Mem T C) (c : Cursor) (us ys order : List Addr)
      → length ys < fuel
      → IsSelector m s stub gap ext (us ++ ys) order
      → IsCursor m c us ys []
      → (m' : Mem T C) × (wake_loop fuel c m ≡ some (tt, m'))
        × IsSelector m' s stub gap ext (us ++ ys) (order ++ asleep m.is_enqueued ys)
  unfolding wake_loop
  wake_loop-IsSelector zero m c us ys order less is at = absurd (omega (arith, less))
  wake_loop-IsSelector (suc fuel) m c us [] order less is at =
      let stays = (done-stays m c us [] at).0 in
      (m, simp stays, subst (IsSelector m s stub gap ext (us ++ [])) (sym (append-nil order)) is)
  wake_loop-IsSelector (suc fuel) m c us (y ∷ ys) order less is at =
      let (c', popped, at') = pop_front-cons m c us ys [] y at in
      let here = has-append-here us ys y in
      let member : IsMember m s.queue stub y = record {
        live = is.list.live y here;
        real = λ e. ne_of_has (us ++ y ∷ ys) here is.real e;
        owned = is.owned y here;
      } in
      let (m₁, run, is₁, done) =
        wake-IsSelector m s stub gap ext (us ++ y ∷ ys) order is y member in
      let at₁ =
        IsCursor-transfer m m₁ c' (us ++ y ∷ []) ys [] done.next done.prev done.value
          (λ a h.
            subst (λ f. Live f a) (sym done.counts) (Live-woken m.strong y a (m.is_enqueued y) h))
          at' in
      let shape : us ++ y ∷ ys ≡ (us ++ y ∷ []) ++ ys = sym (append_assoc us (y ∷ []) ys) in
      let (m', rest, is') =
        wake_loop-IsSelector fuel m₁ c' (us ++ y ∷ []) ys (woken_order m order y)
          (omega (arith, less))
          (subst (λ xs. IsSelector m₁ s stub gap ext xs (woken_order m order y)) shape is₁) at₁ in
      let flags =
        ap (λ f. asleep f ys) done.flags
        ∙ asleep-update m.is_enqueued y ys
            (has-right y us ys (Distinct-remove us ys y is.list.distinct).1) in
      (
        m',
        simp (popped, run, rest),
        subst₂ (IsSelector m' s stub gap ext) (sym shape)
            (ap (λ zs. woken_order m order y ++ zs) flags ∙ order-asleep m.is_enqueued order y ys)
            is',
      )

  -- For a well-formed selector `wake_all` does not run out of fuel and does not fault; afterwards
  -- the selector is well-formed, and exactly the tasks that were not marked as enqueued stand
  -- behind the former queue, in the order of the list.
  pub wake_all-IsSelector :
      (m : Mem T C) (tasks order : List Addr)
      → IsSelector m s stub gap ext tasks order
      → (m' : Mem T C) × (wake_all s m ≡ some (tt, m'))
        × IsSelector m' s stub gap ext tasks (order ++ asleep m.is_enqueued tasks)
  unfolding wake_all
  wake_all-IsSelector m tasks order is =
      let (c, run, at) = cursor-IsCursor m s.list tasks is.list in
      let (m', rest, is') =
        wake_loop-IsSelector (suc s.list.len) m c [] tasks order (omega (arith, is.list.count)) is
          at in
      (m', simp (run, rest), is')
