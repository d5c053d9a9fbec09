-- ===== src/Selector/Retain.antt =====
-- `retain` of src/selector.rs, over `ExtractIf` of src/selector/iter.rs, against a filter of the list
-- of the tasks.
use async_selector.Base.{
  ℕ, zero, suc, ◌<◌, ◌≤◌, ◌≡◌, refl, sym, subst, Bool-cases, inl, inr, true, false, some, List, [],
  ◌∷◌, ◌++◌, append-nil, arith, has, has-append, Distinct-remove, has-append-here, length,
  length-append, update, update_self, update_again, none,
}
use async_selector.Memory.{Addr, Mem}
use async_selector.Memory.Release.{released}
use async_selector.NodeList.Invariant.{IsList, filled-update}
use async_selector.NodeList.Unlink.{unlinked}
use async_selector.NodeList.Drop.{discarded, drop_removed-run}
use async_selector.NodeList.Cursor.{Cursor, remaining}
use async_selector.NodeList.Cursor.Place.{IsCursor}
use async_selector.NodeList.Cursor.Laws.{
  is_done-nil, is_done-middle, pop_front-cons, remove_front-cons, cursor-IsCursor,
}
use async_selector.Selector.{Selector}
use async_selector.Selector.Sift.{sift}
use async_selector.Selector.Iter.{Predicate, retain_loop, extract_if, retain}
use async_selector.Selector.Extracted.{
  turn, Sieves, valued-IsCursor, kept-Sieves, dropped-Sieves, looked-none, looked-kept,
  looked-dropped, discarded-IsCursor,
}

module _ {T C P : Type 0} (test : Predicate T P) where
  -- Both loops end where the list ends.
  turn-Sieves :
      (ys us : List Addr) (m : Mem T C) (c : Cursor) (p : P) (places rounds : ℕ)
      → IsCursor m c us ys []
      → length ys < places
      → length ys ≤ rounds
      → Sieves test m us
          (turn test places rounds (record { cursor = c; pred = p }) m)
          (sift test p m.value ys)
  unfolding retain_loop
  turn-Sieves ys us m c p zero rounds at more less = absurd (omega (arith, more))
  turn-Sieves (y ∷ ys) us m c p (suc places) zero at more less = absurd (omega (arith, less))
  turn-Sieves [] us m c p (suc places) rounds at more less = (
    record { cursor = c; pred = p },
    m,
    simp (looked-none test m c p places (is_done-nil m c us [] at)),
    subst (λ xs. IsCursor m c xs [] []) (sym (append-nil us)) at,
    refl,
    refl,
    λ a. refl,
  )
  turn-Sieves (y ∷ ys) us m c p (suc places) (suc rounds) at more less =
      let i : has y (us ++ (y ∷ ys ++ [])) ≡ true = has-append-here us (ys ++ []) y in
      let live = at.list.live y i in
      let (task, filled) = at.list.valued y i in
      let out = (Distinct-remove us (ys ++ []) y at.list.distinct).1 in
      let out' : has y ys ≡ false =
        ground (arith, has-append y us (ys ++ []), has-append y ys []) in
      let done = is_done-middle m c us [] ys [] y at in
      let new = (test y task p).1.0 in
      let q = (test y task p).1.1 in
      let m₁ = record m { value = update m.value y (some new) } in
      let at₁ : IsCursor m₁ c us (y ∷ ys) [] =
        valued-IsCursor m (update m.value y (some new)) c us (y ∷ ys) []
          (filled-update m.value (us ++ (y ∷ ys ++ [])) y new at.list.valued) at in
      elim (Bool-cases (test y task p).0) [
        | inl keeps ↦
            let (c', run, at₂) = pop_front-cons m₁ c us ys [] y at₁ in
            let rest =
              turn-Sieves ys (us ++ y ∷ []) m₁ c' q places (suc rounds) at₂ (omega (arith, more))
                (omega (arith, less)) in
            kept-Sieves test m us ys y p task
              (turn test (suc places) (suc rounds) (record { cursor = c; pred = p }) m)
              (turn test places (suc rounds) (record { cursor = c'; pred = q }) m₁) filled keeps
              (simp (looked-kept test m c p places y task c' done at.front live filled keeps run))
              rest
        | inr drops ↦
            let (c', run, at₂) = remove_front-cons m₁ c us ys [] y at₁ in
            let m₃ = discarded (unlinked m₁ y) y in
            let gone =
              drop_removed-run (unlinked m₁ y) y new live (update_self m.value y (some new)) in
            let at₃ = discarded-IsCursor (unlinked m₁ y) c' us ys y out at₂ in
            let left : length ys < suc (remaining c') = omega (
              arith,
              at₃.list.count,
              at₃.popped,
              length-append {0} us (ys ++ []),
              length-append {0} ys [],
            ) in
            let rest =
              turn-Sieves ys us m₃ c' q (suc (remaining c')) rounds at₃ left
                (omega (arith, less)) in
            dropped-Sieves test m m₃ us ys y p task
              (turn test (suc places) (suc rounds) (record { cursor = c; pred = p }) m)
              (turn test (suc (remaining c')) rounds (record { cursor = c'; pred = q }) m₃) filled
              drops
              (simp (
                looked-dropped test m c p places y task c' done at.front live filled (unlinked m₁ y)
                    drops run,
                gone,
              ))
              out' refl
              (subst
                (λ vs.
                  Sieves test m₃ us
                    (turn test (suc (remaining c')) rounds (record { cursor = c'; pred = q }) m₃)
                    (sift test q vs ys))
                (update_again m.value y (some new) none) rest)
      ]

  -- For a well-formed list `retain` ends, with as much fuel as it takes from the length of the
  -- list, does not fault, and is the filter `sift`: it asks the predicate about each task once, in
  -- the order of the list, and the tasks for which it answers `true` make the well-formed list that
  -- is left, in the same order. The values are those that the predicate left, and those of the
  -- other tasks are dropped; each of these has one owner less, and no other node.
  pub retain-sift :
      {S : Type 0} (m : Mem T C) (s : Selector S) (xs : List Addr) (p : P)
      → IsList m s.list xs
      → (s' : Selector S) × (m' : Mem T C) × (retain test p s m
          ≡ some (((sift test p m.value xs).pred, s'), m'))
        × IsList m' s'.list (sift test p m.value xs).kept
        × (m'.value ≡ (sift test p m.value xs).values)
        × ((a : Addr) → m'.strong a ≡ released m.strong (sift test p m.value xs).gone a)
  unfolding retain extract_if retain_loop
  retain-sift m s xs p is =
      let (c, run, at) = cursor-IsCursor m s.list xs is in
      let (e', m', rest, at', pred, values, counts) =
        turn-Sieves xs [] m c p (suc (remaining c)) s.list.len at
          (omega (arith, at.list.count, at.popped, length-append {0} xs []))
          (omega (arith, is.count)) in
      (
        record s { list = e'.cursor.list },
        m',
        simp (run, rest, pred),
        subst (IsList m' e'.cursor.list) (append-nil _) at'.list,
        values,
        counts,
      )
