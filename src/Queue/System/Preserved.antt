-- ===== src/Queue/System/Preserved.antt =====
-- Every step of the producers and the receiver of a queue of src/queue.rs keeps the invariant.
use mathlib.Core.Option.{some-injective}
use async_selector.Base.{
  ◌+◌, ◌-◌, ◌≡◌, refl, sym, ◌∙◌, ap, subst, some, none, List, [], ◌∷◌, ◌++◌, update,
}
use async_selector.Memory.{Addr, Mem, Live, clone_arc, drop_arc}
use async_selector.Queue.{AtomicWaker}
use async_selector.Queue.System.{
  nobody, borrower, producer, System, Step, allocate, copy, discard, busy, claim, borrow, lend,
  join, connect, miss, take, release, skip, register, Reach, here, next,
}
use async_selector.Queue.System.Holds.{Held, Holds}
use async_selector.Queue.System.Steps.{
  claimed-Holds, claimed-run, joined-run, joined-Holds, connected-run, connected-Holds,
}
use async_selector.Queue.System.Takes.{dequeued, dequeued-Holds, released-Holds, registered-Holds}
use async_selector.Queue.System.Owners.{in_hand}
use async_selector.Queue.System.Fresh.{allocated-Holds}
use async_selector.Queue.System.Handles.{
  handle-Live, copied-Holds, discarded-Holds, busy-Holds, lent-Holds, skipped-Holds,
}

pub clone-run :
    {T C : Type 0} (m : Mem T C) (node : Addr)
    → Live m.strong node
    → clone_arc node m ≡ some (node, record m { strong = update m.strong node (m.strong node + 1) })
unfolding clone_arc
clone-run m node live = simp live

pub drop-run :
    {T C : Type 0} (m : Mem T C) (node : Addr)
    → Live m.strong node
    → drop_arc node m ≡ some (tt, record m { strong = update m.strong node (m.strong node - 1) })
unfolding drop_arc
drop-run m node live = simp live

module _ {T C : Type 0} ⦃aw : AtomicWaker C⦄ (queue stub : Addr) where
  Step-Holds :
      (s u : System T C) (order : List Addr)
      → Step queue stub s u
      → Holds queue stub s order
      → (order' : List Addr) × Holds queue stub u order'
  Step-Holds s u order (allocate node v m present free run) holds =
      let (made, holds') = allocated-Holds queue stub s order holds node v present free in
      (
        order,
        subst
            (λ p.
              Holds queue stub (record s { mem = p.1; handles = update s.handles node 1 }) order)
            (some-injective _ _ (sym made ∙ run)) holds',
      )
  Step-Holds s u order (copy node m held run) holds = (
    order,
    subst
        (λ p.
          Holds queue stub
            (record s { mem = p.1; handles = update s.handles node (s.handles node + 1) }) order)
        (some-injective _ _
          (sym (clone-run s.mem node (handle-Live queue stub s order holds node held)) ∙ run))
        (copied-Holds queue stub s order holds node held),
  )
  Step-Holds s u order (discard node m held run) holds = (
    order,
    subst
        (λ p.
          Holds queue stub
            (record s { mem = p.1; handles = update s.handles node (s.handles node - 1) }) order)
        (some-injective _ _
          (sym (drop-run s.mem node (handle-Live queue stub s order holds node held)) ∙ run))
        (discarded-Holds queue stub s order holds node held),
  )
  Step-Holds s u order (busy node m held run) holds = (
    order,
    subst (λ p. Holds queue stub (record s { mem = p.1 }) order)
        (some-injective _ _
          (sym (claimed-run s node (handle-Live queue stub s order holds node held)) ∙ run))
        (busy-Holds queue stub s order holds node held),
  )
  Step-Holds s u order (claim node m held run) holds =
      let same =
        some-injective _ _
          (sym (claimed-run s node (handle-Live queue stub s order holds node held)) ∙ run) in
      (
        order,
        subst
            (λ m.
              Holds queue stub
                (record s {
                  mem = m;
                  holder = update s.holder node producer;
                  handles = update s.handles node (s.handles node - 1);
                })
                order)
            (ap (λ p. p.1) same)
            (claimed-Holds queue stub s order holds node producer held (ap (λ p. p.0) same) refl),
      )
  Step-Holds s u order (borrow node m held run) holds =
      let same =
        some-injective _ _
          (sym (claimed-run s node (handle-Live queue stub s order holds node held)) ∙ run) in
      (
        order,
        subst
            (λ m.
              Holds queue stub
                (record s {
                  mem = m;
                  holder = update s.holder node borrower;
                  handles = update s.handles node (s.handles node - 1);
                })
                order)
            (ap (λ p. p.1) same)
            (claimed-Holds queue stub s order holds node borrower held (ap (λ p. p.0) same) refl),
      )
  Step-Holds s u order (lend node m borrowed run) holds = (
    order,
    subst
        (λ p.
          Holds queue stub
            (record s {
              mem = p.1;
              holder = update s.holder node producer;
              handles = update s.handles node (s.handles node + 1);
            })
            order)
        (some-injective _ _
          (sym (clone-run s.mem node (holds.away node (subst Held (sym borrowed) tt)).live) ∙ run))
        (lent-Holds queue stub s order holds node (subst Held (sym borrowed) tt)),
  )
  Step-Holds s u order (join node head m held run) holds =
      let away = holds.away node (subst Held (sym held) tt) in
      (
        order ++ node ∷ [],
        subst
            (λ p.
              Holds queue stub
                (record s {
                  mem = p.1;
                  holder = update s.holder node nobody;
                  pending = update s.pending p.0 (some node);
                  joined = s.joined ++ node ∷ [];
                })
                (order ++ node ∷ []))
            (some-injective _ _ (sym (joined-run queue stub s order holds node away) ∙ run))
            (joined-Holds queue stub s order holds node away (ap in_hand held)),
      )
  Step-Holds s u order (connect head node m missing run) holds = (
    order,
    subst
        (λ p. Holds queue stub (record s { mem = p.1; pending = update s.pending head none }) order)
        (some-injective _ _ (sym (connected-run queue stub s order holds head node missing) ∙ run))
        (connected-Holds queue stub s order holds head node missing),
  )
  Step-Holds s u order (miss r m run) holds =
      let (x, order', r', m', run', handed, holds') = dequeued-Holds queue stub s order holds in
      (
        order',
        subst (λ p. Holds queue stub (dequeued s p) order') (some-injective _ _ (sym run' ∙ run))
            holds',
      )
  Step-Holds s u order (take node r m run) holds =
      let (x, order', r', m', run', handed, holds') = dequeued-Holds queue stub s order holds in
      (
        order',
        subst (λ p. Holds queue stub (dequeued s p) order') (some-injective _ _ (sym run' ∙ run))
            holds',
      )
  Step-Holds s u order (release node m held run) holds =
      let (run', holds') =
        released-Holds queue stub s order holds node (holds.away node (subst Held (sym held) tt))
          (ap in_hand held) in
      (
        order,
        subst
            (λ p.
              Holds queue stub
                (record s {
                  mem = p.1;
                  holder = update s.holder node nobody;
                  handles = update s.handles node (s.handles node + 1);
                })
                order)
            (some-injective _ _ (sym run' ∙ run)) holds',
      )
  Step-Holds s u order (skip node m held run) holds = (
    order,
    subst
        (λ p. Holds queue stub (record s { mem = p.1; holder = update s.holder node nobody }) order)
        (some-injective _ _
          (sym (drop-run s.mem node (holds.away node (subst Held (sym held) tt)).live) ∙ run))
        (skipped-Holds queue stub s order holds node (subst Held (sym held) tt)),
  )
  Step-Holds s u order (register w marker m run) holds =
      let (m', run', holds') = registered-Holds queue stub s order holds w in
      (
        order,
        subst (λ p. Holds queue stub (record s { mem = p.1 }) order)
            (some-injective _ _ (sym run' ∙ run)) holds',
      )

  -- In a state in which the invariant holds any number of steps, by any threads, leads to such a state.
  pub Reach-Holds :
      (s u : System T C) (order : List Addr)
      → Holds queue stub s order
      → Reach queue stub s u
      → (order' : List Addr) × Holds queue stub u order'
  Reach-Holds s u order holds here = (order, holds)
  Reach-Holds s u order holds (next {t = t} path step) =
      let (order', holds') = Reach-Holds s t order holds path in Step-Holds t u order' step holds'
