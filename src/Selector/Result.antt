-- ===== src/Selector/Result.antt =====
-- The results of `poll_next` of src/selector.rs, and what is left when it has come to the end of its loop.
use async_selector.Base.{
  ℕ, ◌≡◌, refl, ◌∙◌, ap, Bool, true, false, Option, none, some, List, [], ◌∷◌, arith, ◌==◌, has,
  ◌⊎◌, inl, inr, Bool-cases,
}
use async_selector.Memory.{Addr, Mem}
use async_selector.Queue.{AtomicWaker}
use async_selector.Queue.Order.{contents}
use async_selector.Selector.{Selector}
use async_selector.Selector.Invariant.{IsSelector}
use async_selector.Selector.Heard.{Quiet, Heard}
use async_selector.Queue.Enqueue.{Alert, Rings}
use async_selector.Selector.Poll.{Polled, at_end}
use async_selector.Task.{ready, pending, returned, panicked}

-- The results of `poll_next`: an output, the unwinding of a panic, or the end of the loop, with
-- `Ready(None)` exactly if no task is left.
abbrev pub IsResult : {Output : Type 0} → List Addr → Polled Output → Type 0
IsResult tasks panicked = Unit
IsResult tasks (returned pending) = (tasks ≡ []) → ⊥
IsResult tasks (returned (ready none)) = tasks ≡ []
IsResult tasks (returned (ready (some v))) = Unit

module _ {T C : Type 0} ⦃aw : AtomicWaker C⦄ (queue stub : Addr) (gap : Addr → Bool) (w : ℕ) where
  -- Behind the loop: the waker is stored or was woken, and it was woken if a node waits, except
  -- behind a missing link.
  abbrev pub Minds : Mem T C → (order : List Addr) → Type 0
  Minds m order =
      Alert m queue w
      × ((contents stub order ≡ []) ⊎ ((has w m.woken ≡ true) ⊎ ((a : Addr) × (gap a ≡ true))))

  -- The same, for the results that the loop gives at its end.
  abbrev pub Minded : {Output : Type 0} → Mem T C → Polled Output → (order : List Addr) → Type 0
  Minded m panicked order = Unit
  Minded m (returned pending) order = Minds m order
  Minded m (returned (ready none)) order = Minds m order
  Minded m (returned (ready (some v))) order = Unit

  pub at_end-Minded :
      (Output : Type 0) {S : Type 0} (m : Mem T C) (s : Selector S) (order : List Addr)
      → Minds m order
      → Minded {Output = Output} m (at_end s) order
  at_end-Minded Output m s order minds = elim (Bool-cases (s.list.len == 0)) [
    | inl e ↦ rw e minds
    | inr e ↦ rw e minds
  ]

  -- What is left behind a round that went to the end of the loop.
  pub Heard-Minds :
      (P : Type 0) (m : Mem T C) (start order : List Addr)
      → (P → contents stub start ≡ [])
      → Heard queue w P m start order
      → Minds m order
  Heard-Minds P m start order empty heard = (heard.alert, by_rings heard.rings)
    where
      by_rings :
          Rings m w (Quiet P start) order
          → (contents stub order ≡ []) ⊎ ((has w m.woken ≡ true) ⊎ ((a : Addr) × (gap a ≡ true)))
      by_rings (inl (p, same)) = inl (ap (contents stub) same ∙ empty p)
      by_rings (inr woken) = inr (inl woken)

module _ {T S C : Type 0} ⦃aw : AtomicWaker C⦄ (owner : Addr → Addr) (queue stub : Addr)
    (gap : Addr → Bool) (World : (Addr → ℕ) → S → (Addr → Option T) → Type 0) where
  pub at_end-IsResult :
      (Output : Type 0) (m : Mem T C) (s : Selector S) (ext : Addr → ℕ) (tasks order : List Addr)
      → IsSelector m s stub gap ext tasks order
      → IsResult {Output = Output} tasks (at_end s)
  at_end-IsResult Output m s ext [] order is =
      let e : (s.list.len == 0) ≡ true = ground (arith, is.list.count) in rw e refl
  at_end-IsResult Output m s ext (x ∷ xs) order is =
      let e : (s.list.len == 0) ≡ false = ground (arith, is.list.count) in rw e (λ h. cc)
