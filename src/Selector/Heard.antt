-- ===== src/Selector/Heard.antt =====
-- The waker of `poll_next` of src/selector.rs in the rounds of its loop.
use async_selector.Base.{
  ℕ, ◌≡◌, refl, sym, subst, ◌⊎◌, inl, inr, true, List, [], ◌++◌, append-nil, has,
}
use async_selector.Memory.{Addr, Mem}
use async_selector.Queue.{AtomicWaker}
use async_selector.Queue.Enqueue.{Alert, Rings}

-- No node has joined the queue since the order was `start`, and `P` holds.
abbrev pub Quiet : Type 0 → (start order : List Addr) → Type 0
Quiet P start order = P × (order ≡ start)

module _ {T C : Type 0} ⦃aw : AtomicWaker C⦄ (queue : Addr) (w : ℕ) (P : Type 0) where
  -- The waker is stored or was woken, and it was woken if a node has joined the queue.
  pub record Heard (m : Mem T C) (start order : List Addr) : Type 0 where
    pub alert : Alert m queue w
    pub rings : Rings m w (Quiet P start) order

  pub heard_at :
      (m : Mem T C) (order : List Addr)
      → P ⊎ (has w m.woken ≡ true)
      → Rings m w (Quiet P order) order
  heard_at m order (inl p) = inl (p, refl)
  heard_at m order (inr woken) = inr woken

  -- Nothing was added.
  pub unheard :
      (m : Mem T C) (order : List Addr)
      → Alert m queue w
      → P ⊎ (has w m.woken ≡ true)
      → Heard m order (order ++ [])
  unheard m order alert heard = record {
    alert = alert;
    rings = subst (Rings m w (Quiet P order)) (sym (append-nil order)) (heard_at m order heard);
  }
