-- ===== src/Queue/System/Holds.antt =====
-- The invariant of the producers and the receiver of a queue of src/queue.rs.
use native.Mathlib.Decide.{ℕ_discrete}
use async_selector.Base.{
  ◌⊎◌, inl, inr, update, update_self, update_ne, ◌≡◌, ◌≢◌, sym, ◌∙◌, ap, subst, Bool, true, false,
  Option, none, some, List, ◌∷◌, ◌++◌, has,
}
use async_selector.Memory.{Addr, Mem, Live}
use async_selector.Queue.{Receiver}
use async_selector.Queue.Order.{IsQueue, contents}
use async_selector.Queue.Publish.{MayPublish}
use async_selector.Queue.System.Owners.{Owners}
use async_selector.Queue.System.{Holder, nobody, borrower, producer, taker, System}

abbrev pub is_some : Option Addr → Bool
is_some none = false
is_some (some b) = true

-- The nodes behind which a link is missing.
abbrev pub is_gap : (Addr → Option Addr) → Addr → Bool
is_gap pending a = is_some (pending a)

abbrev pub Held : Holder → Type 0
Held nobody = ⊥
Held borrower = Unit
Held producer = Unit
Held taker = Unit

pub held-cases :
    (holder : Addr → Holder) (node : Addr) (h : Holder) (a : Addr)
    → Held (update holder node h a)
    → ((a ≡ node) × Held h) ⊎ ((a ≢ node) × Held (holder a))
held-cases holder node h a held = elim (ℕ_discrete a node) [
  | yes e ↦ inl (e, subst Held (ap (update holder node h) e ∙ update_self holder node h) held)
  | no ne ↦ inr (ne, subst Held (update_ne holder h ne) held)
]

-- `b` stands behind `a`.
abbrev pub Adjacent : List Addr → Addr → Addr → Type 0
Adjacent order a b = (us : List Addr) × (vs : List Addr) × (order ≡ us ++ a ∷ b ∷ vs)

-- A node that is not in the queue and whose flag is set.
pub record Away {T C : Type 0} (m : Mem T C) (queue stub : Addr) (order : List Addr) (a : Addr)
    : Type 0 where
  pub live : Live m.strong a
  pub out : has a order ≡ false
  pub real : a ≢ stub
  pub owned : m.queue a ≡ queue
  pub marked : m.is_enqueued a ≡ true

pub record Holds {T C : Type 0} (queue stub : Addr) (s : System T C) (order : List Addr)
    : Type 0 where
  pub is : IsQueue s.mem s.receiver stub (is_gap s.pending) order
  pub queue_here : s.receiver.queue ≡ queue
  pub away : (a : Addr) → Held (s.holder a) → Away s.mem queue stub order a
  pub adjacent : (a b : Addr) → s.pending a ≡ some b → Adjacent order a b
  pub owners : Owners s.mem.strong s.mem.queue s.holder s.handles queue stub order
  pub history : s.joined ≡ s.handed ++ contents stub order

module _ {T C : Type 0} where
  pub Away-MayPublish :
      (m : Mem T C) (r : Receiver) (stub : Addr) (gap : Addr → Bool) (order : List Addr) (a : Addr)
      → Away m r.queue stub order a
      → MayPublish m r stub gap order a
  Away-MayPublish m r stub gap order a away = record {
    live = away.live;
    out = away.out;
    real = away.real;
    owned = away.owned;
    marked = away.marked;
  }

  -- The node is still away after a step that leaves its flag and its owner alone.
  pub Away-transfer :
      (m m' : Mem T C) (queue stub : Addr) (order order' : List Addr) (a : Addr)
      → m'.strong ≡ m.strong
      → m'.queue ≡ m.queue
      → m'.is_enqueued a ≡ m.is_enqueued a
      → (has a order ≡ false → has a order' ≡ false)
      → Away m queue stub order a
      → Away m' queue stub order' a
  Away-transfer m m' queue stub order order' a strong owner flag out away = record {
    live = subst (λ f. Live f a) (sym strong) away.live;
    out = out away.out;
    real = away.real;
    owned = ap (λ f. f a) owner ∙ away.owned;
    marked = flag ∙ away.marked;
  }
