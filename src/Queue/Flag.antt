-- ===== src/Queue/Flag.antt =====
-- The flag `is_enqueued` of a node of src/queue.rs, and its reference count, before the node is published.
use mathlib.Core.Bool.{false≢true}
use async_selector.Base.{
  fun_ext, ◌≡◌, ◌≢◌, refl, sym, ◌∙◌, Bool, true, false, List, [], ◌∷◌, ◌++◌, arith, if◌then◌else◌,
  has, update, update_self, inl, inr, ◌+◌, ◌-◌, ◌<◌, ℕ, Bool-cases,
}
use async_selector.Memory.{Addr, Mem, is_live, Live}
use async_selector.Queue.{Receiver}
use async_selector.Queue.Order.{IsQueue}
use async_selector.Queue.Transfer.{IsQueue-transfer}
use async_selector.Queue.Publish.{MayPublish}

-- A node of the queue: allocated, not the stub, and created by this queue.
pub record IsMember {T C : Type 0} (m : Mem T C) (r : Receiver) (stub node : Addr) : Type 0 where
  pub live : Live m.strong node
  pub real : node ≢ stub
  pub owned : m.queue node ≡ r.queue

Live-cloned :
    (strong : Addr → ℕ) (node a : Addr)
    → Live strong a
    → Live (update strong node (strong node + 1)) a
unfolding is_live
Live-cloned strong node a h = ground arith

flag-set : (f : Addr → Bool) (node a : Addr) → f a ≡ true → update f node true a ≡ true
flag-set f node a h = ground arith

flag-kept : (f : Addr → Bool) (node : Addr) → f node ≡ true → update f node true ≡ f
flag-kept f node h = fun_ext λ a. ground arith

pub Live-dropped_of :
    (strong : Addr → ℕ) (order : List Addr) (node a : Addr)
    → (has node order ≡ true → 1 < strong node)
    → has a order ≡ true
    → Live strong a
    → Live (update strong node (strong node - 1)) a
unfolding is_live
Live-dropped_of strong order node a shared i h = ground arith

pub Live-dropped_ne :
    (strong : Addr → ℕ) (node a : Addr)
    → a ≢ node
    → Live strong a
    → Live (update strong node (strong node - 1)) a
unfolding is_live
Live-dropped_ne strong node a ne h = ground arith

module _ {T C : Type 0} where
  -- The order after a wakeup of `node`.
  abbrev pub woken_order : Mem T C → List Addr → Addr → List Addr
  woken_order m order node = if m.is_enqueued node then order else order ++ node ∷ []

  abbrev pub flagged : Mem T C → Addr → Mem T C
  flagged m node = record m { is_enqueued = update m.is_enqueued node true }

  abbrev pub dropped : Mem T C → Addr → Mem T C
  dropped m node = record (flagged m node) { strong = update m.strong node (m.strong node - 1) }

  abbrev pub cloned : Mem T C → Addr → Mem T C
  cloned m node = record (flagged m node) { strong = update m.strong node (m.strong node + 1) }

  module _ (m : Mem T C) (r : Receiver) (stub : Addr) (gap : Addr → Bool) (order : List Addr)
      (node : Addr) (is : IsQueue m r stub gap order) (member : IsMember m r stub node) where
    -- A node whose flag is not set is not in the queue.
    pub not-mem_of_unmarked : m.is_enqueued node ≡ false → has node order ≡ false
    not-mem_of_unmarked e = elim (Bool-cases (has node order)) [
      | inl i ↦ absurd (false≢true (sym e ∙ is.marked node i member.real))
      | inr o ↦ o
    ]

    pub flagged-IsQueue : IsQueue (flagged m node) r stub gap order
    flagged-IsQueue =
        IsQueue-transfer m (flagged m node) r stub gap order refl (λ a i. refl) (λ a i. refl)
          (λ a h. h) (λ a i e. flag-set m.is_enqueued node a (is.marked a i e)) is

    pub cloned-IsQueue : IsQueue (cloned m node) r stub gap order
    cloned-IsQueue =
        IsQueue-transfer (flagged m node) (cloned m node) r stub gap order refl (λ a i. refl)
          (λ a i. refl) (λ a h. Live-cloned m.strong node a h) flagged-IsQueue.marked
          flagged-IsQueue

    pub flagged-MayPublish :
        m.is_enqueued node ≡ false → MayPublish (flagged m node) r stub gap order node
    flagged-MayPublish e = record {
      live = member.live;
      out = not-mem_of_unmarked e;
      real = member.real;
      owned = member.owned;
      marked = update_self m.is_enqueued node true;
    }

    pub cloned-MayPublish :
        m.is_enqueued node ≡ false → MayPublish (cloned m node) r stub gap order node
    cloned-MayPublish e = record {
      live = Live-cloned m.strong node node member.live;
      out = not-mem_of_unmarked e;
      real = member.real;
      owned = member.owned;
      marked = update_self m.is_enqueued node true;
    }
