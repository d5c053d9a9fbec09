-- ===== src/Selector/Rounded.antt =====
-- The rounds that a run of `poll_next` of src/selector.rs consists of, and the nodes that they take.
use async_selector.Base.{◌≡◌, Option, none, some, List, [], ◌∷◌}
use async_selector.Memory.{Addr, Mem}
use async_selector.Queue.{AtomicWaker, Receiver, dequeue}
use async_selector.Selector.{Selector}
use async_selector.Selector.Careful.{Careful}
use async_selector.Selector.Poll.{Round, Polled, poll_round}
use async_selector.Task.{Task}

-- The nodes with the one that a `dequeue` hands out.
abbrev pub with_next : Option Addr → List Addr → List Addr
with_next none nodes = nodes
with_next (some node) nodes = node ∷ nodes

module _ {T S C Cont Break Output : Type 0} ⦃aw : AtomicWaker C⦄ (t : Task T S Cont Break Output)
    (marker : Addr) where
  -- Rounds, one behind the other, from a state to another, and the nodes that they take out of the
  -- queue. Nothing is said of when there is no further round.
  pub data Rounded (s' : Selector S) (m' : Mem T C)
      : Selector S → Mem T C → List Addr → Type 0 where
    over : Rounded s' m' s' m' []
    one_more :
        {s s₁ : Selector S} {m m₁ m₂ : Mem T C} {next : Option Addr} {r : Receiver}
        {round : Round Output} {nodes : List Addr}
        → dequeue s.queue m ≡ some ((next, r), m₁)
        → poll_round t s marker m ≡ some ((round, s₁), m₂)
        → Rounded s' m' s₁ m₂ nodes
        → Rounded s' m' s m (with_next next nodes)

-- What a run of the loop comes to.
abbrev Ran : (T S C Output : Type 0) → Type 0
Ran T S C Output = Option ((Option (Polled Output) × Selector S) × Mem T C)
