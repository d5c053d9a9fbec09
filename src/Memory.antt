-- ===== src/Memory.antt =====
-- The memory that src/list.rs and src/queue.rs share: the fields of the nodes, at addresses, the
-- queues, and the commands that read and write them. A command that touches a node which is not
-- allocated has no result.
pub mod Release
pub mod Fresh
use async_selector.Base.{
  arith, ◌+◌, ◌-◌, update, ℕ, ◌≡◌, Bool, true, false, not, Option, none, some, List, ◌==◌,
  if◌then◌else◌,
}

-- An address, `*const Node<T>`.
abbrev pub Addr : Type 0
Addr = ℕ

-- `std::ptr::null()`
abbrev pub null : Addr
null = 0

-- `Queue<T>`: `C` is the type of the waker cell.
pub record Queue (C : Type 0) : Type 0 where
  pub waker : C
  pub head : Addr
  pub tail : Addr
  pub stub : Addr

-- All nodes, a field at a time, and all queues. A node is allocated while its strong count is not
-- 0; a value that was taken or dropped is `none`. `woken` lists the wakers that were woken.
pub record Mem (T C : Type 0) : Type 0 where
  pub strong : Addr → ℕ
  pub queue : Addr → Addr
  pub is_enqueued : Addr → Bool
  pub next_enqueued : Addr → Addr
  pub next : Addr → Addr
  pub prev : Addr → Addr
  pub value : Addr → Option T
  pub queues : Addr → Option (Queue C)
  pub woken : List ℕ

unfoldable pub is_live : (Addr → ℕ) → Addr → Bool
is_live strong p = if p == null then false else not (strong p == 0)

abbrev pub Live : (Addr → ℕ) → Addr → Type 0
Live strong p = is_live strong p ≡ true

pub Live-ne_null : (strong : Addr → ℕ) (p : Addr) → Live strong p → (p == null) ≡ false
unfolding is_live
Live-ne_null strong p h = ground arith

pub Live-eq : (f g : Addr → ℕ) (a : Addr) → g a ≡ f a → Live f a → Live g a
unfolding is_live
Live-eq f g a e h = ground arith

-- `none` is undefined behaviour or a failed assertion.
abbrev pub Cmd : Type 0 → Type 0 → Type 0
Cmd M A = M → Option (A × M)

abbrev pub pure : {M A : Type 0} → A → Cmd M A
pure a m = some (a, m)

abbrev pub fault : {M A : Type 0} → Cmd M A
fault m = none

module _ {M A B : Type 0} where
  abbrev pub and_then : Option (A × M) → (A → Cmd M B) → Option (B × M)
  and_then none k = none
  and_then (some (a, m)) k = k a m

  infixl 5 ◌>>=◌ ◌>>◌
  abbrev pub ◌>>=◌ : Cmd M A → (A → Cmd M B) → Cmd M B
  c >>= k = λ m. and_then (c m) k

  abbrev pub ◌>>◌ : Cmd M A → Cmd M B → Cmd M B
  c >> d = c >>= λ _. d

module _ {T C : Type 0} where
  -- Reads a field of the node at `p`.
  abbrev pub read : {A : Type 0} → Addr → (Mem T C → A) → Cmd (Mem T C) A
  read p field m = if is_live m.strong p then some (field m, m) else none

  -- Changes a field of the node at `p`.
  abbrev pub write : Addr → (Mem T C → Mem T C) → Cmd (Mem T C) (Unit {0})
  write p change m = if is_live m.strong p then some (tt, change m) else none

  -- What a run must come to: a result, without a fault, that meets `P`.
  abbrev pub Ensures : {A : Type 0} → (A → Mem T C → Type 0) → Option (A × Mem T C) → Type 0
  Ensures P none = ⊥
  Ensures P (some (a, m)) = P a m

  -- `Arc::clone`
  unfoldable pub clone_arc : Addr → Cmd (Mem T C) Addr
  clone_arc p m =
      if is_live m.strong p
      then some (p, record m { strong = update m.strong p (m.strong p + 1) })
      else none

  -- The drop of an `Arc`. The value of a node is a `ManuallyDrop`, so nothing else happens to it.
  unfoldable pub drop_arc : Addr → Cmd (Mem T C) (Unit {0})
  drop_arc p = write p λ m. record m { strong = update m.strong p (m.strong p - 1) }
