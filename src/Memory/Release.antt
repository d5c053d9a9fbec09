-- ===== src/Memory/Release.antt =====
-- The reference counts when a list of handles is dropped, as the drop of src/list.rs and that of
-- src/queue.rs do.
use native.Mathlib.Decide.{ℕ_discrete}
use async_selector.Base.{ℕ, ◌-◌, ◌≡◌, ◌≢◌, false, List, ◌∷◌, arith, if◌then◌else◌, has, update}
use async_selector.Memory.{Addr, is_live, Live}

-- One handle less for the items of a list.
abbrev pub released : (Addr → ℕ) → List Addr → Addr → ℕ
released strong xs a = if has a xs then strong a - 1 else strong a

pub Live-released_ne :
    (strong : Addr → ℕ) (x a : Addr)
    → a ≢ x
    → Live strong a
    → Live (update strong x (strong x - 1)) a
unfolding is_live
Live-released_ne strong x a ne h = ground arith

pub released-cons :
    (strong : Addr → ℕ) (x a : Addr) (xs : List Addr)
    → has x xs ≡ false
    → released (update strong x (strong x - 1)) xs a ≡ released strong (x ∷ xs) a
released-cons strong x a xs out = elim (ℕ_discrete a x) [
  | yes e ↦ ground arith
  | no ne ↦ ground arith
]
