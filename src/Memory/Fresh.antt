-- ===== src/Memory/Fresh.antt =====
-- The counts of a node at an address that was not in use (`Arc::new`).
use async_selector.Base.{ℕ, ◌+◌, ◌<◌, ◌≡◌, ◌≢◌, fun_ext, arith, update}
use async_selector.Memory.{Addr, null, is_live, Live}

pub Live-ne : (strong : Addr → ℕ) (fresh a : Addr) → strong fresh ≡ 0 → Live strong a → a ≢ fresh
unfolding is_live
Live-ne strong fresh a unused h e = ground arith

pub counted_twice :
    (strong : Addr → ℕ) (fresh : Addr)
    → update (update strong fresh 1) fresh (update strong fresh 1 fresh + 1) ≡ update strong fresh 2
counted_twice strong fresh = fun_ext λ a. ground arith

pub Live-update :
    (strong : Addr → ℕ) (fresh a : Addr) (n : ℕ)
    → fresh ≢ null
    → 0 < n
    → Live strong a
    → Live (update strong fresh n) a
unfolding is_live
Live-update strong fresh a n ne pos h = ground arith

pub Live-new :
    (strong : Addr → ℕ) (fresh : Addr) (n : ℕ)
    → fresh ≢ null
    → 0 < n
    → Live (update strong fresh n) fresh
unfolding is_live
Live-new strong fresh n ne pos = ground arith
