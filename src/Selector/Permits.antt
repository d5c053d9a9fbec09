-- ===== src/Selector/Permits.antt =====
-- What user code needs for a use of a waker or an id (src/selector/waker.rs, src/selector/id.rs), and
-- what it has behind it.
use async_selector.Base.{ℕ, ◌+◌, ◌-◌, ◌<◌, ◌≡◌, ◌≢◌, Bool, true, false, List, [], ◌∷◌, update}
use async_selector.Memory.{Addr, null}
use async_selector.Selector.Invariant.{share}
use async_selector.Task.{Event, clone, wake, wake_by_ref, drop}

abbrev pub target : Event → Addr
target (clone a) = a
target (wake a) = a
target (wake_by_ref a) = a
target (drop a) = a

-- The handles of user code after an event.
abbrev pub handles : (Addr → ℕ) → Event → Addr → ℕ
handles ext (clone a) = update ext a (ext a + 1)
handles ext (wake a) = update ext a (ext a - 1)
handles ext (wake_by_ref a) = ext
handles ext (drop a) = update ext a (ext a - 1)

-- The events that give a handle away.
abbrev pub spends : Event → Bool
spends (clone a) = false
spends (wake a) = true
spends (wake_by_ref a) = false
spends (drop a) = true

-- User code has the handle that an event uses. `ext` counts its own handles; `hand` and the list those
-- that it is lent, as the context's waker is during a poll, or the id of a borrowed task.
pub record Permits (owner : Addr → Addr) (queue stub : Addr) (tasks : List Addr)
    (ext hand : Addr → ℕ) (e : Event) : Type 0 where
  pub present : target e ≢ null
  pub real : target e ≢ stub
  pub owned : owner (target e) ≡ queue
  pub held : 0 < share (target e) tasks + (ext (target e) + hand (target e))
  pub spent : spends e ≡ true → 0 < ext (target e)

abbrev pub Permitted :
    (owner : Addr → Addr) (queue stub : Addr) (tasks : List Addr) (ext hand : Addr → ℕ)
    → List Event
    → Type 0
Permitted owner queue stub tasks ext hand [] = Unit
Permitted owner queue stub tasks ext hand (e ∷ es) =
    Permits owner queue stub tasks ext hand e
    × Permitted owner queue stub tasks (handles ext e) hand es

-- The handles after a run of events.
abbrev pub handles_after : (Addr → ℕ) → List Event → Addr → ℕ
handles_after ext [] = ext
handles_after ext (e ∷ es) = handles_after (handles ext e) es
