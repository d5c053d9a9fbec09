-- ===== src/Tests/RetainTests.antt =====
-- `retain` on the sample: the tasks other than 20 stay, each task is changed, and the predicate counts.
use async_selector.Base.{ℕ, ◌+◌, ◌≡◌, refl, Option, some, [], ◌∷◌, ◌==◌, not}
use async_selector.Memory.{Addr, Mem}
use async_selector.Memory.Release.{released}
use async_selector.NodeList.Invariant.{IsList}
use async_selector.Selector.{Selector}
use async_selector.Selector.Iter.{Predicate, retain}
use async_selector.Selector.Sift.{sift}
use async_selector.Selector.Retain.{retain-sift}
use async_selector.Tests.Sample.{memory, selector, two_nodes-IsList}

abbrev not_twenty : Predicate ℕ ℕ
not_twenty id task count = (not (task == 20), (task + 1, count + 1))

kept_3 : (sift not_twenty 0 memory.value (2 ∷ 3 ∷ [])).kept ≡ 3 ∷ []
kept_3 = refl

asked_twice : (sift not_twenty 0 memory.value (2 ∷ 3 ∷ [])).pred ≡ 2
asked_twice = refl

retain-sift_example :
    (s' : Selector ℕ) × (m' : Mem ℕ (Option ℕ)) × (retain not_twenty 0 selector memory
      ≡ some ((2, s'), m'))
    × IsList m' s'.list (3 ∷ [])
    × (m'.value ≡ (sift not_twenty 0 memory.value (2 ∷ 3 ∷ [])).values)
    × ((a : Addr) → m'.strong a ≡ released memory.strong (2 ∷ []) a)
retain-sift_example = retain-sift not_twenty memory selector (2 ∷ 3 ∷ []) 0 two_nodes-IsList
