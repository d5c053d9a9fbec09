-- ===== src/Tests/ExtendTests.antt =====
-- Two tasks collected into a selector, beside the sample's.
use async_selector.Base.{ℕ, ◌≡◌, refl, false, Option, none, some, [], ◌∷◌, arith}
use async_selector.Memory.{Mem}
use async_selector.Selector.{Selector, from_iter}
use async_selector.Selector.Invariant.{IsSelector}
use async_selector.Selector.Extend.{for_tasks, from_iter-drain}
use async_selector.Tests.Sample.{cell, memory}

from_iter-drain_example :
    (s : Selector ℕ) × (m' : Mem ℕ (Option ℕ)) × (from_iter 11 6 none 0
        ((7, 70) ∷ (8, 80) ∷ [])
        memory
      ≡ some (s, m'))
    × IsSelector m' s 6 (λ a. false) (λ a. 0) (7 ∷ 8 ∷ []) (6 ∷ 7 ∷ 8 ∷ [])
    × ((m'' : Mem ℕ (Option ℕ)) × (for_tasks 3 s m' ≡ some (70 ∷ 80 ∷ [], m'')))
from_iter-drain_example =
    from_iter-drain memory 11 6 none 0 ((7, 70) ∷ (8, 80) ∷ []) (λ e. omega arith)
      (λ a e. ground arith) refl (refl, (refl, tt))
      (
        record { ne_null = λ e. omega arith; unused = refl; unheld = refl },
        (record { ne_null = λ e. omega arith; unused = refl; unheld = refl }, tt),
      )
