-- ===== src/Tests/SelectorTests.antt =====
-- The laws of the selector (src/selector.rs) on the sample.
use async_selector.Base.{ℕ, ◌≡◌, refl, true, false, Option, none, some, [], ◌∷◌, arith, has, update}
use async_selector.Memory.{Mem}
use async_selector.NodeList.Unlink.{unlinked}
use async_selector.Queue.Enqueue.{Alert}
use async_selector.Selector.New.{new-IsSelector}
use async_selector.Selector.{new, Selector, get, contains, remove, push}
use async_selector.Selector.Invariant.{IsSelector}
use async_selector.Selector.Push.{push-IsSelector}
use async_selector.Selector.Access.{get-eq, contains-eq, remove-absent, remove-present}
use async_selector.Tests.Sample.{
  cell, memory, selector, no_gap, ids, selector-IsSelector, two_nodes-IsList, node_5-IsFresh,
  node_4-Live,
}

get-eq_example : get selector 3 memory ≡ some (some 3, memory)
get-eq_example =
    get-eq memory selector 1 no_gap ids (2 ∷ 3 ∷ []) (1 ∷ 2 ∷ []) selector-IsSelector 3
      (two_nodes-IsList.live 3 refl) (λ e. omega arith)

contains-eq_example : contains selector 4 memory ≡ some (false, memory)
contains-eq_example =
    contains-eq memory selector 1 no_gap ids (2 ∷ 3 ∷ []) (1 ∷ 2 ∷ []) selector-IsSelector 4
      node_4-Live (λ e. omega arith)

remove-absent_example : remove selector 4 memory ≡ some ((none, selector), memory)
remove-absent_example =
    remove-absent memory selector 1 no_gap ids (2 ∷ 3 ∷ []) (1 ∷ 2 ∷ []) selector-IsSelector 4
      node_4-Live (λ e. omega arith) refl

remove-present_example :
    (s : Selector ℕ) × (remove selector 3 memory ≡ some ((some 3, s), unlinked memory 3))
    × IsSelector (unlinked memory 3) s 1 no_gap (update ids 3 2) (2 ∷ []) (1 ∷ 2 ∷ [])
    × (s.queue ≡ selector.queue)
    × (s.strategy ≡ selector.strategy)
remove-present_example =
    remove-present memory selector 1 no_gap ids (2 ∷ []) [] (1 ∷ 2 ∷ []) 3 selector-IsSelector

push-IsSelector_example :
    (s : Selector ℕ) × (m' : Mem ℕ (Option ℕ)) × (push 5 selector 50 memory ≡ some ((5, s), m'))
    × IsSelector m' s 1 no_gap ids (2 ∷ 3 ∷ 5 ∷ []) (1 ∷ 2 ∷ 5 ∷ [])
    × (m'.value ≡ update memory.value 5 (some 50))
    × (m'.strong ≡ update memory.strong 5 2)
    × ((w : ℕ) → Alert memory 10 w → has w m'.woken ≡ true)
push-IsSelector_example =
    push-IsSelector memory selector 1 no_gap ids (2 ∷ 3 ∷ []) (1 ∷ 2 ∷ []) selector-IsSelector 5 50
      node_5-IsFresh

new-IsSelector_example :
    (s : Selector ℕ) × (m' : Mem ℕ (Option ℕ)) × (new 11 6 none 0 memory ≡ some (s, m'))
    × IsSelector m' s 6 (λ a. false) (λ a. 0) [] (6 ∷ [])
    × (s.strategy ≡ 0)
    × (m'.strong ≡ update memory.strong 6 1)
new-IsSelector_example =
    new-IsSelector memory 11 6 none 0 (λ a. 0) (λ e. omega arith) (λ a e. ground arith)
