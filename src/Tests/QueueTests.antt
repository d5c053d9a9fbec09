-- ===== src/Tests/QueueTests.antt =====
-- The laws of the queue (src/queue.rs) on the sample.
use async_selector.Base.{ℕ, ◌≡◌, Option, some, List, [], ◌∷◌, arith, update}
use async_selector.Memory.{Addr, Mem}
use async_selector.Queue.{
  Receiver, enqueue, enqueue_inner, enqueue_node, enqueue_by_ref, dequeue, register_waker,
}
use async_selector.Queue.Order.{IsQueue}
use async_selector.Queue.Contents.{Handed}
use async_selector.Queue.Enqueue.{Stored, Enqueued, enqueue_inner-IsQueue}
use async_selector.Queue.Wake.{Wakes, enqueue_by_ref-IsQueue, enqueue-IsQueue, enqueue_node-eq}
use async_selector.Queue.Fifo.{Runs, Dequeues, dequeue-Runs, dequeue_fifo}
use async_selector.Queue.Marker.{Registers, register_waker_lem}
use async_selector.Tests.Sample.{
  cell, memory, receiver, no_gap, receiver-IsQueue, node_3-IsMember, node_4-MayPublish,
}

enqueue_inner-IsQueue_example :
    (m' : Mem ℕ (Option ℕ)) × (enqueue_inner 10 4 memory ≡ some (tt, m'))
    × IsQueue m' receiver 1 no_gap (1 ∷ 2 ∷ 4 ∷ [])
    × Enqueued memory m' 10
enqueue_inner-IsQueue_example =
    enqueue_inner-IsQueue memory receiver 1 no_gap (1 ∷ 2 ∷ []) 4 receiver-IsQueue node_4-MayPublish

enqueue_by_ref-IsQueue_example :
    (m' : Mem ℕ (Option ℕ)) × (enqueue_by_ref 3 memory ≡ some (tt, m'))
    × IsQueue m' receiver 1 no_gap (1 ∷ 2 ∷ 3 ∷ [])
    × Wakes memory m' 10 3 (update memory.strong 3 3)
enqueue_by_ref-IsQueue_example =
    enqueue_by_ref-IsQueue memory receiver 1 no_gap (1 ∷ 2 ∷ []) 3 receiver-IsQueue node_3-IsMember

enqueue-IsQueue_example :
    (m' : Mem ℕ (Option ℕ)) × (enqueue 10 3 memory ≡ some (tt, m'))
    × IsQueue m' receiver 1 no_gap (1 ∷ 2 ∷ 3 ∷ [])
    × Wakes memory m' 10 3 memory.strong
enqueue-IsQueue_example =
    enqueue-IsQueue memory receiver 1 no_gap (1 ∷ 2 ∷ []) 3 receiver-IsQueue node_3-IsMember
      (omega arith)

enqueue_node-eq_example : enqueue_node 3 memory ≡ enqueue 10 3 memory
enqueue_node-eq_example =
    enqueue_node-eq memory receiver 1 no_gap (1 ∷ 2 ∷ []) 3 receiver-IsQueue node_3-IsMember

dequeue-Runs_example :
    Runs memory memory receiver 1 no_gap receiver-IsQueue.waker
      (dequeue receiver memory)
      (some 2, 1 ∷ [])
dequeue-Runs_example = dequeue-Runs memory receiver 1 no_gap (1 ∷ 2 ∷ []) receiver-IsQueue

dequeue_fifo_example :
    (next : Option Addr) × (order : List Addr) × (r : Receiver) × (m' : Mem ℕ (Option ℕ)) × (dequeue
        receiver memory
      ≡ some ((next, r), m'))
    × IsQueue m' r 1 no_gap order
    × Handed 1 no_gap (1 ∷ 2 ∷ []) order next
    × Dequeues memory m' receiver r
dequeue_fifo_example = dequeue_fifo memory receiver 1 no_gap (1 ∷ 2 ∷ []) receiver-IsQueue

register_waker_lem_example :
    (m' : Mem ℕ (Option ℕ)) × (register_waker receiver 9 memory ≡ some (2, m'))
    × IsQueue m' receiver 1 no_gap (1 ∷ 2 ∷ [])
    × Stored m' 10 9
    × Registers memory m'
register_waker_lem_example =
    register_waker_lem memory receiver 1 no_gap 9 (1 ∷ 2 ∷ []) receiver-IsQueue
