-- ===== src/Queue/System/Interleaved.antt =====
-- Every interleaving of producers and the receiver of a queue of src/queue.rs.
use mathlib.Core.Bool.{false≢true}
use async_selector.Base.{
  ◌+◌, ◌<◌, ◌≢◌, if◌then◌else◌, share, ◌≡◌, refl, sym, ◌∙◌, ap, subst, ◌⊎◌, inl, inr, ℕ, Option,
  none, some, List, [], ◌∷◌, ◌++◌, true,
}
use async_selector.Memory.{Addr, Mem}
use async_selector.Queue.{AtomicWaker, Receiver, publish, link, dequeue, into_inner, register_waker}
use async_selector.Queue.Order.{contents}
use async_selector.Queue.Contents.{Handed}
use async_selector.Queue.System.{producer, taker, System, Reach}
use async_selector.Memory.{clone_arc, drop_arc}
use async_selector.Queue.{swap_is_enqueued}
use async_selector.Queue.Handed.{has-contents}
use async_selector.Queue.System.{borrower}
use async_selector.Queue.System.Owners.{in_hand}
use async_selector.Queue.System.Handles.{handle-Live}
use async_selector.Queue.System.Preserved.{clone-run, drop-run, Reach-Holds}
use async_selector.Queue.System.Holds.{is_some, is_gap, Held, Holds}
use async_selector.Queue.System.Steps.{claimed-run, joined-run, connected-run}
use async_selector.Queue.System.Takes.{dequeued-Holds, released-Holds, registered-Holds}

-- A command that comes to a result.
abbrev pub Runs : {T C A : Type 0} → Option (A × Mem T C) → Type 0
Runs {T} {C} {A} run = (a : A) × (m : Mem T C) × (run ≡ some (a, m))

pending_of :
    (pending : Addr → Option Addr) (a : Addr)
    → is_some (pending a) ≡ true
    → (b : Addr) × (pending a ≡ some b)
pending_of pending a e = by_value (pending a) refl
  where
    by_value : (o : Option Addr) → pending a ≡ o → (b : Addr) × (pending a ≡ some b)
    by_value none same = absurd (false≢true (sym (ap is_some same) ∙ e))
    by_value (some b) same = (b, same)

module _ {T C : Type 0} ⦃aw : AtomicWaker C⦄ (queue stub : Addr) where
  -- What `dequeue` answers when the nodes `waiting` are in the queue.
  abbrev pub Answers : System T C → (waiting : List Addr) → Option Addr → Type 0
  Answers u waiting none = (waiting ≡ []) ⊎ ((a : Addr) × (b : Addr) × (u.pending a ≡ some b))
  Answers u waiting (some x) = (rest : List Addr) × (waiting ≡ x ∷ rest)

  answered :
      (u : System T C) (order order' : List Addr) (x : Option Addr)
      → Handed stub (is_gap u.pending) order order' x
      → Answers u (contents stub order) x
  answered u order order' none (same, inl empty) = inl empty
  answered u order order' none (same, inr (a, i, missing)) =
      let (b, e) = pending_of u.pending a missing in inr (a, b, e)
  answered u order order' (some x) handed = (contents stub order', handed)

  -- In every interleaving of producers and the receiver, from a state in which the invariant holds,
  -- the nodes that were published are, in the order of their publication, those that were handed
  -- out and then those that wait. At any time `dequeue` does not fault; it hands out the node that
  -- has waited longest, and none only if none waits or a producer has not yet linked the node that
  -- it has published.
  pub Reach-Fifo :
      (s u : System T C) (order : List Addr)
      → Holds queue stub s order
      → Reach queue stub s u
      → (waiting : List Addr) × (u.joined ≡ u.handed ++ waiting)
        × (x : Option Addr) × (r : Receiver) × (m : Mem T C) × (dequeue u.receiver u.mem
            ≡ some ((x, r), m))
        × Answers u waiting x
  Reach-Fifo s u order holds path =
      let (order', holds') = Reach-Holds queue stub s u order holds path in
      let (x, after, r, m, run, handed, _) = dequeued-Holds queue stub u order' holds' in
      (contents stub order', holds'.history, x, r, m, run, answered u order' after x handed)

  -- In every interleaving of producers and the receiver, from a state in which the invariant holds,
  -- no thread can meet a fault in its next step, although nodes are freed, and addresses used
  -- again, as soon as their last handle is dropped: not one that has a handle when it clones or
  -- drops it or swaps the flag of the node; not `enqueue_by_ref` when it clones the borrowed
  -- handle; not the producer that has acquired the flag of a node when it publishes the node, nor
  -- the one that has published a node when it links it, behind a node that may be another's; and
  -- not the receiver in `dequeue`, in `into_inner` or the drop of a node that it took, and in
  -- `register_waker`. The owners of a node are at any time the queue, if the node waits, the thread
  -- that has acquired the flag, and the other handles: nothing leaks.
  pub Reach-Runs :
      (s u : System T C) (order : List Addr)
      → Holds queue stub s order
      → Reach queue stub s u
      → ((node : Addr)
          → 0 < u.handles node
          → Runs (clone_arc node u.mem)
            × Runs (drop_arc node u.mem)
            × Runs (swap_is_enqueued node u.mem))
        × ((node : Addr) → u.holder node ≡ borrower → Runs (clone_arc node u.mem))
        × ((node : Addr) → u.holder node ≡ producer → Runs (publish queue node u.mem))
        × ((head node : Addr) → u.pending head ≡ some node → Runs (link queue head node u.mem))
        × Runs (dequeue u.receiver u.mem)
        × ((node : Addr)
            → u.holder node ≡ taker
            → Runs (into_inner node u.mem) × Runs (drop_arc node u.mem))
        × ((w : ℕ) → Runs (register_waker u.receiver w u.mem))
        × (waiting : List Addr) × (u.joined ≡ u.handed ++ waiting)
        × ((node : Addr)
            → node ≢ stub
            → u.mem.queue node ≡ queue
            → u.mem.strong node ≡ share node waiting + in_hand (u.holder node) + u.handles node)
  Reach-Runs s u order holds path =
      let (order', holds') = Reach-Holds queue stub s u order holds path in
      let (x, after, r, m, run, handed, _) = dequeued-Holds queue stub u order' holds' in
      (
        λ node held.
            let live = handle-Live queue stub u order' holds' node held in
            (
              (_, _, clone-run u.mem node live),
              (_, _, drop-run u.mem node live),
              (_, _, claimed-run u node live),
            ),
        λ node held.
            let away = holds'.away node (subst Held (sym held) tt) in
            (_, _, clone-run u.mem node away.live),
        λ node held.
            let away = holds'.away node (subst Held (sym held) tt) in
            (_, _, joined-run queue stub u order' holds' node away),
        λ head node missing. (_, _, connected-run queue stub u order' holds' head node missing),
        (_, m, run),
        λ node held.
            let away = holds'.away node (subst Held (sym held) tt) in
            (
              (_, _, (released-Holds queue stub u order' holds' node away (ap in_hand held)).0),
              (_, _, drop-run u.mem node away.live),
            ),
        λ w. let (m, run, _) = registered-Holds queue stub u order' holds' w in (_, m, run),
        contents stub order',
        holds'.history,
        λ node real own.
            holds'.owners.counted node real own
            ∙ ap (λ b. (if b then 1 else 0) + in_hand (u.holder node) + u.handles node)
                (sym (has-contents stub node order' real)),
      )
