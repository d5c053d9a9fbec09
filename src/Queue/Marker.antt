-- ===== src/Queue/Marker.antt =====
-- `register_waker` of src/queue.rs: the snapshot marker, and the waker that the next enqueue wakes.
use native.Mathlib.Decide.{ℕ_discrete}
use async_selector.Base.{
  not, if◌then◌else◌, ℕ, ◌≡◌, ◌≢◌, refl, sym, ◌∙◌, ap, Bool, some, List, [], ◌∷◌, arith, ◌==◌,
  first, last, has-last, ne_of_has, update, update_self,
}
use async_selector.Memory.{Addr, null, Mem, Queue}
use async_selector.Queue.{AtomicWaker, Receiver, register_waker}
use async_selector.Queue.Order.{KeepsNodes, IsQueue, contents}
use async_selector.Queue.Contents.{second_last-any, last-contents, second_last-contents}
use async_selector.Queue.Enqueue.{Stored}

-- The result of `register_waker`, by the head, the tail and the node in front of the stub.
abbrev marker : (stub head tail before : Addr) → Addr
marker stub head tail before =
    if not (head == stub) then head else (if tail == stub then null else before)

marker-one : (stub x before : Addr) → marker stub x x before ≡ last (contents stub (x ∷ [])) null
marker-one stub x before = ground arith

marker-stub :
    (stub tail head before : Addr)
    → head ≡ stub
    → tail ≢ stub
    → marker stub head tail before ≡ before
marker-stub stub tail head before e n = ground arith

marker-head : (stub head tail before : Addr) → head ≢ stub → marker stub head tail before ≡ head
marker-head stub head tail before n = ground arith

-- What `register_waker` leaves alone.
pub record Registers {T C : Type 0} (m m' : Mem T C) : Type 0 where
  pub keeps : KeepsNodes m m'
  pub flags : m'.is_enqueued ≡ m.is_enqueued
  pub links : m'.next_enqueued ≡ m.next_enqueued
  pub woken : m'.woken ≡ m.woken

module _ {T C : Type 0} ⦃aw : AtomicWaker C⦄ (m : Mem T C) (r : Receiver) (stub : Addr)
    (gap : Addr → Bool) (w : ℕ) where
  -- The memory with the waker stored.
  abbrev pub registered : C → (head tail : Addr) → Mem T C
  registered waker head tail = record m {
    queues =
        update m.queues r.queue
          (some (record { waker = aw.register w waker; head = head; tail = tail; stub = stub }));
  }

  registered-IsQueue :
      (order : List Addr) (is : IsQueue m r stub gap order)
      → IsQueue (registered is.waker (last order null) (first order null)) r stub gap order
  registered-IsQueue order is = record {
    waker = aw.register w is.waker;
    found = update_self m.queues r.queue _;
    chain = is.chain;
    settled = is.settled;
    gaps = is.gaps;
    distinct = is.distinct;
    live = is.live;
    stub_live = is.stub_live;
    filled = is.filled;
    owned = is.owned;
    marked = is.marked;
    behind = is.behind;
  }

  marker-run :
      (waker : C) (head tail : Addr)
      → m.queues r.queue ≡ some (record { waker = waker; head = head; tail = tail; stub = stub })
      → register_waker r w m
        ≡ some (marker stub head tail r.stub_predecessor, registered waker head tail)
  unfolding register_waker
  marker-run waker head tail found =
      let stored =
        update_self m.queues r.queue
          (some (record { waker = aw.register w waker; head = head; tail = tail; stub = stub })) in
      ground arith

  marker-eq :
      (order : List Addr) (is : IsQueue m r stub gap order)
      → marker stub (last order null) (first order null) r.stub_predecessor
        ≡ last (contents stub order) null
  marker-eq [] is = absurd (is.filled refl)
  marker-eq (x ∷ []) is = marker-one stub x r.stub_predecessor
  marker-eq (x ∷ y ∷ ys) is = elim (ℕ_discrete (last ys y) stub) [
    | yes e ↦
        marker-stub stub x (last ys y) r.stub_predecessor e
          (λ h. ne_of_has (y ∷ ys) (has-last y ys) is.distinct.0 (e ∙ sym h))
        ∙ is.behind e
        ∙ second_last-any x y ys r.stub_predecessor null
        ∙ sym (second_last-contents stub x y ys null is.distinct e)
    | no n ↦
        marker-head stub (last ys y) x r.stub_predecessor n
        ∙ sym (last-contents stub x (y ∷ ys) null n)
  ]

  -- In any well-formed state of the queue `register_waker` does not fault and returns the newest of
  -- the nodes that wait, also if the stub stands behind it, or null if no node waits. The waker is
  -- stored in the queue, where `take` finds it, and none is woken; the queue stays well-formed with
  -- the same order, and nothing of the nodes changes.
  pub register_waker_lem :
      (order : List Addr)
      → IsQueue m r stub gap order
      → (m' : Mem T C) × (register_waker r w m ≡ some (last (contents stub order) null, m'))
        × IsQueue m' r stub gap order
        × Stored m' r.queue w
        × Registers m m'
  register_waker_lem order is =
      let q : Queue C = record {
        waker = aw.register w is.waker;
        head = last order null;
        tail = first order null;
        stub = stub;
      } in
      (
        registered is.waker (last order null) (first order null),
        marker-run is.waker (last order null) (first order null) is.found
            ∙ ap (λ a. some (a, registered is.waker (last order null) (first order null)))
                (marker-eq order is),
        registered-IsQueue order is,
        (q, update_self m.queues r.queue (some q), aw.take-register w is.waker),
        record {
          keeps = record { strong = refl; queue = refl; next = refl; prev = refl; value = refl };
          flags = refl;
          links = refl;
          woken = refl;
        },
      )
