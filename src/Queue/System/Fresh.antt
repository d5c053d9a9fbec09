-- ===== src/Queue/System/Fresh.antt =====
-- The allocation of a node for a queue of src/queue.rs, at an address that is not in use.
use async_selector.Base.{
  ◌≡◌, ◌≢◌, ◌==◌, refl, sym, ◌∙◌, arith, false, some, List, has, update, update_ne, Bool-cases, inl,
  inr,
}
use async_selector.Memory.Fresh.{Live-ne, Live-update}
use async_selector.Memory.{Addr, null, Mem, Live}
use async_selector.Queue.{ListProtected, create}
use async_selector.Queue.Transfer.{IsQueue-transfer}
use async_selector.Queue.System.{System}
use async_selector.Queue.System.Owners.{created-Owners}
use async_selector.Queue.System.Handles.{handle-Live, free-held}
use async_selector.Queue.System.Holds.{is_gap, Holds}

module _ {T C : Type 0} (queue stub : Addr) (s : System T C) (order : List Addr)
    (holds : Holds queue stub s order) (node : Addr) (v : ListProtected T) (present : node ≢ null)
    (free : s.mem.strong node ≡ 0) where
  abbrev pub allocated_mem : Mem T C
  allocated_mem = record s.mem {
    strong = update s.mem.strong node 1;
    queue = update s.mem.queue node queue;
    is_enqueued = update s.mem.is_enqueued node false;
    next_enqueued = update s.mem.next_enqueued node null;
    next = update s.mem.next node v.next;
    prev = update s.mem.prev node v.prev;
    value = update s.mem.value node v.value;
  }

  elsewhere : (a : Addr) → Live s.mem.strong a → a ≢ node
  elsewhere a live = Live-ne s.mem.strong node a free live

  not_held : s.handles node ≡ 0
  not_held = elim (Bool-cases (s.handles node == 0)) [
    | inl e ↦ ground arith
    | inr e ↦
        absurd (elsewhere node (handle-Live queue stub s order holds node (ground arith)) refl)
  ]

  pub allocated-Holds :
      (create node queue v s.mem ≡ some (node, allocated_mem))
      × Holds queue stub (record s { mem = allocated_mem; handles = update s.handles node 1 }) order
  unfolding create
  allocated-Holds = (
    refl,
    record {
      is =
          IsQueue-transfer s.mem allocated_mem s.receiver stub (is_gap s.pending) order refl
            (λ a i. update_ne s.mem.next_enqueued null (elsewhere a (holds.is.live a i)))
            (λ a i. update_ne s.mem.queue queue (elsewhere a (holds.is.live a i)))
            (λ a h. Live-update s.mem.strong node a 1 present (omega arith) h)
            (λ a i real.
              update_ne s.mem.is_enqueued false (elsewhere a (holds.is.live a i))
              ∙ holds.is.marked a i real)
            holds.is;
      queue_here = holds.queue_here;
      away = λ a held.
          let away = holds.away a held in
          record {
            live = Live-update s.mem.strong node a 1 present (omega arith) away.live;
            out = away.out;
            real = away.real;
            owned = update_ne s.mem.queue queue (elsewhere a away.live) ∙ away.owned;
            marked = update_ne s.mem.is_enqueued false (elsewhere a away.live) ∙ away.marked;
          };
      adjacent = holds.adjacent;
      owners =
          created-Owners holds.owners node present (λ e. elsewhere stub holds.is.stub_live (sym e))
            (elim (Bool-cases (has node order)) [
              | inl i ↦ absurd (elsewhere node (holds.is.live node i) refl)
              | inr o ↦ o
            ])
            (free-held (s.holder node) (λ held. elsewhere node (holds.away node held).live refl))
            not_held;
      history = holds.history;
    },
  )
