-- ===== src/Queue/System/Takes.antt =====
-- The steps of the receiver of a queue of src/queue.rs keep the invariant of the system.
use mathlib.Core.Path.{subst₂}
use async_selector.Base.{
  ◌+◌, ◌≡◌, refl, sym, ◌∙◌, ap, subst, ℕ, false, Option, none, some, List, [], ◌∷◌, ◌++◌, has, last,
  inl, inr, update, update_ne, append_assoc, ne_of_has,
}
use async_selector.Memory.{Addr, null, Mem, Live}
use async_selector.Queue.{AtomicWaker, Receiver, dequeue, into_inner, register_waker}
use async_selector.Queue.Order.{IsQueue, contents, dequeue_order}
use async_selector.Queue.Transfer.{IsQueue-transfer}
use async_selector.Queue.Contents.{Handed, dequeue_order-Handed}
use async_selector.Queue.Handed.{has-contents, handed-real, handed-has, handed-out, handed-others}
use async_selector.Queue.Fifo.{Dequeues, dequeue-Runs}
use async_selector.Queue.Marker.{register_waker_lem}
use async_selector.Queue.System.{nobody, taker, System}
use async_selector.Queue.System.Owners.{in_hand, Owners, left-Owners, taken-Owners, released-Owners}
use async_selector.Queue.System.Handles.{inside-free, Live-present}
use async_selector.Queue.System.Gaps.{Adjacent-dequeue}
use async_selector.Queue.System.Holds.{
  is_some, is_gap, Adjacent, held-cases, Away, Holds, Away-transfer,
}

-- The system after a `dequeue`, by its result.
abbrev pub dequeued : {T C : Type 0} → System T C → (Option Addr × Receiver) × Mem T C → System T C
dequeued s ((none, r), m) = record s { mem = m; receiver = r }
dequeued s ((some node, r), m) = record s {
  mem = m;
  receiver = r;
  holder = update s.holder node taker;
  handed = s.handed ++ node ∷ [];
}

module _ {T C : Type 0} ⦃aw : AtomicWaker C⦄ (queue stub : Addr) (s : System T C)
    (order : List Addr) (holds : Holds queue stub s order) where
  after-Holds :
      (next : Option Addr) (order' : List Addr) (r : Receiver) (m : Mem T C)
      → Handed stub (is_gap s.pending) order order' next
      → IsQueue m r stub (is_gap s.pending) order'
      → Dequeues s.mem m s.receiver r
      → ((a b : Addr) → s.pending a ≡ some b → Adjacent order' a b)
      → Holds queue stub (dequeued s ((next, r), m)) order'
  after-Holds none order' r m (same, why) is done adjacent = record {
    is = is;
    queue_here = done.queue ∙ holds.queue_here;
    away = λ a held.
        let away = holds.away a held in
        Away-transfer s.mem m queue stub order order' a done.keeps.strong done.keeps.queue
          (ap (λ f. f a) done.flags)
          (λ o.
            sym (has-contents stub a order' away.real)
            ∙ ap (has a) same
            ∙ has-contents stub a order away.real
            ∙ o)
          away;
    adjacent = adjacent;
    owners =
        subst₂ (λ f g. Owners f g s.holder s.handles queue stub order') (sym done.keeps.strong)
          (sym done.keeps.queue)
          (left-Owners holds.owners null order' (λ a real.
            sym (has-contents stub a order real)
            ∙ ap (has a) (sym same)
            ∙ has-contents stub a order' real));
    history = holds.history ∙ ap (λ xs. s.handed ++ xs) (sym same);
  }
  after-Holds (some node) order' r m handed is done adjacent =
      let d = holds.is.distinct in
      let i = handed-has stub node order order' d handed in
      let real = handed-real stub node order order' d handed in
      record {
        is = is;
        queue_here = done.queue ∙ holds.queue_here;
        away = λ a held. elim (held-cases s.holder node taker a held) [
          | inl (e, h) ↦ subst (Away m queue stub order') (sym e) (record {
            live = subst (λ f. Live f node) (sym done.keeps.strong) (holds.is.live node i);
            out = handed-out stub node order order' d handed;
            real = real;
            owned =
                ap (λ f. f node) done.keeps.queue ∙ holds.is.owned node i real ∙ holds.queue_here;
            marked = ap (λ f. f node) done.flags ∙ holds.is.marked node i real;
          })
          | inr (ne, h) ↦
              let away = holds.away a h in
              Away-transfer s.mem m queue stub order order' a done.keeps.strong done.keeps.queue
                (ap (λ f. f a) done.flags)
                (λ o. sym (handed-others stub node order order' d handed a away.real ne) ∙ o) away
        ];
        adjacent = adjacent;
        owners =
            subst₂ (λ f g. Owners f g (update s.holder node taker) s.handles queue stub order')
              (sym done.keeps.strong) (sym done.keeps.queue)
              (taken-Owners holds.owners node order' i (handed-out stub node order order' d handed)
                (inside-free queue stub s order holds node i)
                (handed-others stub node order order' d handed));
        history =
            holds.history
            ∙ ap (λ xs. s.handed ++ xs) handed
            ∙ sym (append_assoc s.handed (node ∷ []) (contents stub order'));
      }

  -- `dequeue` does not fault.
  pub dequeued-Holds :
      (next : Option Addr) × (order' : List Addr) × (r : Receiver) × (m : Mem T C) × (dequeue
          s.receiver s.mem
        ≡ some ((next, r), m))
      × Handed stub (is_gap s.pending) order order' next
      × Holds queue stub (dequeued s ((next, r), m)) order'
  dequeued-Holds =
      let gap = is_gap s.pending in
      let (r, m, run, is, same, done) = dequeue-Runs s.mem s.receiver stub gap order holds.is in
      let step = dequeue_order stub gap order in
      let handed = dequeue_order-Handed stub gap order holds.is.distinct in
      (
        step.0,
        step.1,
        r,
        m,
        run,
        handed,
        after-Holds step.0 step.1 r m handed is done
            (λ a b e. Adjacent-dequeue stub gap order a b (ap is_some e) (holds.adjacent a b e)),
      )

  -- The memory after `into_inner`.
  abbrev released_mem : Addr → Mem T C
  released_mem node = record s.mem { is_enqueued = update s.mem.is_enqueued node false }

  pub released-Holds :
      (node : Addr)
      → Away s.mem queue stub order node
      → in_hand (s.holder node) ≡ 1
      → (into_inner node s.mem ≡ some (node, released_mem node))
        × Holds queue stub
            (record s {
              mem = released_mem node;
              holder = update s.holder node nobody;
              handles = update s.handles node (s.handles node + 1);
            })
            order
  unfolding into_inner
  released-Holds node away one = (
    simp away.live,
    record {
      is =
          IsQueue-transfer s.mem (released_mem node) s.receiver stub (is_gap s.pending) order refl
            (λ a i. refl) (λ a i. refl) (λ a h. h)
            (λ a i real.
              update_ne s.mem.is_enqueued false (ne_of_has order i away.out)
              ∙ holds.is.marked a i real)
            holds.is;
      queue_here = holds.queue_here;
      away = λ a held. elim (held-cases s.holder node nobody a held) [
        | inl (e, h) ↦ absurd h
        | inr (ne, h) ↦
            Away-transfer s.mem (released_mem node) queue stub order order a refl refl
              (update_ne s.mem.is_enqueued false ne) (λ o. o) (holds.away a h)
      ];
      adjacent = holds.adjacent;
      owners =
          released-Owners holds.owners node one (Live-present s.mem.strong node away.live) away.real
            away.owned;
      history = holds.history;
    },
  )

  pub registered-Holds :
      (w : ℕ)
      → (m : Mem T C) × (register_waker s.receiver w s.mem
          ≡ some (last (contents stub order) null, m))
        × Holds queue stub (record s { mem = m }) order
  registered-Holds w =
      let (m, run, is, alert, done) =
        register_waker_lem s.mem s.receiver stub (is_gap s.pending) w order holds.is in
      (
        m,
        run,
        record {
          is = is;
          queue_here = holds.queue_here;
          away = λ a held.
              Away-transfer s.mem m queue stub order order a done.keeps.strong done.keeps.queue
                (ap (λ f. f a) done.flags) (λ o. o) (holds.away a held);
          adjacent = holds.adjacent;
          owners =
              subst₂ (λ f g. Owners f g s.holder s.handles queue stub order) (sym done.keeps.strong)
                (sym done.keeps.queue) holds.owners;
          history = holds.history;
        },
      )
