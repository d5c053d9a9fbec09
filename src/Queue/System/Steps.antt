-- ===== src/Queue/System/Steps.antt =====
-- Every step of a producer or of the receiver of a queue of src/queue.rs keeps the invariant.
use mathlib.Core.Path.{subst₂}
use async_selector.Base.{
  ◌<◌, ◌-◌, ◌≡◌, refl, sym, ◌∙◌, ap, subst, true, false, none, some, List, [], ◌∷◌, ◌++◌, arith,
  last, inl, inr, update, update_self, update_ne, append_assoc, has-append,
}
use async_selector.Memory.{Addr, null, Mem, Live}
use async_selector.Queue.{AtomicWaker, publish, link, swap_is_enqueued}
use async_selector.Queue.Order.{IsQueue, contents}
use async_selector.Queue.Contents.{contents-snoc}
use async_selector.Queue.Publish.{published, publish-run, publish-IsQueue}
use async_selector.Queue.Enqueue.{linked, link-run, link-IsQueue}
use async_selector.Queue.Flag.{IsMember, flagged, flagged-IsQueue, not-mem_of_unmarked}
use async_selector.Queue.System.{Holder, nobody, System}
use async_selector.Queue.System.Owners.{in_hand, claimed-Owners, joined-Owners}
use async_selector.Queue.System.Handles.{handle-Live, unset-free}
use async_selector.Queue.System.Gaps.{
  gap-filled, gap-closed, filled-cases, closed-cases, Adjacent-last, Adjacent-snoc,
}
use async_selector.Queue.System.Holds.{
  is_some, is_gap, Adjacent, held-cases, Away, Holds, Away-MayPublish, Away-transfer,
}

-- `is_enqueued.swap(true)` on a node that is allocated.
pub claimed-run :
    {T C : Type 0} (s : System T C) (node : Addr)
    → Live s.mem.strong node
    → swap_is_enqueued node s.mem ≡ some (s.mem.is_enqueued node, flagged s.mem node)
claimed-run s node live = simp live

module _ {T C : Type 0} ⦃aw : AtomicWaker C⦄ (queue stub : Addr) (s : System T C)
    (order : List Addr) (holds : Holds queue stub s order) where
  pub claimed-Holds :
      (node : Addr) (h : Holder)
      → 0 < s.handles node
      → s.mem.is_enqueued node ≡ false
      → in_hand h ≡ 1
      → Holds queue stub
          (record s {
            mem = flagged s.mem node;
            holder = update s.holder node h;
            handles = update s.handles node (s.handles node - 1);
          })
          order
  claimed-Holds node h held unset one =
      let live = handle-Live queue stub s order holds node held in
      let real = holds.owners.real node held in
      let own = holds.owners.owned node held in
      let member : IsMember s.mem s.receiver stub node = record {
        live = live;
        real = real;
        owned = own ∙ sym holds.queue_here;
      } in
      record {
        is = flagged-IsQueue s.mem s.receiver stub (is_gap s.pending) order node holds.is member;
        queue_here = holds.queue_here;
        away = λ a away. elim (held-cases s.holder node h a away) [
          | inl (e, there) ↦ subst (Away (flagged s.mem node) queue stub order) (sym e) (record {
            live = live;
            out =
                not-mem_of_unmarked s.mem s.receiver stub (is_gap s.pending) order node holds.is
                  member unset;
            real = real;
            owned = own;
            marked = update_self s.mem.is_enqueued node true;
          })
          | inr (ne, there) ↦
              Away-transfer s.mem (flagged s.mem node) queue stub order order a refl refl
                (update_ne s.mem.is_enqueued true ne) (λ o. o) (holds.away a there)
        ];
        adjacent = holds.adjacent;
        owners =
            claimed-Owners holds.owners node h held (unset-free queue stub s order holds node unset)
              one;
        history = holds.history;
      }

  -- The memory after `publish`.
  abbrev pub joined_mem : Addr → Mem T C
  joined_mem node = published s.mem s.receiver stub (is_gap s.pending) order holds.is.waker node

  pub joined-run :
      (node : Addr)
      → Away s.mem queue stub order node
      → publish queue node s.mem ≡ some (last order null, joined_mem node)
  joined-run node away =
      ap (λ q. publish q node s.mem) (sym holds.queue_here)
      ∙ publish-run s.mem s.receiver stub (is_gap s.pending) order node holds.is (
          Away-MayPublish s.mem s.receiver stub (is_gap s.pending) order node
            (subst (λ q. Away s.mem q stub order node) (sym holds.queue_here) away))

  pub joined-Holds :
      (node : Addr)
      → Away s.mem queue stub order node
      → in_hand (s.holder node) ≡ 1
      → Holds queue stub
          (record s {
            mem = joined_mem node;
            holder = update s.holder node nobody;
            pending = update s.pending (last order null) (some node);
            joined = s.joined ++ node ∷ [];
          })
          (order ++ node ∷ [])
  joined-Holds node away one = record {
    is =
        subst (λ g. IsQueue (joined_mem node) s.receiver stub g (order ++ node ∷ []))
          (gap-filled s.pending (last order null) node)
          (publish-IsQueue s.mem s.receiver stub (is_gap s.pending) order node holds.is (
            Away-MayPublish s.mem s.receiver stub (is_gap s.pending) order node
              (subst (λ q. Away s.mem q stub order node) (sym holds.queue_here) away)));
    queue_here = holds.queue_here;
    away = λ a held. elim (held-cases s.holder node nobody a held) [
      | inl (e, h) ↦ absurd h
      | inr (ne, h) ↦
          Away-transfer s.mem (joined_mem node) queue stub order (order ++ node ∷ []) a refl refl
            refl (λ o. ground (arith, has-append a order (node ∷ []))) (holds.away a h)
    ];
    adjacent = λ a b e. elim (filled-cases s.pending (last order null) node a b e) [
      | inl (e, same) ↦
          subst₂ (Adjacent (order ++ node ∷ [])) (sym e) same
            (Adjacent-last order node holds.is.filled)
      | inr e ↦ Adjacent-snoc order node a b (holds.adjacent a b e)
    ];
    owners = joined-Owners holds.owners node away.out one;
    history =
        ap (λ xs. xs ++ node ∷ []) holds.history
        ∙ append_assoc s.handed (contents stub order) (node ∷ [])
        ∙ ap (λ xs. s.handed ++ xs) (sym (contents-snoc stub node order away.real));
  }

  -- The memory after `link`.
  abbrev connected_mem : (head node : Addr) → Mem T C
  connected_mem head node =
      linked s.mem s.receiver stub (is_gap s.pending) holds.is.waker order head node

  pub connected-run :
      (head node : Addr)
      → s.pending head ≡ some node
      → link queue head node s.mem ≡ some (tt, connected_mem head node)
  connected-run head node e =
      ap (λ q. link q head node s.mem) (sym holds.queue_here)
      ∙ link-run s.mem s.receiver stub (is_gap s.pending) order head node holds.is
          (holds.is.live head (holds.is.gaps head (ap is_some e)))

  connected-IsQueue :
      (head node : Addr)
      → s.pending head ≡ some node
      → IsQueue
          (connected_mem head node)
          s.receiver
          stub
          (update (is_gap s.pending) head false)
          order
  connected-IsQueue head node e =
      let (us, vs, split) = holds.adjacent head node e in by_order us vs order split holds.is
    where
      by_order :
          (us vs order : List Addr)
          → order ≡ us ++ head ∷ node ∷ vs
          → (is : IsQueue s.mem s.receiver stub (is_gap s.pending) order)
          → IsQueue
              (linked s.mem s.receiver stub (is_gap s.pending) is.waker order head node)
              s.receiver
              stub
              (update (is_gap s.pending) head false)
              order
      by_order us vs order split =
          subst
            (λ order.
              (is : IsQueue s.mem s.receiver stub (is_gap s.pending) order)
              → IsQueue (linked s.mem s.receiver stub (is_gap s.pending) is.waker order head node)
                  s.receiver stub (update (is_gap s.pending) head false) order)
            (sym split)
            (λ is. link-IsQueue s.mem s.receiver stub (is_gap s.pending) us vs head node is)

  pub connected-Holds :
      (head node : Addr)
      → s.pending head ≡ some node
      → Holds queue stub
          (record s { mem = connected_mem head node; pending = update s.pending head none })
          order
  connected-Holds head node e = record {
    is =
        subst (λ g. IsQueue (connected_mem head node) s.receiver stub g order)
          (gap-closed s.pending head) (connected-IsQueue head node e);
    queue_here = holds.queue_here;
    away = λ a held.
        Away-transfer s.mem (connected_mem head node) queue stub order order a refl refl refl
          (λ o. o) (holds.away a held);
    adjacent = λ a b e. holds.adjacent a b (closed-cases s.pending head a b e);
    owners = holds.owners;
    history = holds.history;
  }
