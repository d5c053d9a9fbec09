-- ===== src/Selector/Breaks.antt =====
-- The end of a task in a round of `poll_next` (src/selector.rs): it breaks and is removed.
use async_selector.Base.{
  Bool-cases, inl, inr, ℕ, ◌+◌, ◌-◌, ◌≡◌, refl, sym, subst, Bool, true, false, Option, none, some,
  List, ◌++◌, has, update, ap, ◌∙◌, update_self, update_there,
}
use async_selector.Memory.{Addr, Mem, drop_arc}
use async_selector.Queue.{AtomicWaker, Receiver}
use async_selector.NodeList.{get_pin, drop_removed}
use async_selector.NodeList.Unlink.{unlinked}
use async_selector.Selector.{Selector}
use async_selector.Selector.Invariant.{IsSelector}
use async_selector.Selector.Permits.{handles_after}
use async_selector.Selector.Careful.{Careful}
use async_selector.Selector.Hands.{lend-none, lend-one, emptied, drop_lent, drop_removed_lent}
use async_selector.Selector.Kept.{Kept, Settles, Busy, IsOwn-here, call-Busy}
use async_selector.Selector.Lent.{removed-Busy, dropped_arc-Busy}
use async_selector.Selector.Poll.{Round, go_on, output, unwound, after_break, on_break}
use async_selector.Selector.Turn.{
  Turned, broken, polled, without, round_of, Follows, IsWithout-without,
}
use async_selector.Task.{Task, ready, break, Finished, Outcome, returned, panicked}
use async_selector.Selector.Continues.{unchanged-Settles, Settles-behind, Settles-via}

output_round :
    {Output : Type 0} (is_last : Bool) (o : Option Output)
    → (elim o [ none ↦ go_on is_last | some v ↦ output v ])
      ≡ round_of is_last (elim o [ none ↦ none | some v ↦ some (returned v) ])
output_round is_last none = refl
output_round is_last (some v) = refl

module _ {T S C Cont Break Output : Type 0} ⦃aw : AtomicWaker C⦄ (owner : Addr → Addr)
    (queue stub : Addr) (gap : Addr → Bool) (World : (Addr → ℕ) → S → (Addr → Option T) → Type 0)
    (w : ℕ) (Quiet : List Addr → Type 0) (t : Task T S Cont Break Output)
    (careful : Careful owner queue stub World t) (r : Receiver) (node : Addr) (is_last : Bool) where
  -- The states and the ends at these parameters.
  abbrev Here : Mem T C → Selector S → (Addr → ℕ) → List Addr → List Addr → ℕ → Type 0
  Here m s ext tasks order n = Busy owner queue stub gap World w Quiet m s r ext tasks order node n

  abbrev Settled :
      Option ((Round Output × Selector S) × Mem T C)
      → (order tasks : List Addr) → (Addr → Option T)
      → Turned T S Output
      → Type 0
  Settled run order tasks values turned =
      Settles owner queue stub gap World w Quiet run r order
        (Follows node is_last tasks values turned)

  -- Both handles of a removed task are dropped.
  released-Kept :
      (m : Mem T C) (s : Selector S) (ext : Addr → ℕ) (rest order : List Addr)
      → has node rest ≡ false
      → Here m s ext rest order 2
      → (m' : Mem T C) × (drop_removed node m ≡ some (tt, emptied m node))
        × (drop_arc node (emptied m node) ≡ some (tt, m'))
        × Kept owner queue stub gap World w Quiet m' s r ext rest order
        × (m'.value ≡ update m.value node none)
  released-Kept m s ext rest order gone busy =
      let own = IsOwn-here owner queue stub gap World w Quiet r node m s ext rest order 2 busy in
      let (run, is) =
        drop_removed_lent m s stub gap ext rest order node 1 busy.task busy.selector own gone
          busy.filled in
      let (dropped, is') = drop_lent (emptied m node) s stub gap ext rest order node 0 is own in
      let m' = record (emptied m node) {
        strong = update (emptied m node).strong node ((emptied m node).strong node - 1);
      } in
      (
        m',
        run,
        dropped,
        record {
          selector = subst (λ f. IsSelector m' s stub gap f rest order) (lend-none ext node) is';
          world = careful.drops ext s.strategy m.value node busy.world;
          owner_kept = busy.owner_kept;
          queue_kept = busy.queue_kept;
          alert = busy.alert;
          rings = busy.rings;
        },
        refl,
      )

  after_break-Settles :
      (m : Mem T C) (s : Selector S) (ext : Addr → ℕ) (tasks rest order : List Addr) (task : T)
      (done : Outcome (Finished Output))
      → has node rest ≡ false
      → rest ≡ without node tasks
      → m.value node ≡ some task
      → Here m s ext rest order 2
      → Settled
          (after_break t s node node is_last done m)
          order
          tasks
          m.value
          (broken node task s.strategy ext done)
  unfolding after_break
  after_break-Settles m s ext tasks rest order task panicked gone left filled busy =
      let (m', run, dropped, kept, emptied_eq) = released-Kept m s ext rest order gone busy in
      let turned = broken node task s.strategy ext panicked in
      Settles-via owner queue stub gap World w Quiet t careful r node is_last order tasks m.value
        turned (simp (run, dropped))
        (unchanged-Settles owner queue stub gap World w Quiet t careful r node is_last m' s ext rest
          order tasks m.value turned unwound kept
          (record {
            round_eq = refl;
            tasks_eq = left;
            value_eq = emptied_eq;
            strategy_eq = refl;
            handles_eq = refl;
          }))
  after_break-Settles m s ext tasks rest order task (returned f) gone left filled busy =
      let round : Round Output = elim f.output [ none ↦ go_on is_last | some v ↦ output v ] in
      let turned = broken node task s.strategy ext (returned f) in
      elim (Bool-cases f.keeps) [
        | inl e ↦
            let (dropped, busy') =
              dropped_arc-Busy owner queue stub gap World w Quiet r node m s ext rest order 1
                busy in
            let m' = record m { strong = update m.strong node (m.strong node - 1) } in
            Settles-via owner queue stub gap World w Quiet t careful r node is_last order tasks
              m.value turned (simp (e, dropped))
              (unchanged-Settles owner queue stub gap World w Quiet t careful r node is_last m' s
                (update ext node (ext node + 1)) rest order tasks m.value turned round
                (record {
                  selector =
                      subst (λ f. IsSelector m' s stub gap f rest order) (sym (lend-one ext node))
                        busy'.selector;
                  world = careful.gains ext s.strategy m.value node busy'.world;
                  owner_kept = busy'.owner_kept;
                  queue_kept = busy'.queue_kept;
                  alert = busy'.alert;
                  rings = busy'.rings;
                })
                (record {
                  round_eq = output_round is_last f.output;
                  tasks_eq = left;
                  value_eq = rw e (sym (update_there m.value node (some task) filled));
                  strategy_eq = refl;
                  handles_eq = rw e refl;
                }))
        | inr e ↦
            let (m', run, dropped, kept, emptied_eq) = released-Kept m s ext rest order gone busy in
            Settles-via owner queue stub gap World w Quiet t careful r node is_last order tasks
              m.value turned (simp (e, run, dropped))
              (unchanged-Settles owner queue stub gap World w Quiet t careful r node is_last m' s
                ext rest order tasks m.value turned round kept
                (record {
                  round_eq = output_round is_last f.output;
                  tasks_eq = left;
                  value_eq = rw e emptied_eq;
                  strategy_eq = refl;
                  handles_eq = rw e refl;
                }))
      ]

  pub on_break-Settles :
      (m : Mem T C) (s : Selector S) (ext : Addr → ℕ) (tasks order : List Addr) (task : T)
      (val : Break)
      → has node tasks ≡ true
      → m.value node ≡ some task
      → Here m s ext tasks order 1
      → Settled
          (on_break t s (record { list = s.list; node = node }) node is_last val m)
          order
          tasks
          m.value
          (polled t node task s.strategy ext (returned (ready (break val))))
  unfolding on_break get_pin
  on_break-Settles m s ext tasks order task val listed filled busy =
      let live = busy.selector.list.live node listed in
      let (l, rest, run, busy₁, gone) =
        removed-Busy owner queue stub gap World w Quiet r node m s ext tasks order listed busy in
      let c = t.transform_break node task s.strategy val in
      let fits =
        careful.breaks rest ext s.strategy m.value node task val busy₁.own filled busy₁.world in
      let (m₂, more, called, busy₂, changed) =
        call-Busy owner queue stub gap World w Quiet r node t (unlinked m node)
          (record s { list = l }) ext rest order 2 c live busy₁ fits in
      Settles-behind owner queue stub gap World w Quiet t careful r node is_last order more tasks
        (broken node c.task c.strategy (handles_after ext c.events) c.outcome) (some c.task)
        (simp (run, live, filled, called)) changed
        (after_break-Settles m₂ (record s { list = l; strategy = c.strategy })
          (handles_after ext c.events) tasks rest (order ++ more) c.task c.outcome gone.gone
          (IsWithout-without node tasks rest gone)
          (ap (λ f. f node) changed ∙ update_self m.value node (some c.task)) busy₂)
