-- ===== src/Queue/System/Handles.antt =====
-- Handles of the nodes of a queue of src/queue.rs: what they keep alive, and the steps on them.
use mathlib.Core.Bool.{false≢true}
use native.Mathlib.Decide.{ℕ_discrete}
use async_selector.Base.{
  ◌≡◌, ◌≢◌, ℕ, ◌+◌, ◌-◌, ◌<◌, refl, sym, ◌∙◌, subst, arith, true, false, List, has, share_of_mem,
  update, update_ne, inl, inr,
}
use async_selector.Memory.{Addr, null, is_live, Live, Live-eq}
use async_selector.Queue.Flag.{flagged, flagged-IsQueue}
use async_selector.Queue.System.{Holder, nobody, borrower, producer, taker, System}
use async_selector.Queue.System.Owners.{
  in_hand, Owners, cloned-Owners, dropped-Owners, lent-Owners, discarded-Owners,
}
use async_selector.Queue.System.Holds.{is_gap, Held, held-cases, Holds}

pub Live-present : (strong : Addr → ℕ) (a : Addr) → Live strong a → a ≢ null
unfolding is_live
Live-present strong a h = ground arith

Live-counted : (strong : Addr → ℕ) (a : Addr) → a ≢ null → 0 < strong a → Live strong a
unfolding is_live
Live-counted strong a present i = ground arith

pub held-one : (h : Holder) → Held h → in_hand h ≡ 1
held-one nobody held = absurd held
held-one borrower held = refl
held-one producer held = refl
held-one taker held = refl

pub free-held : (h : Holder) → (Held h → ⊥) → in_hand h ≡ 0
free-held nobody away = refl
free-held borrower away = absurd (away tt)
free-held producer away = absurd (away tt)
free-held taker away = absurd (away tt)

module _ {T C : Type 0} (queue stub : Addr) (s : System T C) (order : List Addr)
    (holds : Holds queue stub s order) where
  -- A handle keeps its node alive.
  pub handle-Live : (node : Addr) → 0 < s.handles node → Live s.mem.strong node
  handle-Live node held =
      let o = holds.owners in
      let c = o.counted node (o.real node held) (o.owned node held) in
      Live-counted s.mem.strong node (o.present node held) (omega (arith, c, held))

  pub unset-free : (node : Addr) → s.mem.is_enqueued node ≡ false → in_hand (s.holder node) ≡ 0
  unset-free node unset =
      free-held (s.holder node) (λ held. false≢true (sym unset ∙ (holds.away node held).marked))

  pub inside-free : (node : Addr) → has node order ≡ true → in_hand (s.holder node) ≡ 0
  inside-free node i =
      free-held (s.holder node) (λ held. false≢true (sym (holds.away node held).out ∙ i))

  -- Other counts, of the same owners.
  recounted-Holds :
      (strong : Addr → ℕ) (holder : Addr → Holder) (handles : Addr → ℕ)
      → strong stub ≡ s.mem.strong stub
      → ((a : Addr) → Held (holder a) → Held (s.holder a))
      → Owners strong s.mem.queue holder handles queue stub order
      → Holds queue stub
          (record s { mem = record s.mem { strong = strong }; holder = holder; handles = handles })
          order
  recounted-Holds strong holder handles at_stub fewer o = record {
    is = record {
      waker = holds.is.waker;
      found = holds.is.found;
      chain = holds.is.chain;
      settled = holds.is.settled;
      gaps = holds.is.gaps;
      distinct = holds.is.distinct;
      live = λ a i. in_order a i;
      stub_live = Live-eq s.mem.strong strong stub at_stub holds.is.stub_live;
      filled = holds.is.filled;
      owned = holds.is.owned;
      marked = holds.is.marked;
      behind = holds.is.behind;
    };
    queue_here = holds.queue_here;
    away = λ a held.
        let away = holds.away a (fewer a held) in
        record {
          live =
              let c = o.counted a away.real away.owned in
              let one = held-one (holder a) held in
              Live-counted strong a (Live-present s.mem.strong a away.live) (omega (arith, c, one));
          out = away.out;
          real = away.real;
          owned = away.owned;
          marked = away.marked;
        };
    adjacent = holds.adjacent;
    owners = o;
    history = holds.history;
  }
    where
      in_order : (a : Addr) → has a order ≡ true → Live strong a
      in_order a i = elim (ℕ_discrete a stub) [
        | yes e ↦
            subst (Live strong) (sym e)
              (Live-eq s.mem.strong strong stub at_stub holds.is.stub_live)
        | no ne ↦
            let c = o.counted a ne (holds.is.owned a i ne ∙ holds.queue_here) in
            let one = share_of_mem a order i in
            Live-counted strong a (Live-present s.mem.strong a (holds.is.live a i))
              (omega (arith, c, one))
      ]

  pub copied-Holds :
      (node : Addr)
      → 0 < s.handles node
      → Holds queue stub
          (record s {
            mem = record s.mem { strong = update s.mem.strong node (s.mem.strong node + 1) };
            handles = update s.handles node (s.handles node + 1);
          })
          order
  copied-Holds node held =
      recounted-Holds (update s.mem.strong node (s.mem.strong node + 1)) s.holder
        (update s.handles node (s.handles node + 1))
        (update_ne s.mem.strong _ (λ e. holds.owners.real node held (sym e))) (λ a h. h)
        (cloned-Owners holds.owners node held)

  pub discarded-Holds :
      (node : Addr)
      → 0 < s.handles node
      → Holds queue stub
          (record s {
            mem = record s.mem { strong = update s.mem.strong node (s.mem.strong node - 1) };
            handles = update s.handles node (s.handles node - 1);
          })
          order
  discarded-Holds node held =
      recounted-Holds (update s.mem.strong node (s.mem.strong node - 1)) s.holder
        (update s.handles node (s.handles node - 1))
        (update_ne s.mem.strong _ (λ e. holds.owners.real node held (sym e))) (λ a h. h)
        (dropped-Owners holds.owners node held)

  pub lent-Holds :
      (node : Addr)
      → Held (s.holder node)
      → Holds queue stub
          (record s {
            mem = record s.mem { strong = update s.mem.strong node (s.mem.strong node + 1) };
            holder = update s.holder node producer;
            handles = update s.handles node (s.handles node + 1);
          })
          order
  lent-Holds node held =
      let away = holds.away node held in
      recounted-Holds (update s.mem.strong node (s.mem.strong node + 1))
        (update s.holder node producer) (update s.handles node (s.handles node + 1))
        (update_ne s.mem.strong _ (λ e. away.real (sym e)))
        (λ a h. elim (held-cases s.holder node producer a h) [
          | inl (e, k) ↦ subst (λ b. Held (s.holder b)) (sym e) held
          | inr (ne, k) ↦ k
        ])
        (lent-Owners holds.owners node (held-one (s.holder node) held)
          (Live-present s.mem.strong node away.live) away.real away.owned)

  pub skipped-Holds :
      (node : Addr)
      → Held (s.holder node)
      → Holds queue stub
          (record s {
            mem = record s.mem { strong = update s.mem.strong node (s.mem.strong node - 1) };
            holder = update s.holder node nobody;
          })
          order
  skipped-Holds node held =
      let away = holds.away node held in
      recounted-Holds (update s.mem.strong node (s.mem.strong node - 1))
        (update s.holder node nobody) s.handles (update_ne s.mem.strong _ (λ e. away.real (sym e)))
        (λ a h. elim (held-cases s.holder node nobody a h) [
          | inl (e, k) ↦ absurd k
          | inr (ne, k) ↦ k
        ])
        (discarded-Owners holds.owners node (held-one (s.holder node) held))

  -- The flag of a node is set already.
  pub busy-Holds :
      (node : Addr)
      → 0 < s.handles node
      → Holds queue stub (record s { mem = flagged s.mem node }) order
  busy-Holds node held =
      let o = holds.owners in
      record {
        is = flagged-IsQueue s.mem s.receiver stub (is_gap s.pending) order node holds.is (record {
          live = handle-Live node held;
          real = o.real node held;
          owned = o.owned node held ∙ sym holds.queue_here;
        });
        queue_here = holds.queue_here;
        away = λ a there.
            let away = holds.away a there in
            record {
              live = away.live;
              out = away.out;
              real = away.real;
              owned = away.owned;
              marked = let m = away.marked in ground arith;
            };
        adjacent = holds.adjacent;
        owners = o;
        history = holds.history;
      }
