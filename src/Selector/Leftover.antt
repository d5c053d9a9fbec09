-- ===== src/Selector/Leftover.antt =====
-- The wakers and ids (src/selector/waker.rs, src/selector/id.rs) that are left when the selector of
-- src/selector.rs is gone.
use async_selector.Base.{
  ℕ, ◌+◌, ◌-◌, ◌≡◌, ◌≢◌, refl, sym, ◌∙◌, ap, subst, true, none, some, List, [], ◌∷◌, arith, update,
  Bool-cases, inl, inr,
}
use async_selector.Memory.{Addr, Mem, Live, clone_arc, drop_arc}
use async_selector.Queue.{AtomicWaker, enqueue_node, enqueue_by_ref}
use async_selector.Selector.{run_event, run_events}
use async_selector.Selector.Counts.{Live-counted}
use async_selector.Selector.Permits.{Permits, Permitted, handles, handles_after, target}
use async_selector.Task.{Event, clone, wake, wake_by_ref, drop}

-- The queue `queue` is gone, and `ext` counts all owners of its nodes.
pub record IsLeft {T C : Type 0} (m : Mem T C) (queue stub : Addr) (ext : Addr → ℕ) : Type 0 where
  pub gone : m.queues queue ≡ none
  pub counted : (a : Addr) → a ≢ stub → m.queue a ≡ queue → m.strong a ≡ ext a

-- What the events leave alone.
pub record Silent {T C : Type 0} (m m' : Mem T C) : Type 0 where
  pub owner : m'.queue ≡ m.queue
  pub value : m'.value ≡ m.value
  pub queues : m'.queues ≡ m.queues
  pub woken : m'.woken ≡ m.woken

more :
    (strong ext : Addr → ℕ) (b a : Addr)
    → strong a ≡ ext a
    → strong b ≡ ext b
    → update strong b (strong b + 1) a ≡ update ext b (ext b + 1) a
more strong ext b a e f = ground arith

less :
    (strong ext : Addr → ℕ) (b a : Addr)
    → strong a ≡ ext a
    → strong b ≡ ext b
    → update strong b (strong b - 1) a ≡ update ext b (ext b - 1) a
less strong ext b a e f = ground arith

module _ {T C : Type 0} ⦃aw : AtomicWaker C⦄ (queue stub : Addr) where
  Left-Live :
      (m : Mem T C) (ext : Addr → ℕ) (e : Event)
      → IsLeft m queue stub ext
      → Permits m.queue queue stub [] ext (λ a. 0) e
      → Live m.strong (target e)
  Left-Live m ext e is may =
      Live-counted m.strong (target e) 0 (ext (target e)) may.present
        (omega (arith, is.counted (target e) may.real may.owned)) (omega (arith, may.held))

  gone_of :
      (m : Mem T C) (ext : Addr → ℕ) (a : Addr)
      → IsLeft m queue stub ext
      → m.queue a ≡ queue
      → m.queues (m.queue a) ≡ none
  gone_of m ext a is own = ap m.queues own ∙ is.gone

  -- One event.
  run_event-IsLeft :
      (m : Mem T C) (ext : Addr → ℕ) (e : Event)
      → IsLeft m queue stub ext
      → Permits m.queue queue stub [] ext (λ a. 0) e
      → (m' : Mem T C) × (run_event e m ≡ some (tt, m'))
        × IsLeft m' queue stub (handles ext e)
        × Silent m m'
  unfolding run_event clone_arc drop_arc enqueue_node enqueue_by_ref
  run_event-IsLeft m ext (clone b) is may =
      let live = Left-Live m ext (clone b) is may in
      (
        record m { strong = update m.strong b (m.strong b + 1) },
        simp live,
        record {
          gone = is.gone;
          counted = λ a real own.
              more m.strong ext b a (is.counted a real own) (is.counted b may.real may.owned);
        },
        record { owner = refl; value = refl; queues = refl; woken = refl },
      )
  run_event-IsLeft m ext (wake b) is may =
      let live = Left-Live m ext (wake b) is may in
      let gone = gone_of m ext b is may.owned in
      (
        record m {
          is_enqueued = update m.is_enqueued b true;
          strong = update m.strong b (m.strong b - 1);
        },
        elim (Bool-cases (m.is_enqueued b)) [
          | inl e ↦ simp (live, e)
          | inr e ↦ simp (live, e, gone)
        ],
        record {
          gone = is.gone;
          counted = λ a real own.
              less m.strong ext b a (is.counted a real own) (is.counted b may.real may.owned);
        },
        record { owner = refl; value = refl; queues = refl; woken = refl },
      )
  run_event-IsLeft m ext (wake_by_ref b) is may =
      let live = Left-Live m ext (wake_by_ref b) is may in
      let gone = gone_of m ext b is may.owned in
      (
        record m { is_enqueued = update m.is_enqueued b true },
        elim (Bool-cases (m.is_enqueued b)) [
          | inl e ↦ simp (live, e)
          | inr e ↦ simp (live, e, gone)
        ],
        record { gone = is.gone; counted = is.counted },
        record { owner = refl; value = refl; queues = refl; woken = refl },
      )
  run_event-IsLeft m ext (drop b) is may =
      let live = Left-Live m ext (drop b) is may in
      (
        record m { strong = update m.strong b (m.strong b - 1) },
        simp live,
        record {
          gone = is.gone;
          counted = λ a real own.
              less m.strong ext b a (is.counted a real own) (is.counted b may.real may.owned);
        },
        record { owner = refl; value = refl; queues = refl; woken = refl },
      )

  -- When the queue is gone and the user's handles are all owners of its nodes, a run of uses of the
  -- wakers and ids that are left (clone, wake, wake by reference, drop), each with a handle that
  -- the user has at that time, does not fault: it wakes no waker, and the owners of each node are
  -- afterwards the handles that the user has then.
  pub run_events-IsLeft :
      (m : Mem T C) (ext : Addr → ℕ) (es : List Event)
      → IsLeft m queue stub ext
      → Permitted m.queue queue stub [] ext (λ a. 0) es
      → (m' : Mem T C) × (run_events es m ≡ some (tt, m'))
        × IsLeft m' queue stub (handles_after ext es)
        × Silent m m'
  unfolding run_events
  run_events-IsLeft m ext [] is may =
      (m, refl, is, record { owner = refl; value = refl; queues = refl; woken = refl })
  run_events-IsLeft m ext (e ∷ es) is may =
      let (m₁, run, is₁, done) = run_event-IsLeft m ext e is may.0 in
      let may₁ =
        subst (λ f. Permitted f queue stub [] (handles ext e) (λ a. 0) es) (sym done.owner) may.1 in
      let (m', rest, is', done') = run_events-IsLeft m₁ (handles ext e) es is₁ may₁ in
      (
        m',
        simp (run, rest),
        is',
        record {
          owner = done'.owner ∙ done.owner;
          value = done'.value ∙ done.value;
          queues = done'.queues ∙ done.queues;
          woken = done'.woken ∙ done.woken;
        },
      )
