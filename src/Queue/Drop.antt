-- ===== src/Queue/Drop.antt =====
-- The drop of a queue of src/queue.rs: its handles of the nodes that wait in it are dropped, and the
-- stub with it.
use native.Mathlib.Decide.{ℕ_discrete}
use async_selector.Base.{
  ℕ, zero, suc, ◌-◌, ◌≡◌, ◌≢◌, refl, sym, ◌∙◌, ap, Bool, true, false, none, some, List, [], ◌∷◌,
  arith, ◌==◌, if◌then◌else◌, first, Option, has, has_here, ne_of_has, Distinct, length, update,
  update_ne, update_self, subst, eq→==, ne→==,
}
use async_selector.Memory.{
  Queue, and_then, Addr, null, Mem, Live, Live-ne_null, Cmd, pure, fault, ◌>>=◌, ◌>>◌, drop_arc,
}
use async_selector.Queue.{Receiver, load_queue, load_next_enqueued}
use async_selector.Queue.Order.{Chain, IsQueue}
use async_selector.Memory.Release.{released, released-cons, Live-released_ne}

module _ {T C : Type 0} where
  -- The loop of the guard in `Queue::drop`, on fuel.
  unfoldable pub drop_nodes : ℕ → (stub tail : Addr) → Cmd (Mem T C) (Unit {0})
  drop_nodes zero stub tail = if tail == null then pure tt else fault
  drop_nodes (suc fuel) stub tail =
      if tail == null
      then pure tt
      else (if tail == stub
          then (do next ← load_next_enqueued stub; drop_nodes fuel stub next)
          else (do next ← load_next_enqueued tail; drop_arc tail; drop_nodes fuel stub next))

  -- `Queue::drop`: behind the loop the stub is released, and no `upgrade` succeeds any more.
  abbrev drop_fields : (fuel : ℕ) → (queue : Addr) → Queue C → Cmd (Mem T C) (Unit {0})
  drop_fields fuel queue q = do
    drop_nodes fuel q.stub q.tail
    λ m.
        some
          (tt, record m { strong = update m.strong q.stub 0; queues = update m.queues queue none })

  unfoldable pub drop_queue : (fuel : ℕ) → (queue : Addr) → Cmd (Mem T C) (Unit {0})
  drop_queue fuel queue = do q ← load_queue queue; drop_fields fuel queue q

-- The counts after the loop.
abbrev pub dropped_all : (stub : Addr) → List Addr → (Addr → ℕ) → Addr → ℕ
dropped_all stub [] strong = strong
dropped_all stub (x ∷ xs) strong =
    if x == stub
    then dropped_all stub xs strong
    else dropped_all stub xs (update strong x (strong x - 1))

dropped_all-stub :
    (stub : Addr) (xs : List Addr) (strong : Addr → ℕ)
    → dropped_all stub xs strong stub ≡ strong stub
dropped_all-stub stub [] strong = refl
dropped_all-stub stub (x ∷ xs) strong = elim (ℕ_discrete x stub) [
  | yes e ↦ rw (eq→== e) (dropped_all-stub stub xs strong)
  | no ne ↦ rw (ne→== ne) (
      dropped_all-stub stub xs (update strong x (strong x - 1))
      ∙ update_ne strong (strong x - 1) (λ e. ne (sym e)))
]

released-skip :
    (stub a : Addr) (xs : List Addr) (strong : Addr → ℕ)
    → a ≢ stub
    → released strong xs a ≡ released strong (stub ∷ xs) a
released-skip stub a xs strong ne = ground arith

pub dropped_all-released :
    (stub a : Addr) (xs : List Addr) (strong : Addr → ℕ)
    → Distinct xs
    → a ≢ stub
    → dropped_all stub xs strong a ≡ released strong xs a
dropped_all-released stub a [] strong d real = refl
dropped_all-released stub a (x ∷ xs) strong d real = elim (ℕ_discrete x stub) [
  | yes e ↦ rw (eq→== e) (
      dropped_all-released stub a xs strong d.1 real
      ∙ released-skip stub a xs strong real
      ∙ ap (λ y. released strong (y ∷ xs) a) (sym e))
  | no ne ↦ rw (ne→== ne) (
      dropped_all-released stub a xs (update strong x (strong x - 1)) d.1 real
      ∙ released-cons strong x a xs d.0)
]

has-later : (a x : Addr) (xs : List Addr) → has a xs ≡ true → has a (x ∷ xs) ≡ true
has-later a x xs i = ground arith

module _ {T C : Type 0} (stub : Addr) (gap : Addr → Bool)
    (closed : (a : Addr) → gap a ≡ false) where
  drop_nodes-run :
      (xs : List Addr) (m : Mem T C)
      → Chain m.next_enqueued gap xs
      → Distinct xs
      → ((a : Addr) → has a xs ≡ true → Live m.strong a)
      → drop_nodes (length xs) stub (first xs null) m
        ≡ some (tt, record m { strong = dropped_all stub xs m.strong })
  unfolding drop_nodes drop_arc
  drop_nodes-run [] m chain d live = refl
  drop_nodes-run (x ∷ xs) m chain d live =
      let here = live x (has_here x xs) in
      let next : m.next_enqueued x ≡ first xs null =
        chain.0 ∙ ap (λ g. if g then null else first xs null) (closed x) in
      elim (ℕ_discrete x stub) [
        | yes e ↦
            let at_stub : Live m.strong stub = subst (Live m.strong) e here in
            let behind : m.next_enqueued stub ≡ first xs null = ap m.next_enqueued (sym e) ∙ next in
            let rest = drop_nodes-run xs m chain.1 d.1 (λ a i. live a (has-later a x xs i)) in
            simp (Live-ne_null m.strong x here, eq→== e, at_stub, behind, rest)
        | no ne ↦
            let m₁ = record m { strong = update m.strong x (m.strong x - 1) } in
            let rest = drop_nodes-run xs m₁ chain.1 d.1 (λ a i.
              Live-released_ne m.strong x a (ne_of_has xs i d.0) (live a (has-later a x xs i))) in
            simp (Live-ne_null m.strong x here, ne→== ne, here, next, rest)
      ]

  -- For a well-formed queue without a producer between its two steps, the drop of the queue ends
  -- after as many rounds as its nodes and does not fault. Each node that waits in it, and no other
  -- but the stub, has one owner less; the stub is freed, and nothing can join the queue any more.
  -- Nothing else changes.
  pub drop_queue_lem :
      (m : Mem T C) (r : Receiver) (order : List Addr)
      → IsQueue m r stub gap order
      → (strong : Addr → ℕ) × (drop_queue (length order) r.queue m
          ≡ some (tt, record m { strong = strong; queues = update m.queues r.queue none }))
        × ((a : Addr) → a ≢ stub → strong a ≡ released m.strong order a)
        × (strong stub ≡ 0)
  unfolding drop_queue
  drop_queue_lem m r order is =
      let counts = dropped_all stub order m.strong in
      (
        update counts stub 0,
        ap
              (λ (o : Option (Queue C)).
                and_then (elim o [ none ↦ none | some q ↦ some (q, m) ])
                  (drop_fields (length order) r.queue))
              is.found
            ∙ simp (drop_nodes-run order m is.chain is.distinct is.live),
        λ a real.
            update_ne counts 0 real ∙ dropped_all-released stub a order m.strong is.distinct real,
        update_self counts stub 0,
      )
