-- ===== src/Selector/Shows.antt =====
-- The turns of Selector/Serve in the rounds of the loop of `poll_next` (src/selector.rs).
use async_selector.Base.{
  ℕ, ◌≡◌, sym, ◌∙◌, ap, Bool, true, false, Option, none, some, List, [], ◌∷◌, arith, ◌==◌,
}
use async_selector.Memory.{Addr, Mem}
use async_selector.Queue.{AtomicWaker}
use async_selector.Selector.{Selector}
use async_selector.Selector.Invariant.{IsSelector}
use async_selector.Selector.Careful.{Careful}
use async_selector.Selector.Loop.{Stays}
use async_selector.Selector.Poll.{Polled, at_end}
use async_selector.Selector.Serve.{View, view, idle, turn_at, serve}
use async_selector.Task.{Task}

at_end-idle :
    {T S C Output : Type 0} ⦃aw : AtomicWaker C⦄ (m : Mem T C) (s : Selector S) (stub : Addr)
    (gap : Addr → Bool) (ext : Addr → ℕ) (tasks order : List Addr)
    → IsSelector m s stub gap ext tasks order
    → at_end {Output = Output} s ≡ idle tasks
at_end-idle m s stub gap ext [] order is =
    let e : (s.list.len == 0) ≡ true = ground (arith, is.list.count) in simp e
at_end-idle m s stub gap ext (x ∷ xs) order is =
    let e : (s.list.len == 0) ≡ false = ground (arith, is.list.count) in simp e

module _ {T S C Cont Break Output : Type 0} ⦃aw : AtomicWaker C⦄ (owner : Addr → Addr)
    (queue stub : Addr) (gap : Addr → Bool) (World : (Addr → ℕ) → S → (Addr → Option T) → Type 0)
    (t : Task T S Cont Break Output) (careful : Careful owner queue stub World t) where
  -- A run that shows the turns of some nodes.
  abbrev pub Serves :
      Option ((Option (Polled Output) × Selector S) × Mem T C) → List Addr → View T S → Type 0
  Serves run nodes v =
      (s' : Selector S) × (m' : Mem T C) × (ext' : Addr → ℕ) × (tasks' : List Addr) × (order' : List
        Addr)
      × (run ≡ some ((some (serve t nodes v).0, s'), m'))
      × Stays owner queue stub gap World m' s' ext' tasks' order'
      × (view s' m' ext' tasks' ≡ (serve t nodes v).1)

  -- The first turn, behind which the loop goes on.
  pub Serves-cons :
      (run : Option ((Option (Polled Output) × Selector S) × Mem T C)) (node : Addr)
      (nodes : List Addr) (v v' : View T S)
      → none ≡ (turn_at t node v).0
      → v' ≡ (turn_at t node v).1
      → Serves run nodes v'
      → Serves run (node ∷ nodes) v
  unfolding serve
  Serves-cons run node nodes v v' goes same serves =
      let e : serve t (node ∷ nodes) v ≡ serve t nodes v' = simp (sym goes, same) in
      let (s', m', ext', tasks', order', is, fine, seen) = serves in
      (
        s',
        m',
        ext',
        tasks',
        order',
        is ∙ ap (λ p. some ((some p.0, s'), m')) (sym e),
        fine,
        seen ∙ ap (λ p. p.1) (sym e),
      )

  -- The end of the loop.
  pub stop-Serves :
      (m : Mem T C) (s : Selector S) (ext : Addr → ℕ) (tasks order : List Addr) (v : View T S)
      → Stays owner queue stub gap World m s ext tasks order
      → view s m ext tasks ≡ v
      → Serves (some ((some (at_end s), s), m)) [] v
  unfolding serve
  stop-Serves m s ext tasks order v fine seen = (
    s,
    m,
    ext,
    tasks,
    order,
    ap (λ p. some ((some p, s), m))
        (at_end-idle m s stub gap ext tasks order fine.selector ∙ ap (λ v. idle v.tasks) seen),
    fine,
    seen,
  )

  -- The last turn, with an output or a panic.
  pub last-Serves :
      (m : Mem T C) (s : Selector S) (ext : Addr → ℕ) (tasks order : List Addr) (v : View T S)
      (node : Addr) (result : Polled Output)
      → Stays owner queue stub gap World m s ext tasks order
      → view s m ext tasks ≡ (turn_at t node v).1
      → (serve t (node ∷ []) v ≡ (result, (turn_at t node v).1))
      → Serves (some ((some result, s), m)) (node ∷ []) v
  last-Serves m s ext tasks order v node result fine seen e = (
    s,
    m,
    ext,
    tasks,
    order,
    ap (λ p. some ((some p.0, s), m)) (sym e),
    fine,
    seen ∙ ap (λ p. p.1) (sym e),
  )
