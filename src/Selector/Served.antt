-- ===== src/Selector/Served.antt =====
-- `poll_next` of src/selector.rs against the turns of Selector/Serve.
use mathlib.Core.Bool.{false≢true}
use mathlib.Core.Path.{subst₂}
use async_selector.Base.{
  ℕ, zero, suc, ◌<◌, ◌≤◌, ◌≡◌, refl, sym, ◌∙◌, ap, subst, inl, Bool, true, false, Option, none,
  some, List, [], ◌∷◌, ◌++◌, arith, ◌==◌, last, length, length-append, init, init-last, eq→==,
}
use async_selector.Memory.{Addr, null, Mem}
use async_selector.Queue.{AtomicWaker, Receiver, register_waker}
use async_selector.Queue.Order.{IsQueue, contents}
use async_selector.Queue.Contents.{Handed}
use async_selector.Queue.Enqueue.{Alert}
use async_selector.Queue.Marker.{register_waker_lem}
use async_selector.Selector.{Selector}
use async_selector.Selector.Careful.{Careful}
use async_selector.Selector.Kept.{Ends}
use async_selector.Selector.Loop.{Stays, RoundEnds, round-Goes}
use async_selector.Selector.Registered.{registered-Stays, marker-ne_null}
use async_selector.Selector.Split.{head_of, tail_of}
use async_selector.Selector.Poll.{
  Round, no_node, skip, go_on, output, unwound, at_end, poll_loop, poll_next,
}
use async_selector.Selector.Polling.{behind}
use async_selector.Selector.Serve.{View, view, ended, turn_at, serve, Shown}
use async_selector.Selector.Trace.{handed_first, going_on, nodes_behind, loop_nodes, poll_nodes}
use async_selector.Task.{Task, ready, returned, panicked}
use async_selector.Selector.Shows.{Serves, Serves-cons, stop-Serves, last-Serves}

module _ {T S C Cont Break Output : Type 0} ⦃aw : AtomicWaker C⦄ (owner : Addr → Addr)
    (queue stub : Addr) (gap : Addr → Bool) (World : (Addr → ℕ) → S → (Addr → Option T) → Type 0)
    (t : Task T S Cont Break Output) (careful : Careful owner queue stub World t) where
  loop-Serves :
      (fuel w : ℕ) (m : Mem T C) (s : Selector S) (ext : Addr → ℕ) (tasks order us vs : List Addr)
      (marker : Addr)
      → Stays owner queue stub gap World m s ext tasks order
      → Alert m queue w
      → contents stub order ≡ us ++ marker ∷ vs
      → length us < fuel
      → Serves owner queue stub gap World t careful
          (poll_loop t fuel s marker m)
          (loop_nodes t fuel s marker m)
          (view s m ext tasks)
  unfolding loop_nodes poll_loop serve
  loop-Serves zero w m s ext tasks order us vs marker fine alert split less =
      absurd (omega (arith, less))
  loop-Serves (suc fuel) w m s ext tasks order us vs marker fine alert split less =
      let (next, order', r, m₁, first, handed, goes) =
        round-Goes owner queue stub gap World w (Unit {0}) t careful m s ext tasks order marker fine
          alert (inl tt) in
      let (round, s', m', ext', tasks', added, run, fine', heard', ends, shown) = goes in
      let nodes : loop_nodes t (suc fuel) s marker m
          ≡ handed_first (some ((next, r), m₁))
              (going_on (some ((round, s'), m')) (λ s m. loop_nodes t fuel s marker m)) =
        simp (first, run) in
      let same : poll_loop t (suc fuel) s marker m
          ≡ behind owner queue stub gap World t careful fuel marker round s' m' =
        simp run in
      subst
        (λ xs.
          Serves owner queue stub gap World t careful (poll_loop t (suc fuel) s marker m) xs
            (view s m ext tasks))
        (sym nodes)
        (subst
          (λ o.
            Serves owner queue stub gap World t careful o
              (handed_first (some ((next, r), m₁))
                (going_on (some ((round, s'), m')) (λ s m. loop_nodes t fuel s marker m)))
              (view s m ext tasks))
          (sym same)
          (by_next r m₁ s' m' ext' tasks' (view s m ext tasks)
            (λ order us vs fine alert split less.
              loop-Serves fuel w m' s' ext' tasks' order us vs marker fine alert split less)
            heard'.alert next round order' added handed fine' ends shown us split less))
    where
      by_round :
          (node : Addr) (round : Round Output) (s' : Selector S) (m' : Mem T C) (ext' : Addr → ℕ)
          (tasks' order'' : List Addr) (v : View T S)
          → Stays owner queue stub gap World m' s' ext' tasks' order''
          → Ends (node == marker) round
          → Shown t (some node) round v (view s' m' ext' tasks')
          → ((node == marker) ≡ false
              → Serves owner queue stub gap World t careful
                  (poll_loop t fuel s' marker m')
                  (loop_nodes t fuel s' marker m')
                  (view s' m' ext' tasks'))
          → Serves owner queue stub gap World t careful
              (behind owner queue stub gap World t careful fuel marker round s' m')
              (node ∷ going_on (some ((round, s'), m')) (λ s m. loop_nodes t fuel s marker m))
              v
      by_round node no_node s' m' ext' tasks' order'' v fine' ends shown go = absurd ends
      by_round node (skip true) s' m' ext' tasks' order'' v fine' ends (goes, seen) go =
          Serves-cons owner queue stub gap World t careful _ node [] v (view s' m' ext' tasks') goes
            seen
            (stop-Serves owner queue stub gap World t careful m' s' ext' tasks' order''
              (view s' m' ext' tasks') fine' refl)
      by_round node (skip false) s' m' ext' tasks' order'' v fine' ends (goes, seen) go =
          Serves-cons owner queue stub gap World t careful _ node _ v (view s' m' ext' tasks') goes
            seen (go (sym ends))
      by_round node (go_on true) s' m' ext' tasks' order'' v fine' ends (goes, seen) go =
          Serves-cons owner queue stub gap World t careful _ node [] v (view s' m' ext' tasks') goes
            seen
            (stop-Serves owner queue stub gap World t careful m' s' ext' tasks' order''
              (view s' m' ext' tasks') fine' refl)
      by_round node (go_on false) s' m' ext' tasks' order'' v fine' ends (goes, seen) go =
          Serves-cons owner queue stub gap World t careful _ node _ v (view s' m' ext' tasks') goes
            seen (go (sym ends))
      by_round node (output o) s' m' ext' tasks' order'' v fine' ends (goes, seen) go =
          last-Serves owner queue stub gap World t careful m' s' ext' tasks' order'' v node
            (returned (ready (some o))) fine' seen
            (ap (λ e. ended e (serve t [] (turn_at t node v).1) (turn_at t node v).1) (sym goes))
      by_round node unwound s' m' ext' tasks' order'' v fine' ends (goes, seen) go =
          last-Serves owner queue stub gap World t careful m' s' ext' tasks' order'' v node panicked
            fine' seen
            (ap (λ e. ended e (serve t [] (turn_at t node v).1) (turn_at t node v).1) (sym goes))

      by_next :
          (r : Receiver) (m₁ : Mem T C) (s' : Selector S) (m' : Mem T C) (ext' : Addr → ℕ)
          (tasks' : List Addr) (v : View T S)
          → ((order us vs : List Addr)
              → Stays owner queue stub gap World m' s' ext' tasks' order
              → Alert m' queue w
              → contents stub order ≡ us ++ marker ∷ vs
              → length us < fuel
              → Serves owner queue stub gap World t careful
                  (poll_loop t fuel s' marker m')
                  (loop_nodes t fuel s' marker m')
                  (view s' m' ext' tasks'))
          → Alert m' queue w
          → (next : Option Addr) (round : Round Output) (order' added : List Addr)
          → Handed stub gap order order' next
          → Stays owner queue stub gap World m' s' ext' tasks' (order' ++ added)
          → RoundEnds marker next round
          → Shown t next round v (view s' m' ext' tasks')
          → (us : List Addr) → contents stub order ≡ us ++ marker ∷ vs
          → length us < suc fuel
          → Serves owner queue stub gap World t careful
              (behind owner queue stub gap World t careful fuel marker round s' m')
              (handed_first
                (some ((next, r), m₁))
                (going_on (some ((round, s'), m')) (λ s m. loop_nodes t fuel s marker m)))
              v
      by_next r m₁ s' m' ext' tasks' v again alert' none round order' added handed fine' ends shown
            us split less =
          subst
            (λ o.
              Serves owner queue stub gap World t careful
                (behind owner queue stub gap World t careful fuel marker o s' m') [] v)
            (sym ends)
            (stop-Serves owner queue stub gap World t careful m' s' ext' tasks' (order' ++ added) v
              fine' shown)
      by_next r m₁ s' m' ext' tasks' v again alert' (some node) round order' added handed fine' ends
            shown [] split less =
          by_round node round s' m' ext' tasks' (order' ++ added) v fine' ends shown (λ e.
            absurd
              (false≢true (sym e ∙ eq→== (head_of stub order order' vs node marker handed split))))
      by_next r m₁ s' m' ext' tasks' v again alert' (some node) round order' added handed fine' ends
            shown (u ∷ us) split less =
          by_round node round s' m' ext' tasks' (order' ++ added) v fine' ends shown (λ e.
            again (order' ++ added) us (vs ++ contents stub added) fine' alert'
              (tail_of stub order order' added us vs node u marker handed split)
              (omega (arith, less)))

  -- `poll_next` does what `serve` describes, without memory, list and queue. Under the conditions
  -- of `poll_next-Returns`, take the nodes that the call takes out of the queue (`poll_nodes`). The
  -- tasks at those of them that are still in the list have one turn each, in that order, up to the
  -- first that gives an output or panics: a task that is pending or continues stays where it is in
  -- the list, one that breaks or panics leaves it, and its value and the strategy are those that
  -- the code of the task left. The result of `poll_next`, the tasks in the list and their order,
  -- all values, the strategy and the handles that the user has are those of these turns, and the
  -- selector is well-formed.
  pub poll_next-serve :
      (fuel : ℕ) (m : Mem T C) (s : Selector S) (w : ℕ) (ext : Addr → ℕ) (tasks order : List Addr)
      → Stays owner queue stub gap World m s ext tasks order
      → length (contents stub order) ≤ fuel
      → Serves owner queue stub gap World t careful
          (poll_next t fuel s w m)
          (poll_nodes t fuel s w m)
          (view s m ext tasks)
  unfolding poll_next poll_nodes
  poll_next-serve fuel m s w ext tasks order fine enough =
      let (m₁, run, is, stored, done) =
        register_waker_lem m s.queue stub gap w order fine.selector.queue in
      let fine₁ = registered-Stays owner queue stub gap World m m₁ s ext tasks order is done fine in
      let same : poll_nodes t fuel s w m
          ≡ nodes_behind t fuel s (some (last (contents stub order) null, m₁)) =
        ap (nodes_behind t fuel s) run in
      let seen : view s m₁ ext tasks ≡ view s m ext tasks =
        ap (λ vs. record { tasks = tasks; values = vs; strategy = s.strategy; handles = ext })
          done.keeps.value in
      subst₂ (Serves owner queue stub gap World t careful (poll_next t fuel s w m)) (sym same) seen
        (by_contents m₁ run is fine₁ (subst (λ q. Alert m₁ q w) fine.queue_here (inl stored))
          (contents stub order) refl enough)
    where
      by_contents :
          (m₁ : Mem T C)
          → register_waker s.queue w m ≡ some (last (contents stub order) null, m₁)
          → IsQueue m₁ s.queue stub gap order
          → Stays owner queue stub gap World m₁ s ext tasks order
          → Alert m₁ queue w
          → (xs : List Addr) → contents stub order ≡ xs
          → length xs ≤ fuel
          → Serves owner queue stub gap World t careful
              (poll_next t fuel s w m)
              (nodes_behind t fuel s (some (last xs null, m₁)))
              (view s m₁ ext tasks)
      by_contents m₁ run is fine₁ alert [] e enough =
          let same : poll_next t fuel s w m ≡ some ((some (at_end s), s), m₁) = simp (run, e) in
          subst (λ o. Serves owner queue stub gap World t careful o [] (view s m₁ ext tasks))
            (sym same)
            (stop-Serves owner queue stub gap World t careful m₁ s ext tasks order
              (view s m₁ ext tasks) fine₁ refl)
      by_contents m₁ run is fine₁ alert (x ∷ xs) e enough =
          let real = marker-ne_null owner queue stub gap World m₁ s order xs x is e in
          let nodes : nodes_behind t fuel s (some (last xs x, m₁))
              ≡ loop_nodes t fuel s (last xs x) m₁ =
            simp real in
          let same : poll_next t fuel s w m ≡ poll_loop t fuel s (last xs x) m₁ =
            simp (run, e, real) in
          subst₂ (λ o ns. Serves owner queue stub gap World t careful o ns (view s m₁ ext tasks))
            (sym same) (sym nodes)
            (loop-Serves fuel w m₁ s ext tasks order (init (x ∷ xs)) [] (last xs x) fine₁ alert
              (e ∙ init-last x xs)
              (omega (
                arith,
                enough,
                ap (λ (ys : List Addr). length ys) (init-last x xs),
                length-append (init (x ∷ xs)) (last xs x ∷ []),
              )))
