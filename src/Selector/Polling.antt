-- ===== src/Selector/Polling.antt =====
-- `poll_next` of src/selector.rs as a whole: it returns, and what it returns.
use mathlib.Core.Bool.{false≢true}
use async_selector.Base.{
  ℕ, zero, suc, ◌<◌, ◌≡◌, refl, sym, ◌∙◌, ap, subst, Bool, true, false, Option, none, some, List,
  [], ◌∷◌, ◌++◌, arith, ◌==◌, if◌then◌else◌, has, last, ◌⊎◌, inl, ◌≤◌, init, init-last, length,
  length-append, eq→==,
}
use async_selector.Memory.{Cmd, pure, Addr, null, Mem}
use async_selector.Queue.{AtomicWaker, register_waker}
use async_selector.Queue.Order.{IsQueue, contents}
use async_selector.Queue.Contents.{Handed}
use async_selector.Queue.Marker.{register_waker_lem}
use async_selector.Selector.{Selector}
use async_selector.Selector.Careful.{Careful}
use async_selector.Selector.Kept.{Ends}
use async_selector.Selector.Loop.{Stays, RoundEnds, round-Goes}
use async_selector.Selector.Poll.{
  Round, no_node, skip, go_on, output, unwound, Polled, at_end, poll_loop, poll_next,
}
use async_selector.Task.{Task, ready, returned, panicked}
use async_selector.Selector.Heard.{Heard}
use async_selector.Selector.Result.{
  IsResult, Minds, Minded, at_end-IsResult, at_end-Minded, Heard-Minds,
}
use async_selector.Selector.Registered.{registered-Stays, marker-ne_null}
use async_selector.Selector.Split.{
  head_of, rest_of, tail_of, marker-later, behind-heard, none-Minds,
}
use async_selector.Queue.Enqueue.{Alert}

module _ {T S C Cont Break Output : Type 0} ⦃aw : AtomicWaker C⦄ (owner : Addr → Addr)
    (queue stub : Addr) (gap : Addr → Bool) (World : (Addr → ℕ) → S → (Addr → Option T) → Type 0)
    (t : Task T S Cont Break Output) (careful : Careful owner queue stub World t) where
  -- A run of the loop that returns.
  abbrev pub Returns : Option ((Option (Polled Output) × Selector S) × Mem T C) → Type 0
  Returns run =
      (result : Polled Output) × (s' : Selector S) × (m' : Mem T C) × (ext' : Addr → ℕ)
      × (tasks' : List Addr) × (order' : List Addr) × (run ≡ some ((some result, s'), m'))
      × Stays owner queue stub gap World m' s' ext' tasks' order'
      × IsResult tasks' result

  -- And what is left at its end.
  abbrev pub Minding : (w : ℕ) → Option ((Option (Polled Output) × Selector S) × Mem T C) → Type 0
  Minding w run =
      (result : Polled Output) × (s' : Selector S) × (m' : Mem T C) × (ext' : Addr → ℕ)
      × (tasks' : List Addr) × (order' : List Addr) × (run ≡ some ((some result, s'), m'))
      × Stays owner queue stub gap World m' s' ext' tasks' order'
      × IsResult tasks' result
      × Minded queue stub gap w m' result order'

  -- What the loop does behind a round.
  abbrev pub behind :
      ℕ → Addr → Round Output → Selector S → Cmd (Mem T C) (Option (Polled Output) × Selector S)
  behind fuel marker round s = elim round [
    | no_node ↦ pure (some (at_end s), s)
    | skip is_last ↦ if is_last then pure (some (at_end s), s) else poll_loop t fuel s marker
    | go_on is_last ↦ if is_last then pure (some (at_end s), s) else poll_loop t fuel s marker
    | output v ↦ pure (some (returned (ready (some v))), s)
    | unwound ↦ pure (some panicked, s)
  ]

  stop-Minding :
      (w : ℕ) (m : Mem T C) (s : Selector S) (ext : Addr → ℕ) (tasks order : List Addr)
      → Stays owner queue stub gap World m s ext tasks order
      → Minds queue stub gap w m order
      → Minding w (some ((some (at_end s), s), m))
  stop-Minding w m s ext tasks order fine minds = (
    at_end s,
    s,
    m,
    ext,
    tasks,
    order,
    refl,
    fine,
    at_end-IsResult owner queue stub gap World Output m s ext tasks order fine.selector,
    at_end-Minded queue stub gap w Output m s order minds,
  )

  -- The loop ends at the marker at the latest.
  loop-Minding :
      (fuel w : ℕ) (m : Mem T C) (s : Selector S) (ext : Addr → ℕ) (tasks order us vs : List Addr)
      (marker : Addr)
      → Stays owner queue stub gap World m s ext tasks order
      → Alert m queue w
      → (vs ≡ []) ⊎ (has w m.woken ≡ true)
      → contents stub order ≡ us ++ marker ∷ vs
      → length us < fuel
      → Minding w (poll_loop t fuel s marker m)
  unfolding poll_loop
  loop-Minding zero w m s ext tasks order us vs marker fine alert heard split less =
      absurd (omega (arith, less))
  loop-Minding (suc fuel) w m s ext tasks order us vs marker fine alert heard split less =
      let (next, order', r, m₁, first, handed, goes) =
        round-Goes owner queue stub gap World w (vs ≡ []) t careful m s ext tasks order marker fine
          alert heard in
      let (round, s', m', ext', tasks', added, run, fine', heard', ends, shown) = goes in
      let same : poll_loop t (suc fuel) s marker m ≡ behind fuel marker round s' m' = simp run in
      subst (Minding w) (sym same) (
        by_next
          (λ m s ext tasks order us vs fine alert heard split less.
            loop-Minding fuel w m s ext tasks order us vs marker fine alert heard split less)
          next order' round s' m' ext' tasks' added handed fine' heard' ends us split less)
    where
      stop_or_go :
          (is_last last' : Bool) (s' : Selector S) (m' : Mem T C)
          → last' ≡ is_last
          → (is_last ≡ true → Minding w (some ((some (at_end s'), s'), m')))
          → (is_last ≡ false → Minding w (poll_loop t fuel s' marker m'))
          → Minding w (
              (if last'
                  then (λ m. some ((some (at_end s'), s'), m))
                  else poll_loop t fuel s' marker)
                m')
      stop_or_go is_last true s' m' e stop go = stop (sym e)
      stop_or_go is_last false s' m' e stop go = go (sym e)

      by_round :
          (node : Addr) (round : Round Output) (s' : Selector S) (m' : Mem T C) (ext' : Addr → ℕ)
          (tasks' order'' : List Addr)
          → Stays owner queue stub gap World m' s' ext' tasks' order''
          → Ends (node == marker) round
          → ((node == marker) ≡ true → Minds queue stub gap w m' order'')
          → ((node == marker) ≡ false → Minding w (poll_loop t fuel s' marker m'))
          → Minding w (behind fuel marker round s' m')
      by_round node no_node s' m' ext' tasks' order'' fine' ends stop go = absurd ends
      by_round node (skip b) s' m' ext' tasks' order'' fine' ends stop go =
          stop_or_go (node == marker) b s' m' ends
            (λ e. stop-Minding w m' s' ext' tasks' order'' fine' (stop e)) go
      by_round node (go_on b) s' m' ext' tasks' order'' fine' ends stop go =
          stop_or_go (node == marker) b s' m' ends
            (λ e. stop-Minding w m' s' ext' tasks' order'' fine' (stop e)) go
      by_round node (output v) s' m' ext' tasks' order'' fine' ends stop go =
          (returned (ready (some v)), s', m', ext', tasks', order'', refl, fine', tt, tt)
      by_round node unwound s' m' ext' tasks' order'' fine' ends stop go =
          (panicked, s', m', ext', tasks', order'', refl, fine', tt, tt)

      by_next :
          ((m : Mem T C) (s : Selector S) (ext : Addr → ℕ) (tasks order us vs : List Addr)
            → Stays owner queue stub gap World m s ext tasks order
            → Alert m queue w
            → (vs ≡ []) ⊎ (has w m.woken ≡ true)
            → contents stub order ≡ us ++ marker ∷ vs
            → length us < fuel
            → Minding w (poll_loop t fuel s marker m))
          → (next : Option Addr) (order' : List Addr) (round : Round Output) (s' : Selector S)
            (m' : Mem T C) (ext' : Addr → ℕ) (tasks' added : List Addr)
          → Handed stub gap order order' next
          → Stays owner queue stub gap World m' s' ext' tasks' (order' ++ added)
          → Heard queue w (vs ≡ []) m' order' (order' ++ added)
          → RoundEnds marker next round
          → (us : List Addr) → contents stub order ≡ us ++ marker ∷ vs
          → length us < suc fuel
          → Minding w (behind fuel marker round s' m')
      by_next again none order' round s' m' ext' tasks' added handed fine' heard' ends us split
            less =
          subst (λ o. Minding w (behind fuel marker o s' m')) (sym ends)
            (stop-Minding w m' s' ext' tasks' (order' ++ added) fine' (
              none-Minds queue stub gap w (vs ≡ []) m' order order' (order' ++ added) handed
                heard'))
      by_next again (some node) order' round s' m' ext' tasks' added handed fine' heard' ends []
            split less =
          by_round node round s' m' ext' tasks' (order' ++ added) fine' ends
            (λ e.
              Heard-Minds queue stub gap w (vs ≡ []) m' order' (order' ++ added)
                (λ (p : vs ≡ []). rest_of stub order order' vs node marker handed split ∙ p) heard')
            (λ e.
              absurd (
                false≢true (sym e ∙ eq→== (head_of stub order order' vs node marker handed split))))
      by_next again (some node) order' round s' m' ext' tasks' added handed fine' heard' ends
            (u ∷ us) split less =
          by_round node round s' m' ext' tasks' (order' ++ added) fine' ends
            (λ e. absurd (
              marker-later stub order order' us vs node u marker fine.selector.queue.distinct handed
                split e))
            (λ e.
              again m' s' ext' tasks' (order' ++ added) us (vs ++ contents stub added) fine'
                heard'.alert (behind-heard stub w m' vs order' added heard'.rings)
                (tail_of stub order order' added us vs node u marker handed split)
                (omega (arith, less)))

  pub poll_next-Minding :
      (fuel : ℕ) (m : Mem T C) (s : Selector S) (w : ℕ) (ext : Addr → ℕ) (tasks order : List Addr)
      → Stays owner queue stub gap World m s ext tasks order
      → length (contents stub order) ≤ fuel
      → Minding w (poll_next t fuel s w m)
  unfolding poll_next
  poll_next-Minding fuel m s w ext tasks order fine enough =
      let (m₁, run, is, stored, done) =
        register_waker_lem m s.queue stub gap w order fine.selector.queue in
      let fine₁ = registered-Stays owner queue stub gap World m m₁ s ext tasks order is done fine in
      by_contents m₁ run is fine₁ (subst (λ q. Alert m₁ q w) fine.queue_here (inl stored))
        (contents stub order) refl enough
    where
      by_contents :
          (m₁ : Mem T C)
          → register_waker s.queue w m ≡ some (last (contents stub order) null, m₁)
          → IsQueue m₁ s.queue stub gap order
          → Stays owner queue stub gap World m₁ s ext tasks order
          → Alert m₁ queue w
          → (xs : List Addr) → contents stub order ≡ xs
          → length xs ≤ fuel
          → Minding w (poll_next t fuel s w m)
      by_contents m₁ run is fine₁ alert [] e enough =
          let same : poll_next t fuel s w m ≡ some ((some (at_end s), s), m₁) = simp (run, e) in
          subst (Minding w) (sym same) (stop-Minding w m₁ s ext tasks order fine₁ (alert, inl e))
      by_contents m₁ run is fine₁ alert (x ∷ xs) e enough =
          let real = marker-ne_null owner queue stub gap World m₁ s order xs x is e in
          let same : poll_next t fuel s w m ≡ poll_loop t fuel s (last xs x) m₁ =
            simp (run, e, real) in
          subst (Minding w) (sym same) (
            loop-Minding fuel w m₁ s ext tasks order (init (x ∷ xs)) [] (last xs x) fine₁ alert
              (inl refl) (e ∙ init-last x xs)
              (omega (
                arith,
                enough,
                ap (λ (ys : List Addr). length ys) (init-last x xs),
                length-append (init (x ∷ xs)) (last xs x ∷ []),
              )))

  -- Take a well-formed selector and a task type whose code only gives away handles that it has
  -- (`Careful`, with an invariant `World` of the user's own). With as much fuel as nodes wait in
  -- the queue, `poll_next` returns and does not fault, whatever the tasks and the strategy answer,
  -- and also if they panic; the selector is well-formed and the user's invariant holds afterwards.
  -- The result is an output, a panic, `Ready(None)` with no task left, or `Pending` with a task
  -- left.
  pub poll_next-Returns :
      (fuel : ℕ) (m : Mem T C) (s : Selector S) (w : ℕ) (ext : Addr → ℕ) (tasks order : List Addr)
      → Stays owner queue stub gap World m s ext tasks order
      → length (contents stub order) ≤ fuel
      → Returns (poll_next t fuel s w m)
  poll_next-Returns fuel m s w ext tasks order fine enough =
      let (result, s', m', ext', tasks', order', run, fine', is, minded) =
        poll_next-Minding fuel m s w ext tasks order fine enough in
      (result, s', m', ext', tasks', order', run, fine', is)
