-- ===== src/Selector/Trace.antt =====
-- The log of one call of `poll_next` of src/selector.rs: the nodes that it takes out of the queue.
use mathlib.Core.Bool.{false≢true}
use async_selector.Base.{
  ℕ, zero, suc, ◌<◌, ◌≤◌, ◌≡◌, refl, sym, ◌∙◌, ap, subst, ◌⊎◌, inl, Bool, true, false, Option, none,
  some, List, [], ◌∷◌, ◌++◌, arith, ◌==◌, if◌then◌else◌, has, last, length, length-append, init,
  init-last, Distinct, Distinct-append, eq→==,
}
use async_selector.Memory.{Addr, null, Mem}
use async_selector.Queue.{AtomicWaker, Receiver, dequeue, register_waker}
use async_selector.Queue.Order.{contents}
use async_selector.Queue.Contents.{Handed}
use async_selector.Queue.Enqueue.{Alert}
use async_selector.Queue.Handed.{Distinct-contents}
use async_selector.Queue.Marker.{register_waker_lem}
use async_selector.Selector.{Selector}
use async_selector.Selector.Careful.{Careful}
use async_selector.Selector.Kept.{Ends}
use async_selector.Selector.Heard.{Heard}
use async_selector.Selector.Loop.{Stays, RoundEnds, round-Goes}
use async_selector.Selector.Registered.{registered-Stays, marker-ne_null}
use async_selector.Selector.Split.{head_of, tail_of, behind-heard}
use async_selector.Selector.Poll.{Round, no_node, skip, go_on, output, unwound, poll_round}
use async_selector.Task.{Task}

-- The node that a `dequeue` hands out, and those behind it.
abbrev pub handed_first :
    {T C : Type 0} → Option ((Option Addr × Receiver) × Mem T C) → List Addr → List Addr
handed_first none rest = []
handed_first (some ((none, r), m)) rest = []
handed_first (some ((some node, r), m)) rest = node ∷ rest

-- Whether the loop goes on behind a round.
abbrev pub going_on :
    {T S C Output : Type 0}
    → Option ((Round Output × Selector S) × Mem T C)
    → (Selector S → Mem T C → List Addr)
    → List Addr
going_on none again = []
going_on (some ((no_node, s), m)) again = []
going_on (some ((skip is_last, s), m)) again = if is_last then [] else again s m
going_on (some ((go_on is_last, s), m)) again = if is_last then [] else again s m
going_on (some ((output v, s), m)) again = []
going_on (some ((unwound, s), m)) again = []

-- The first of a list of nodes.
abbrev Begins : List Addr → List Addr → Type 0
Begins xs whole = (rest : List Addr) × (xs ++ rest ≡ whole)

Begins-cons : (x u : Addr) (xs us : List Addr) → x ≡ u → Begins xs us → Begins (x ∷ xs) (u ∷ us)
Begins-cons x u xs us same (rest, e) = (rest, ap (λ ys. x ∷ ys) e ∙ ap (λ y. y ∷ us) same)

module _ {T S C Cont Break Output : Type 0} ⦃aw : AtomicWaker C⦄
    (t : Task T S Cont Break Output) where
  -- The log of `poll_loop`: the nodes that its rounds take, in their order.
  unfoldable pub loop_nodes : ℕ → Selector S → (marker : Addr) → Mem T C → List Addr
  loop_nodes zero s marker m = []
  loop_nodes (suc fuel) s marker m =
      handed_first (dequeue s.queue m)
        (going_on (poll_round t s marker m) (λ s m. loop_nodes fuel s marker m))

  abbrev pub nodes_behind : ℕ → Selector S → Option (Addr × Mem T C) → List Addr
  nodes_behind fuel s none = []
  nodes_behind fuel s (some (marker, m)) = if marker == null then [] else loop_nodes fuel s marker m

  -- The nodes that `poll_next` takes: its log, which Selector/Rounded compares with its run.
  unfoldable pub poll_nodes : (fuel : ℕ) → Selector S → (w : ℕ) → Mem T C → List Addr
  poll_nodes fuel s w m = nodes_behind fuel s (register_waker s.queue w m)

module _ {T S C Cont Break Output : Type 0} ⦃aw : AtomicWaker C⦄ (owner : Addr → Addr)
    (queue stub : Addr) (gap : Addr → Bool) (World : (Addr → ℕ) → S → (Addr → Option T) → Type 0)
    (t : Task T S Cont Break Output) (careful : Careful owner queue stub World t) where
  loop_nodes-Begins :
      (fuel w : ℕ) (m : Mem T C) (s : Selector S) (ext : Addr → ℕ) (tasks order us vs : List Addr)
      (marker : Addr)
      → Stays owner queue stub gap World m s ext tasks order
      → Alert m queue w
      → (vs ≡ []) ⊎ (has w m.woken ≡ true)
      → contents stub order ≡ us ++ marker ∷ vs
      → length us < fuel
      → Begins (loop_nodes t fuel s marker m) (us ++ marker ∷ [])
  unfolding loop_nodes
  loop_nodes-Begins zero w m s ext tasks order us vs marker fine alert heard split less =
      absurd (omega (arith, less))
  loop_nodes-Begins (suc fuel) w m s ext tasks order us vs marker fine alert heard split less =
      let (next, order', r, m₁, first, handed, goes) =
        round-Goes owner queue stub gap World w (vs ≡ []) t careful m s ext tasks order marker fine
          alert heard in
      let (round, s', m', ext', tasks', added, run, fine', heard', ends, shown) = goes in
      let same : loop_nodes t (suc fuel) s marker m
          ≡ handed_first (some ((next, r), m₁))
              (going_on (some ((round, s'), m')) (λ s m. loop_nodes t fuel s marker m)) =
        simp (first, run) in
      subst (λ xs. Begins xs (us ++ marker ∷ [])) (sym same)
        (by_next r m₁ round s' m'
          (λ order us vs ext tasks fine alert heard split less.
            loop_nodes-Begins fuel w m' s' ext tasks order us vs marker fine alert heard split less)
          next order' added ext' tasks' handed fine' heard' ends us split less)
    where
      by_round :
          (node : Addr) (round : Round Output) (s' : Selector S) (m' : Mem T C) (us : List Addr)
          → Ends (node == marker) round
          → ((node == marker) ≡ false → Begins (loop_nodes t fuel s' marker m') us)
          → Begins (going_on (some ((round, s'), m')) (λ s m. loop_nodes t fuel s marker m)) us
      by_round node no_node s' m' us ends go = absurd ends
      by_round node (skip true) s' m' us ends go = (us, refl)
      by_round node (skip false) s' m' us ends go = go (sym ends)
      by_round node (go_on true) s' m' us ends go = (us, refl)
      by_round node (go_on false) s' m' us ends go = go (sym ends)
      by_round node (output v) s' m' us ends go = (us, refl)
      by_round node unwound s' m' us ends go = (us, refl)

      by_next :
          (r : Receiver) (m₁ : Mem T C) (round : Round Output) (s' : Selector S) (m' : Mem T C)
          → ((order us vs : List Addr) (ext' : Addr → ℕ) (tasks' : List Addr)
              → Stays owner queue stub gap World m' s' ext' tasks' order
              → Alert m' queue w
              → (vs ≡ []) ⊎ (has w m'.woken ≡ true)
              → contents stub order ≡ us ++ marker ∷ vs
              → length us < fuel
              → Begins (loop_nodes t fuel s' marker m') (us ++ marker ∷ []))
          → (next : Option Addr) (order' added : List Addr) (ext' : Addr → ℕ) (tasks' : List Addr)
          → Handed stub gap order order' next
          → Stays owner queue stub gap World m' s' ext' tasks' (order' ++ added)
          → Heard queue w (vs ≡ []) m' order' (order' ++ added)
          → RoundEnds marker next round
          → (us : List Addr) → contents stub order ≡ us ++ marker ∷ vs
          → length us < suc fuel
          → Begins
              (handed_first
                (some ((next, r), m₁))
                (going_on (some ((round, s'), m')) (λ s m. loop_nodes t fuel s marker m)))
              (us ++ marker ∷ [])
      by_next r m₁ round s' m' again none order' added ext' tasks' handed fine' heard' ends us split
            less =
          (us ++ marker ∷ [], refl)
      by_next r m₁ round s' m' again (some node) order' added ext' tasks' handed fine' heard' ends
            [] split less =
          let same = head_of stub order order' vs node marker handed split in
          Begins-cons node marker _ [] same
            (by_round node round s' m' [] ends (λ e. absurd (false≢true (sym e ∙ eq→== same))))
      by_next r m₁ round s' m' again (some node) order' added ext' tasks' handed fine' heard' ends
            (u ∷ us) split less =
          let same = head_of stub order order' (us ++ marker ∷ vs) node u handed split in
          Begins-cons node u _ (us ++ marker ∷ []) same (
            by_round node round s' m' (us ++ marker ∷ []) ends (λ e.
              again (order' ++ added) us (vs ++ contents stub added) ext' tasks' fine' heard'.alert
                (behind-heard stub w m' vs order' added heard'.rings)
                (tail_of stub order order' added us vs node u marker handed split)
                (omega (arith, less))))

  -- Under the conditions of `poll_next-Returns`, the nodes of the log are, in their order, the first
  -- of those that wait at the beginning. No node is among them twice, and they are at most as many.
  pub poll_nodes-contents :
      (fuel : ℕ) (m : Mem T C) (s : Selector S) (w : ℕ) (ext : Addr → ℕ) (tasks order : List Addr)
      → Stays owner queue stub gap World m s ext tasks order
      → length (contents stub order) ≤ fuel
      → (rest : List Addr) × (poll_nodes t fuel s w m ++ rest ≡ contents stub order)
        × Distinct (poll_nodes t fuel s w m)
        × (length (poll_nodes t fuel s w m) ≤ length (contents stub order))
  unfolding poll_nodes
  poll_nodes-contents fuel m s w ext tasks order fine enough =
      let (m₁, run, is, stored, done) =
        register_waker_lem m s.queue stub gap w order fine.selector.queue in
      let fine₁ = registered-Stays owner queue stub gap World m m₁ s ext tasks order is done fine in
      let same : poll_nodes t fuel s w m
          ≡ nodes_behind t fuel s (some (last (contents stub order) null, m₁)) =
        ap (nodes_behind t fuel s) run in
      let (rest, e) =
        by_contents m₁ fine₁ (subst (λ q. Alert m₁ q w) fine.queue_here (inl stored))
          (contents stub order) refl enough in
      let whole : poll_nodes t fuel s w m ++ rest ≡ contents stub order =
        ap (λ xs. xs ++ rest) same ∙ e in
      (
        rest,
        whole,
        (Distinct-append (poll_nodes t fuel s w m) rest (
            subst Distinct (sym whole)
              (Distinct-contents stub order fine.selector.queue.distinct))).left,
        omega (
          arith,
          length-append (poll_nodes t fuel s w m) rest,
          ap (λ (xs : List Addr). length xs) whole,
        ),
      )
    where
      by_contents :
          (m₁ : Mem T C)
          → Stays owner queue stub gap World m₁ s ext tasks order
          → Alert m₁ queue w
          → (xs : List Addr) → contents stub order ≡ xs
          → length xs ≤ fuel
          → Begins (nodes_behind t fuel s (some (last xs null, m₁))) xs
      by_contents m₁ fine₁ alert [] e enough = ([], refl)
      by_contents m₁ fine₁ alert (x ∷ xs) e enough =
          let real =
            marker-ne_null owner queue stub gap World m₁ s order xs x fine₁.selector.queue e in
          let same : nodes_behind t fuel s (some (last xs x, m₁))
              ≡ loop_nodes t fuel s (last xs x) m₁ =
            simp real in
          let (rest, e') =
            loop_nodes-Begins fuel w m₁ s ext tasks order (init (x ∷ xs)) [] (last xs x) fine₁ alert
              (inl refl) (e ∙ init-last x xs)
              (omega (
                arith,
                enough,
                ap (λ (ys : List Addr). length ys) (init-last x xs),
                length-append (init (x ∷ xs)) (last xs x ∷ []),
              )) in
          (rest, ap (λ ys. ys ++ rest) same ∙ e' ∙ sym (init-last x xs))
