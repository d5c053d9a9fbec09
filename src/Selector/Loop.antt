-- ===== src/Selector/Loop.antt =====
-- The loop of `poll_next` (src/selector.rs): every round keeps the selector well-formed, and the loop
-- ends at the marker.
use mathlib.Core.Path.{subst₂}
use async_selector.Base.{
  ℕ, ◌-◌, ◌≡◌, refl, sym, ◌∙◌, ap, subst, Bool, Bool-cases, inl, inr, false, Option, none, some,
  List, [], ◌++◌, append-nil, ◌==◌, has, has-split, update, eq→==, true, ◌⊎◌,
}
use async_selector.Memory.{Addr, null, Mem, pure, ◌>>=◌, ◌>>◌, drop_arc}
use async_selector.Queue.{AtomicWaker, Receiver, dequeue}
use async_selector.Queue.Contents.{Handed}
use async_selector.Queue.Enqueue.{Alert}
use async_selector.Queue.Fifo.{Dequeues}
use async_selector.NodeList.{access}
use async_selector.NodeList.Invariant.{IsList}
use async_selector.Selector.{Selector}
use async_selector.Selector.Invariant.{IsSelector}
use async_selector.Selector.Access.{linked_of_mem}
use async_selector.Selector.Taken.{Taken}
use async_selector.Selector.Heard.{Quiet, Heard, heard_at, unheard}
use async_selector.Selector.After.{After, dequeue-After}
use async_selector.Selector.Careful.{IsOwn, Careful}
use async_selector.Selector.Hands.{lend-none, lend-one, drop_lent, member-IsOwn}
use async_selector.Selector.Kept.{Ends, Settles, Busy}
use async_selector.Selector.Rounds.{poll_task-Settles}
use async_selector.Selector.Poll.{Round, no_node, skip, poll_task, poll_round}
use async_selector.Selector.Turn.{turn, Follows}
use async_selector.Selector.Serve.{View, view, round_of-Ends, Shown, Follows-Shown, Shown-gone}
use async_selector.Task.{Task}

module _ {T S C : Type 0} (owner : Addr → Addr) (queue stub : Addr) (gap : Addr → Bool)
    (World : (Addr → ℕ) → S → (Addr → Option T) → Type 0) where
  -- Between two rounds, and between two calls of `poll_next`.
  pub record Stays (m : Mem T C) (s : Selector S) (ext : Addr → ℕ) (tasks order : List Addr)
      : Type 0 where
    pub selector : IsSelector m s stub gap ext tasks order
    pub world : World ext s.strategy m.value
    pub owner_kept : m.queue ≡ owner
    pub queue_here : s.queue.queue ≡ queue

-- How a round may end, by the node that it took.
abbrev pub RoundEnds : {Output : Type 0} → (marker : Addr) → Option Addr → Round Output → Type 0
RoundEnds marker none round = round ≡ no_node
RoundEnds marker (some node) round = Ends (node == marker) round

module _ {T S C Cont Break Output : Type 0} ⦃aw : AtomicWaker C⦄ (owner : Addr → Addr)
    (queue stub : Addr) (gap : Addr → Bool) (World : (Addr → ℕ) → S → (Addr → Option T) → Type 0)
    (w : ℕ) (P : Type 0) (t : Task T S Cont Break Output)
    (careful : Careful owner queue stub World t) where
  abbrev pub Fine : Mem T C → Selector S → (Addr → ℕ) → List Addr → List Addr → Type 0
  Fine m s ext tasks order = Stays owner queue stub gap World m s ext tasks order

  -- What is left of a round behind `dequeue`.
  abbrev pub Goes :
      Option ((Round Output × Selector S) × Mem T C)
      → (marker : Addr) → Option Addr
      → (order : List Addr) → View T S
      → Type 0
  Goes run marker next order v =
      (round : Round Output) × (s' : Selector S) × (m' : Mem T C) × (ext' : Addr → ℕ)
      × (tasks' : List Addr) × (added : List Addr) × (run ≡ some ((round, s'), m'))
      × Fine m' s' ext' tasks' (order ++ added)
      × Heard queue w P m' order (order ++ added)
      × RoundEnds marker next round
      × Shown t next round v (view s' m' ext' tasks')

  -- The body of the loop, for a node that was taken.
  abbrev body : Selector S → Addr → Addr → Mem T C → Option ((Round Output × Selector S) × Mem T C)
  body s marker node m =
      (do
        guard ← access s.list node
        elim guard [
          | none ↦ do drop_arc node; pure (skip (node == marker), s)
          | some guard ↦ poll_task t s guard node (node == marker)
        ])
        m

  Settles-Goes :
      (run : Option ((Round Output × Selector S) × Mem T C)) (marker node : Addr) (r : Receiver)
      (m : Mem T C) (s : Selector S) (ext : Addr → ℕ) (tasks order : List Addr) (task : T)
      → r.queue ≡ queue
      → has node tasks ≡ true
      → m.value node ≡ some task
      → Settles owner queue stub gap World w
          (Quiet P order)
          run
          r
          order
          (Follows node (node == marker) tasks m.value (turn t node task s.strategy ext))
      → Goes run marker (some node) order (view s m ext tasks)
  Settles-Goes run marker node r m s ext tasks order task here listed filled
        (round, s', m', ext', tasks', added, same, kept, follows) =
      (
        round,
        s',
        m',
        ext',
        tasks',
        added,
        same,
        record {
          selector = kept.selector;
          world = kept.world;
          owner_kept = kept.owner_kept;
          queue_here = ap (λ q. q.queue) kept.queue_kept ∙ here;
        },
        record { alert = kept.alert; rings = kept.rings },
        subst (Ends (node == marker)) (sym follows.round_eq)
            (round_of-Ends (node == marker) (turn t node task s.strategy ext).ends),
        Follows-Shown t node (node == marker) tasks tasks' m m' s s' ext ext' task round listed
            filled follows,
      )

  body-Goes :
      (m : Mem T C) (s : Selector S) (ext : Addr → ℕ) (tasks order : List Addr) (marker node : Addr)
      → Taken m s stub gap ext tasks order node
      → World ext s.strategy m.value
      → m.queue ≡ owner
      → s.queue.queue ≡ queue
      → Alert m queue w
      → P ⊎ (has w m.woken ≡ true)
      → Goes (body s marker node m) marker (some node) order (view s m ext tasks)
  unfolding access
  body-Goes m s ext tasks order marker node taken world own here alert heard =
      elim (Bool-cases (has node tasks)) [
        | inl listed ↦
            let cleared = record m { is_enqueued = update m.is_enqueued node false } in
            let list = taken.cleared.list in
            let (us, vs, e) = has-split node tasks listed in
            let linked =
              linked_of_mem cleared s.list us vs node (subst (IsList cleared s.list) e list) in
            let (v, filled) = list.valued node listed in
            let same : body s marker node m
                ≡ poll_task t s (record { list = s.list; node = node }) node (node == marker) m =
              simp (taken.member.live, linked) in
            let busy : Busy owner queue stub gap World w (Quiet P order) cleared s s.queue ext tasks
                order node 1 =
              record {
                selector =
                    subst (λ f. IsSelector cleared s stub gap f tasks order) (lend-one ext node)
                      taken.cleared;
                world = world;
                owner_kept = own;
                queue_kept = refl;
                queue_here = here;
                own = owned_here;
                task = v;
                filled = filled;
                alert = alert;
                rings = heard_at queue w P cleared order heard;
              } in
            Settles-Goes (body s marker node m) marker node s.queue m s ext tasks order v here
              listed filled
              (subst
                (λ o.
                  Settles owner queue stub gap World w (Quiet P order) o s.queue order
                    (Follows node (node == marker) tasks m.value (turn t node v s.strategy ext)))
                (sym same)
                (poll_task-Settles owner queue stub gap World w (Quiet P order) t careful s.queue
                  node (node == marker) m s ext tasks order v listed taken.member.live filled busy))
        | inr gone ↦
            let skipped = taken.skipped gone in
            let unlinked =
              skipped.unlinked node taken.member.real taken.member.owned taken.member.live gone in
            let dropped = record m { strong = update m.strong node (m.strong node - 1) } in
            let (run, is) =
              drop_lent m s stub gap ext tasks order node 0
                (subst (λ f. IsSelector m s stub gap f tasks order) (lend-one ext node) skipped)
                (member-IsOwn m s stub node taken.member) in
            (
              skip (node == marker),
              s,
              dropped,
              ext,
              tasks,
              [],
              simp (taken.member.live, eq→== {b = null} unlinked, run),
              record {
                selector =
                    subst₂ (λ f xs. IsSelector dropped s stub gap f tasks xs) (lend-none ext node)
                      (sym (append-nil order)) is;
                world = world;
                owner_kept = own;
                queue_here = here;
              },
              unheard queue w P dropped order alert heard,
              refl,
              Shown-gone t node (node == marker) m dropped s ext tasks gone refl,
            )
      ]
    where
      owned_here : IsOwn owner queue stub node
      owned_here =
          subst₂ (λ f q. IsOwn f q stub node) own here (member-IsOwn m s stub node taken.member)

  -- A whole round.
  pub round-Goes :
      (m : Mem T C) (s : Selector S) (ext : Addr → ℕ) (tasks order : List Addr) (marker : Addr)
      → Fine m s ext tasks order
      → Alert m queue w
      → P ⊎ (has w m.woken ≡ true)
      → (next : Option Addr) × (order' : List Addr) × (r : Receiver) × (m₁ : Mem T C) × (dequeue
            s.queue m
          ≡ some ((next, r), m₁))
        × Handed stub gap order order' next
        × Goes (poll_round t s marker m) marker next order' (view s m ext tasks)
  unfolding poll_round
  round-Goes m s ext tasks order marker fine alert heard =
      let (next, order', r, m₁, run, handed, done, alert_kept, after) =
        dequeue-After m s stub gap ext tasks order fine.selector in
      (
        next,
        order',
        r,
        m₁,
        run,
        handed,
        by_next next order' r m₁ run done
            (subst (λ q. Alert m₁ q w) fine.queue_here
              (alert_kept w (subst (λ q. Alert m q w) (sym fine.queue_here) alert)))
            after,
      )
    where
      still : {m₁ : Mem T C} {r : Receiver} → Dequeues m m₁ s.queue r → P ⊎ (has w m₁.woken ≡ true)
      still done = subst (λ (ws : List ℕ). P ⊎ (has w ws ≡ true)) (sym done.woken) heard

      by_next :
          (next : Option Addr) (order' : List Addr) (r : Receiver) (m₁ : Mem T C)
          → dequeue s.queue m ≡ some ((next, r), m₁)
          → Dequeues m m₁ s.queue r
          → Alert m₁ queue w
          → After m₁ (record s { queue = r }) stub gap ext tasks order' next
          → Goes (poll_round t s marker m) marker next order' (view s m ext tasks)
      by_next none order' r m₁ run done alert₁ is = (
        no_node,
        record s { queue = r },
        m₁,
        ext,
        tasks,
        [],
        simp run,
        record {
          selector =
              subst (IsSelector m₁ (record s { queue = r }) stub gap ext tasks)
                (sym (append-nil order')) is;
          world = subst (World ext s.strategy) (sym done.keeps.value) fine.world;
          owner_kept = done.keeps.queue ∙ fine.owner_kept;
          queue_here = done.queue ∙ fine.queue_here;
        },
        unheard queue w P m₁ order' alert₁ (still done),
        refl,
        ap (λ vs. record { tasks = tasks; values = vs; strategy = s.strategy; handles = ext })
            done.keeps.value,
      )
      by_next (some node) order' r m₁ run done alert₁ taken =
          let same : poll_round t s marker m ≡ body (record s { queue = r }) marker node m₁ =
            simp run in
          subst₂
            (λ o vs.
              Goes o marker (some node) order'
                (record { tasks = tasks; values = vs; strategy = s.strategy; handles = ext }))
            (sym same) done.keeps.value
            (body-Goes m₁ (record s { queue = r }) ext tasks order' marker node taken
              (subst (World ext s.strategy) (sym done.keeps.value) fine.world)
              (done.keeps.queue ∙ fine.owner_kept) (done.queue ∙ fine.queue_here) alert₁
              (still done))
