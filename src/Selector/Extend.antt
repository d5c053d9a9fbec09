-- ===== src/Selector/Extend.antt =====
-- `extend` and `from_iter` of src/selector.rs, and a `for` loop over the iterator by value of
-- src/selector/iter.rs.
use mathlib.Core.Path.{subst₂}
use async_selector.Base.{
  subst, ℕ, zero, suc, ◌≡◌, ◌≢◌, refl, sym, ◌∙◌, ap, Bool, true, false, Option, none, some, List,
  [], ◌∷◌, ◌++◌, append-nil, append_assoc, arith, has, has_here, Distinct, ne_of_has, length,
  update, update_self, update_ne,
}
use async_selector.Memory.{Addr, null, Mem, Live, drop_arc, Cmd, pure, fault, ◌>>=◌}
use async_selector.Queue.{AtomicWaker}
use async_selector.NodeList.{NodeList, get_pin, take_value}
use async_selector.NodeList.Invariant.{IsList}
use async_selector.NodeList.Unlink.{unlinked}
use async_selector.NodeList.Drop.{discarded, discarded-IsList}
use async_selector.Selector.{Selector, extend, from_iter}
use async_selector.Selector.Invariant.{IsSelector}
use async_selector.Selector.Push.{IsFresh, push-IsSelector}
use async_selector.Selector.New.{new-IsSelector}
use async_selector.Selector.Iter.{into_iter_next}
use async_selector.Queue.Drop.{drop_queue}
use async_selector.Selector.Drop.{into_iter, drop_queue-IsList}
use async_selector.Selector.Draining.{into_iter_next-nil, into_iter_next-cons}

module _ {T : Type 0} where
  -- The addresses of new tasks, and the tasks.
  abbrev pub places : List (Addr × T) → List Addr
  places [] = []
  places ((a, v) ∷ items) = a ∷ places items

  abbrev pub contained : List (Addr × T) → List T
  contained [] = []
  contained ((a, v) ∷ items) = v ∷ contained items

  -- Each task stands in its node.
  abbrev pub Stored : (Addr → Option T) → List (Addr × T) → Type 0
  Stored values [] = Unit
  Stored values ((a, v) ∷ items) = (values a ≡ some v) × Stored values items

  length-places : (items : List (Addr × T)) → length (places items) ≡ length items
  length-places [] = refl
  length-places ((a, v) ∷ items) = ap suc (length-places items)

  Stored-update :
      (values : Addr → Option T) (items : List (Addr × T)) (a : Addr) (o : Option T)
      → has a (places items) ≡ false
      → Stored values items
      → Stored (update values a o) items
  Stored-update values [] a o out h = tt
  Stored-update values ((b, v) ∷ items) a o out h =
      let (ne, tail) : (b ≢ a) × (has a (places items) ≡ false) =
        (ne_of_has (b ∷ places items) (has_here b (places items)) out, ground arith) in
      (update_ne values o ne ∙ h.0, Stored-update values items a o tail h.1)

  Stored-kept :
      (values values' : Addr → Option T) (items : List (Addr × T))
      → ((a : Addr) → has a (places items) ≡ true → values' a ≡ values a)
      → Stored values items
      → Stored values' items
  Stored-kept values values' [] same h = tt
  Stored-kept values values' ((a, v) ∷ items) same h = (
    same a (has_here a (places items)) ∙ h.0,
    Stored-kept values values' items (λ b i. same b (ground arith)) h.1,
  )

  -- Every address is fresh.
  abbrev pub AllFresh : {C : Type 0} → Mem T C → (Addr → ℕ) → List (Addr × T) → Type 0
  AllFresh m ext [] = Unit
  AllFresh m ext ((a, v) ∷ items) = IsFresh m ext a × AllFresh m ext items

  AllFresh-update :
      {C : Type 0} (m m' : Mem T C) (ext : Addr → ℕ) (items : List (Addr × T)) (a : Addr) (n : ℕ)
      → m'.strong ≡ update m.strong a n
      → has a (places items) ≡ false
      → AllFresh m ext items
      → AllFresh m' ext items
  AllFresh-update m m' ext [] a n same out h = tt
  AllFresh-update m m' ext ((b, v) ∷ items) a n same out h =
      let ne : b ≢ a = ne_of_has (b ∷ places items) (has_here b (places items)) out in
      (
        record {
          ne_null = h.0.ne_null;
          unused = ap (λ f. f b) same ∙ update_ne m.strong n ne ∙ h.0.unused;
          unheld = h.0.unheld;
        },
        AllFresh-update m m' ext items a n same (ground arith) h.1,
      )

module _ {T S C : Type 0} ⦃aw : AtomicWaker C⦄ (stub : Addr) (gap : Addr → Bool)
    (ext : Addr → ℕ) where
  pub extend-IsSelector :
      (items : List (Addr × T)) (m : Mem T C) (s : Selector S) (tasks order : List Addr)
      → IsSelector m s stub gap ext tasks order
      → Distinct (places items)
      → AllFresh m ext items
      → (s' : Selector S) × (m' : Mem T C) × (extend items s m ≡ some (s', m'))
        × IsSelector m' s' stub gap ext (tasks ++ places items) (order ++ places items)
        × Stored m'.value items
        × ((a : Addr) → has a (places items) ≡ false → m'.value a ≡ m.value a)
  unfolding extend
  extend-IsSelector [] m s tasks order is d fresh = (
    s,
    m,
    refl,
    subst₂ (IsSelector m s stub gap ext) (sym (append-nil tasks)) (sym (append-nil order)) is,
    tt,
    λ a o. refl,
  )
  extend-IsSelector ((a, v) ∷ items) m s tasks order is d fresh =
      let (s₁, m₁, run, is₁, values, counts, alert) =
        push-IsSelector m s stub gap ext tasks order is a v fresh.0 in
      let (s', m', rest, is', stored, kept) =
        extend-IsSelector items m₁ s₁ (tasks ++ a ∷ []) (order ++ a ∷ []) is₁ d.1
          (AllFresh-update m m₁ ext items a 2 counts d.0 fresh.1) in
      (
        s',
        m',
        simp (run, rest),
        subst₂ (IsSelector m' s' stub gap ext) (append_assoc tasks (a ∷ []) (places items))
            (append_assoc order (a ∷ []) (places items)) is',
        (kept a d.0 ∙ ap (λ f. f a) values ∙ update_self m.value a (some v), stored),
        λ b o.
            kept b (ground arith)
            ∙ ap (λ f. f b) values
            ∙ update_ne m.value (some v)
                (λ e. ne_of_has (a ∷ places items) (has_here a (places items)) o (sym e)),
      )

module _ {T C : Type 0} where
  -- The body of `for task in selector`, where the loop takes the task out of each `Removed`.
  unfoldable pub drain : ℕ → NodeList → Cmd (Mem T C) (List T)
  drain zero l = fault
  drain (suc fuel) l = do
    (removed, l) ← into_iter_next l
    elim removed [
      | none ↦ pure []
      | some id ↦ do task ← take_value id; tasks ← drain fuel l; pure (task ∷ tasks)
    ]

  -- The whole loop.
  unfoldable pub for_tasks : {S : Type 0} → ℕ → Selector S → Cmd (Mem T C) (List T)
  for_tasks fuel s = do l ← into_iter fuel s; drain fuel l

  taken-run :
      (m : Mem T C) (x : Addr) (v : T)
      → Live m.strong x
      → m.value x ≡ some v
      → take_value x m ≡ some (v, discarded m x)
  unfolding take_value get_pin drop_arc
  taken-run m x v live filled = simp (live, filled)

  drain-contained :
      (items : List (Addr × T)) (m : Mem T C) (l : NodeList)
      → IsList m l (places items)
      → Stored m.value items
      → (m' : Mem T C) × (drain (suc (length items)) l m ≡ some (contained items, m'))
  unfolding drain
  drain-contained [] m l is stored = (m, simp (into_iter_next-nil m l is).1)
  drain-contained ((a, v) ∷ items) m l is stored =
      let (l₁, run, is₁) = into_iter_next-cons m l a (places items) is in
      let taken = taken-run (unlinked m a) a v (is.live a (has_here a (places items))) stored.0 in
      let out = is.distinct.0 in
      let (m', rest) =
        drain-contained items (discarded (unlinked m a) a) l₁
          (discarded-IsList (unlinked m a) l₁ (places items) a out is₁)
          (Stored-update m.value items a none out stored.1) in
      (m', simp (run, taken, rest))

module _ {T S C : Type 0} ⦃aw : AtomicWaker C⦄ (m : Mem T C) (queue stub : Addr) (cell : C)
    (default : S) (items : List (Addr × T)) where
  -- With addresses for the new queue, its stub and the tasks that are not in use, `from_iter` does
  -- not fault and gives a well-formed selector with the tasks in their order, all of which wait in
  -- its queue, in the same order. A `for` loop over this selector by value, which drops the queue
  -- first, gives the tasks back, in their order, and ends.
  pub from_iter-drain :
      stub ≢ null
      → ((a : Addr) → m.queue a ≡ queue → ⊥)
      → has stub (places items) ≡ false
      → Distinct (places items)
      → AllFresh m (λ a. 0) items
      → (s : Selector S) × (m' : Mem T C) × (from_iter queue stub cell default items m
          ≡ some (s, m'))
        × IsSelector m' s stub (λ a. false) (λ a. 0) (places items) (stub ∷ places items)
        × ((m'' : Mem T C) × (for_tasks (suc (length items)) s m' ≡ some (contained items, m'')))
  unfolding from_iter for_tasks into_iter
  from_iter-drain real unnamed out d fresh =
      let (s₁, m₁, made, is₁, strategy, counts) =
        new-IsSelector m queue stub cell default (λ a. 0) real unnamed in
      let (s', m', run, is', stored, kept) =
        extend-IsSelector stub (λ a. false) (λ a. 0) items m₁ s₁ [] (stub ∷ []) is₁ d
          (AllFresh-update m m₁ (λ a. 0) items stub 1 counts out fresh) in
      let (strong, dropped, list, counts) =
        drop_queue-IsList m' s' stub (λ a. false) (λ a. 0) (places items) (stub ∷ places items) is'
          (λ a. refl) in
      let m₁ = record m' { strong = strong; queues = update m'.queues s'.queue.queue none } in
      let (m'', drained) = drain-contained items m₁ s'.list list stored in
      let same : length (places items) ≡ length items = length-places items in
      let dropped' : drop_queue (suc (length items)) s'.queue.queue m' ≡ some (tt, m₁) =
        subst (λ n. drop_queue (suc n) s'.queue.queue m' ≡ some (tt, m₁)) same dropped in
      (s', m', simp (made, run), is', (m'', simp (dropped', drained)))
