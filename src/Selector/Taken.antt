-- ===== src/Selector/Taken.antt =====
-- `dequeue` of src/queue.rs in a selector of src/selector.rs: the node in hand.
use native.Mathlib.Decide.{ℕ_discrete}
use mathlib.Core.Bool.{false≢true}
use async_selector.Base.{
  ℕ, ◌+◌, ◌≡◌, ◌≢◌, refl, sym, ◌∙◌, ap, subst, Bool, true, false, some, List, ◌∷◌, arith, has,
  ne_of_has, update, update_self, update_ne,
}
use async_selector.Memory.{Addr, Mem, Live}
use async_selector.Queue.{Receiver}
use async_selector.Queue.Order.{IsQueue, contents}
use async_selector.Queue.Transfer.{IsQueue-transfer}
use async_selector.Queue.Handed.{handed-real, handed-has, handed-out, handed-others}
use async_selector.Queue.Fifo.{Dequeues}
use async_selector.Queue.Flag.{IsMember}
use async_selector.NodeList.Invariant.{IsList-transfer}
use async_selector.Selector.{Selector}
use async_selector.Selector.Invariant.{IsSelector, share}

-- A node that `dequeue` handed out, in the memory after it. `cleared` is the selector after
-- `into_inner`.
pub record Taken {T S C : Type 0} (m : Mem T C) (s : Selector S) (stub : Addr) (gap : Addr → Bool)
    (ext : Addr → ℕ) (tasks order : List Addr) (node : Addr) : Type 0 where
  pub member : IsMember m s.queue stub node
  pub flag : m.is_enqueued node ≡ true
  pub out : has node order ≡ false
  -- A node that is no task.
  pub skipped :
      has node tasks ≡ false → IsSelector m s stub gap (update ext node (ext node + 1)) tasks order
  pub cleared :
      IsSelector
        (record m { is_enqueued = update m.is_enqueued node false })
        s
        stub
        gap
        (update ext node (ext node + 1))
        tasks
        order

counted_taken :
    (strong : Addr → ℕ) (tasks xs ys : List Addr) (ext : Addr → ℕ) (x a : Addr)
    → has x xs ≡ true
    → has x ys ≡ false
    → (a ≢ x → has a xs ≡ has a ys)
    → strong a ≡ share a tasks + share a xs + ext a
    → strong a ≡ share a tasks + share a ys + update ext x (ext x + 1) a
counted_taken strong tasks xs ys ext x a i o same h = elim (ℕ_discrete a x) [
  | yes e ↦ ground arith
  | no ne ↦ ground (arith, same ne)
]

module _ {T S C : Type 0} (m m' : Mem T C) (s : Selector S) (r : Receiver) (stub : Addr)
    (gap : Addr → Bool) (ext : Addr → ℕ) (tasks order order' : List Addr)
    (is : IsSelector m s stub gap ext tasks order) (queue : IsQueue m' r stub gap order')
    (done : Dequeues m m' s.queue r) where
  -- The selector after `dequeue`, with other flags and other handles.
  pub dequeued-IsSelector :
      (flags : Addr → Bool) (ext' : Addr → ℕ)
      → ((a : Addr) → has a order' ≡ true → a ≢ stub → flags a ≡ true)
      → ((a : Addr) → has a tasks ≡ true → flags a ≡ true → has a order' ≡ true)
      → ((a : Addr)
          → a ≢ stub
          → m.strong a ≡ share a tasks + share a order + ext a
          → m.strong a ≡ share a tasks + share a order' + ext' a)
      → IsSelector
          (record m' { is_enqueued = flags })
          (record s { queue = r })
          stub
          gap
          ext'
          tasks
          order'
  dequeued-IsSelector flags ext' marked awake counted = record {
    list =
        IsList-transfer m (record m' { is_enqueued = flags }) s.list tasks
          (λ a i. ap (λ f. f a) done.keeps.next) (λ a i. ap (λ f. f a) done.keeps.prev)
          (λ a i h. subst (λ f. Live f a) (sym done.keeps.strong) h)
          (λ a i.
            subst (λ o. (v : T) × (o ≡ some v)) (sym (ap (λ f. f a) done.keeps.value))
              (is.list.valued a i))
          is.list;
    queue =
        IsQueue-transfer m' (record m' { is_enqueued = flags }) r stub gap order' refl (λ a i. refl)
          (λ a i. refl) (λ a h. h) marked queue;
    owned = λ a i. ap (λ f. f a) done.keeps.queue ∙ is.owned a i ∙ sym done.queue;
    real = is.real;
    counted = λ a real own.
        ap (λ f. f a) done.keeps.strong
        ∙ counted a real
            (is.counted a real (sym (ap (λ f. f a) done.keeps.queue) ∙ own ∙ done.queue));
    unlinked = λ a real own h gone.
        ap (λ f. f a) done.keeps.next
        ∙ is.unlinked a real (sym (ap (λ f. f a) done.keeps.queue) ∙ own ∙ done.queue)
            (subst (λ f. Live f a) done.keeps.strong h) gone;
    awake = awake;
  }

  pub dequeued-Taken :
      (node : Addr)
      → contents stub order ≡ node ∷ contents stub order'
      → Taken m' (record s { queue = r }) stub gap ext tasks order' node
  dequeued-Taken node handed =
      let d = is.queue.distinct in
      let real = handed-real stub node order order' d handed in
      let i = handed-has stub node order order' d handed in
      let o = handed-out stub node order order' d handed in
      let others = handed-others stub node order order' d handed in
      let counted = λ (a : Addr) (ne : a ≢ stub).
        counted_taken m.strong tasks order order' ext node a i o (others a ne) in
      let flagged = λ (a : Addr). sym (ap (λ f. f a) done.flags) in
      record {
        member = record {
          live = subst (λ f. Live f node) (sym done.keeps.strong) (is.queue.live node i);
          real = real;
          owned = ap (λ f. f node) done.keeps.queue ∙ is.queue.owned node i real ∙ sym done.queue;
        };
        flag = ap (λ f. f node) done.flags ∙ is.queue.marked node i real;
        out = o;
        skipped = λ gone.
            dequeued-IsSelector m'.is_enqueued (update ext node (ext node + 1)) queue.marked
              (λ a j on.
                sym (others a (λ e. ne_of_has tasks j is.real e) (λ e. ne_of_has tasks j gone e))
                ∙ is.awake a j (flagged a ∙ on))
              counted;
        cleared =
            dequeued-IsSelector (update m'.is_enqueued node false) (update ext node (ext node + 1))
              (λ a j ne.
                update_ne m'.is_enqueued false (ne_of_has order' j o) ∙ queue.marked a j ne)
              (λ a j on.
                let ne : a ≢ node =
                  λ e. false≢true (sym (rw e (update_self m'.is_enqueued node false)) ∙ on) in
                sym (others a (λ e. ne_of_has tasks j is.real e) ne)
                ∙ is.awake a j (flagged a ∙ sym (update_ne m'.is_enqueued false ne) ∙ on))
              counted;
      }
