-- ===== src/Selector/Registered.antt =====
-- The waker that `poll_next` of src/selector.rs registers before its loop, and the marker.
use async_selector.Base.{
  ℕ, ◌≡◌, ◌≢◌, sym, ◌∙◌, ap, subst, Bool, true, false, Option, some, List, ◌∷◌, ◌==◌, has, last,
  has-last, ne_of_has,
}
use async_selector.Memory.{Addr, null, Mem, Live, Live-ne_null}
use async_selector.Queue.{AtomicWaker}
use async_selector.Queue.Order.{IsQueue, contents}
use async_selector.Queue.Marker.{Registers}
use async_selector.NodeList.Invariant.{IsList-transfer}
use async_selector.Queue.Handed.{has-contents, stub-out}
use async_selector.Selector.{Selector}
use async_selector.Selector.Loop.{Stays}

module _ {T S C : Type 0} ⦃aw : AtomicWaker C⦄ (owner : Addr → Addr) (queue stub : Addr)
    (gap : Addr → Bool) (World : (Addr → ℕ) → S → (Addr → Option T) → Type 0) where
  -- A waker is registered before the loop.
  pub registered-Stays :
      (m m' : Mem T C) (s : Selector S) (ext : Addr → ℕ) (tasks order : List Addr)
      → IsQueue m' s.queue stub gap order
      → Registers m m'
      → Stays owner queue stub gap World m s ext tasks order
      → Stays owner queue stub gap World m' s ext tasks order
  registered-Stays m m' s ext tasks order is done fine = record {
    selector = record {
      list =
          IsList-transfer m m' s.list tasks (λ a i. ap (λ f. f a) done.keeps.next)
            (λ a i. ap (λ f. f a) done.keeps.prev)
            (λ a i h. subst (λ f. Live f a) (sym done.keeps.strong) h)
            (λ a i.
              subst (λ o. (v : T) × (o ≡ some v)) (sym (ap (λ f. f a) done.keeps.value))
                (fine.selector.list.valued a i))
            fine.selector.list;
      queue = is;
      owned = λ a i. ap (λ f. f a) done.keeps.queue ∙ fine.selector.owned a i;
      real = fine.selector.real;
      counted = λ a real own.
          ap (λ f. f a) done.keeps.strong
          ∙ fine.selector.counted a real (sym (ap (λ f. f a) done.keeps.queue) ∙ own);
      unlinked = λ a real own h gone.
          ap (λ f. f a) done.keeps.next
          ∙ fine.selector.unlinked a real (sym (ap (λ f. f a) done.keeps.queue) ∙ own)
              (subst (λ f. Live f a) done.keeps.strong h) gone;
      awake = λ a i on. fine.selector.awake a i (sym (ap (λ f. f a) done.flags) ∙ on);
    };
    world = subst (World ext s.strategy) (sym done.keeps.value) fine.world;
    owner_kept = done.keeps.queue ∙ fine.owner_kept;
    queue_here = fine.queue_here;
  }

  pub marker-ne_null :
      (m : Mem T C) (s : Selector S) (order xs : List Addr) (x : Addr)
      → IsQueue m s.queue stub gap order
      → contents stub order ≡ x ∷ xs
      → (last xs x == null) ≡ false
  marker-ne_null m s order xs x is e =
      let in_contents : has (last xs x) (contents stub order) ≡ true =
        ap (has (last xs x)) e ∙ has-last x xs in
      let real : last xs x ≢ stub =
        ne_of_has (contents stub order) in_contents (stub-out stub order) in
      Live-ne_null m.strong (last xs x)
        (is.live (last xs x) (sym (has-contents stub (last xs x) order real) ∙ in_contents))
