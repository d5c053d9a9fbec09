-- ===== src/Selector/Split.antt =====
-- The nodes in front of the marker of `poll_next` (src/selector.rs) and those behind it, in a round of
-- its loop.
use async_selector.Base.{
  ℕ, ◌≡◌, refl, ◌∙◌, ap, subst, Bool, true, none, List, [], ◌∷◌, ◌++◌, append_assoc, arith, ◌==◌,
  has, ne_of_has, ◌⊎◌, inl, inr, has-append-here, Distinct, ne_of_has, length, length-append,
}
use async_selector.Memory.{Addr, Mem}
use async_selector.Queue.{AtomicWaker}
use async_selector.Queue.Order.{contents}
use async_selector.Queue.Contents.{Handed}
use async_selector.Queue.Handed.{Distinct-contents, contents-append}
use async_selector.Selector.Result.{Minds, Heard-Minds}
use async_selector.Selector.Heard.{Quiet, Heard}
use async_selector.Queue.Enqueue.{Rings}

append-same : (xs ys : List Addr) → xs ++ ys ≡ xs → ys ≡ []
append-same xs [] e = refl
append-same xs (y ∷ ys) e =
    absurd (omega (arith, ap (λ (zs : List Addr). length zs) e, length-append xs (y ∷ ys)))

-- The node that is taken is the first.
module _ (stub : Addr) (order order' : List Addr) where
  pub head_of :
      (vs : List Addr) (node marker : Addr)
      → contents stub order ≡ node ∷ contents stub order'
      → contents stub order ≡ marker ∷ vs
      → node ≡ marker
  head_of vs node marker handed split = cc

  pub rest_of :
      (vs : List Addr) (node marker : Addr)
      → contents stub order ≡ node ∷ contents stub order'
      → contents stub order ≡ marker ∷ vs
      → contents stub order' ≡ vs
  rest_of vs node marker handed split = cc

  pub tail_of :
      (added us vs : List Addr) (node u marker : Addr)
      → contents stub order ≡ node ∷ contents stub order'
      → contents stub order ≡ u ∷ us ++ marker ∷ vs
      → contents stub (order' ++ added) ≡ us ++ marker ∷ (vs ++ contents stub added)
  tail_of added us vs node u marker handed split =
      contents-append stub order' added
      ∙ ap (λ xs. xs ++ contents stub added) (rest_of (us ++ marker ∷ vs) node u handed split)
      ∙ append_assoc us (marker ∷ vs) (contents stub added)

  -- A marker that is not the first is not the node that is taken.
  pub marker-later :
      (us vs : List Addr) (node u marker : Addr)
      → Distinct order
      → contents stub order ≡ node ∷ contents stub order'
      → contents stub order ≡ u ∷ us ++ marker ∷ vs
      → (node == marker) ≡ true
      → ⊥
  marker-later us vs node u marker d handed split e =
      let d' = subst Distinct split (Distinct-contents stub order d) in
      let same : node ≡ u = head_of (us ++ marker ∷ vs) node u handed split in
      let i : has marker (us ++ marker ∷ vs) ≡ true = has-append-here us vs marker in
      ne_of_has (us ++ marker ∷ vs) i d'.0 (ground arith)

module _ {T C : Type 0} ⦃aw : AtomicWaker C⦄ where
  pub behind-heard :
      (stub : Addr) (w : ℕ) (m : Mem T C) (vs order added : List Addr)
      → Rings m w (Quiet (vs ≡ []) order) (order ++ added)
      → (vs ++ contents stub added ≡ []) ⊎ (has w m.woken ≡ true)
  behind-heard stub w m vs order added (inl (empty, same)) = inl (
      ap (λ xs. xs ++ contents stub added) empty
      ∙ ap (contents stub) (append-same order added same))
  behind-heard stub w m vs order added (inr woken) = inr woken

  pub none-Minds :
      (queue stub : Addr) (gap : Addr → Bool) (w : ℕ) (P : Type 0) (m : Mem T C)
      (order order' order'' : List Addr)
      → Handed stub gap order order' none
      → Heard queue w P m order' order''
      → Minds queue stub gap w m order''
  none-Minds queue stub gap w P m order order' order'' (same, inl empty) heard =
      Heard-Minds queue stub gap w P m order' order'' (λ p. same ∙ empty) heard
  none-Minds queue stub gap w P m order order' order'' (same, inr (a, i, e)) heard =
      (heard.alert, inr (inr (a, e)))
