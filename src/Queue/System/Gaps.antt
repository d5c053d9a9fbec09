-- ===== src/Queue/System/Gaps.antt =====
-- The links that producers of a queue of src/queue.rs have not stored yet, and the order of the nodes.
use native.Mathlib.Decide.{ℕ_discrete}
use async_selector.Base.{
  ◌≡◌, refl, sym, ◌∙◌, ap, subst, Bool, true, false, Option, none, some, List, [], ◌∷◌, ◌++◌, ◌==◌,
  if◌then◌else◌, ◌⊎◌, init, init-last, Bool-cases, last, inl, inr, update, update_self, update_ne,
  fun_ext, append_assoc,
}
use async_selector.Memory.{Addr, null}
use async_selector.Queue.Order.{take_first, dequeue_order}
use async_selector.Queue.Contents.{order-gap, order-skip, order-direct}
use async_selector.Queue.System.Holds.{is_some, is_gap, Adjacent}

module _ (pending : Addr → Option Addr) (head : Addr) where
  pub gap-filled :
      (node : Addr) → update (is_gap pending) head true ≡ is_gap (update pending head (some node))
  gap-filled node = fun_ext λ a. by_test (a == head) (pending a)
    where
      by_test :
          (b : Bool) (o : Option Addr)
          → (if b then true else is_some o) ≡ is_some (if b then some node else o)
      by_test true o = refl
      by_test false o = refl

  pub gap-closed : update (is_gap pending) head false ≡ is_gap (update pending head none)
  gap-closed = fun_ext λ a. by_test (a == head) (pending a)
    where
      by_test :
          (b : Bool) (o : Option Addr)
          → (if b then false else is_some o) ≡ is_some (if b then none else o)
      by_test true o = refl
      by_test false o = refl

  pub filled-cases :
      (node a b : Addr)
      → update pending head (some node) a ≡ some b
      → ((a ≡ head) × (node ≡ b)) ⊎ (pending a ≡ some b)
  filled-cases node a b e = elim (ℕ_discrete a head) [
    | yes same ↦
        let here : update pending head (some node) a ≡ some node =
          ap (update pending head (some node)) same ∙ update_self pending head (some node) in
        inl (same, cc)
    | no ne ↦ inr (sym (update_ne pending (some node) ne) ∙ e)
  ]

  pub closed-cases : (a b : Addr) → update pending head none a ≡ some b → pending a ≡ some b
  closed-cases a b e = elim (ℕ_discrete a head) [
    | yes same ↦
        let here : update pending head none a ≡ none =
          ap (update pending head none) same ∙ update_self pending head none in
        cc
    | no ne ↦ sym (update_ne pending none ne) ∙ e
  ]

pub Adjacent-snoc :
    (order : List Addr) (node a b : Addr) → Adjacent order a b → Adjacent (order ++ node ∷ []) a b
Adjacent-snoc order node a b (us, vs, e) =
    (us, vs ++ node ∷ [], ap (λ xs. xs ++ node ∷ []) e ∙ append_assoc us (a ∷ b ∷ vs) (node ∷ []))

pub Adjacent-last :
    (order : List Addr) (node : Addr)
    → ((order ≡ []) → ⊥)
    → Adjacent (order ++ node ∷ []) (last order null) node
Adjacent-last [] node h = absurd (h refl)
Adjacent-last (x ∷ xs) node h = (
  init (x ∷ xs),
  [],
  ap (λ ys. ys ++ node ∷ []) (init-last x xs)
      ∙ append_assoc (init (x ∷ xs)) (last xs x ∷ []) (node ∷ []),
)

module _ (stub : Addr) (gap : Addr → Bool) (a b : Addr) (vs : List Addr)
    (missing : gap a ≡ true) where
  first-Adjacent : (us : List Addr) → Adjacent (take_first stub gap (us ++ a ∷ b ∷ vs)).1 a b
  first-Adjacent [] = rw missing ([], vs, refl)
  first-Adjacent (u ∷ []) = elim (Bool-cases (gap u)) [
    | inl e ↦ rw e (u ∷ [], vs, refl)
    | inr e ↦ rw e ([], vs, refl)
  ]
  first-Adjacent (u ∷ v ∷ us) = elim (Bool-cases (gap u)) [
    | inl e ↦ rw e (u ∷ v ∷ us, vs, refl)
    | inr e ↦ rw e (v ∷ us, vs, refl)
  ]

  -- Behind a stub, or another node, that stands first.
  behind-Adjacent :
      (u y : Addr) (ys us : List Addr)
      → y ∷ ys ≡ us ++ a ∷ b ∷ vs
      → Adjacent (dequeue_order stub gap (u ∷ y ∷ ys)).1 a b
  behind-Adjacent u y ys us e = elim (ℕ_discrete u stub) [
    | yes same ↦
        subst (λ z. Adjacent (dequeue_order stub gap (z ∷ y ∷ ys)).1 a b) (sym same)
          (elim (Bool-cases (gap stub)) [
            | inl g ↦
                subst (λ n. Adjacent n.1 a b) (sym (order-gap stub gap y ys g))
                  (stub ∷ us, vs, ap (λ zs. stub ∷ zs) e)
            | inr g ↦
                subst (λ n. Adjacent n.1 a b) (sym (order-skip stub gap y ys g))
                  (subst (λ zs. Adjacent (take_first stub gap zs).1 a b) (sym e)
                    (first-Adjacent us))
          ])
    | no ne ↦
        subst (λ n. Adjacent n.1 a b) (sym (order-direct stub gap u (y ∷ ys) ne))
          (subst (λ zs. Adjacent (take_first stub gap (u ∷ zs)).1 a b) (sym e)
            (first-Adjacent (u ∷ us)))
  ]

  at-Adjacent : (us : List Addr) → Adjacent (dequeue_order stub gap (us ++ a ∷ b ∷ vs)).1 a b
  at-Adjacent [] = elim (ℕ_discrete a stub) [
    | yes same ↦
        subst (λ n. Adjacent n.1 a b)
          (sym (
            subst (λ z. dequeue_order stub gap (z ∷ b ∷ vs) ≡ (none, z ∷ b ∷ vs)) (sym same)
              (order-gap stub gap b vs (sym (ap gap same) ∙ missing))))
          ([], vs, refl)
    | no ne ↦
        subst (λ n. Adjacent n.1 a b) (sym (order-direct stub gap a (b ∷ vs) ne))
          (first-Adjacent [])
  ]
  at-Adjacent (u ∷ []) = behind-Adjacent u a (b ∷ vs) [] refl
  at-Adjacent (u ∷ v ∷ us) = behind-Adjacent u v (us ++ a ∷ b ∷ vs) (v ∷ us) refl

-- A missing link is still missing after `dequeue`.
pub Adjacent-dequeue :
    (stub : Addr) (gap : Addr → Bool) (order : List Addr) (a b : Addr)
    → gap a ≡ true
    → Adjacent order a b
    → Adjacent (dequeue_order stub gap order).1 a b
Adjacent-dequeue stub gap order a b missing (us, vs, e) =
    subst (λ xs. Adjacent (dequeue_order stub gap xs).1 a b) (sym e)
      (at-Adjacent stub gap a b vs missing us)
