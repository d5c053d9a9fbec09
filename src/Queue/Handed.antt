-- ===== src/Queue/Handed.antt =====
-- The nodes that wait in a queue of src/queue.rs, when one is handed out.
use native.Mathlib.Decide.{ℕ_discrete}
use mathlib.Core.Bool.{false≢true}
use async_selector.Base.{
  ◌≡◌, ◌≢◌, refl, sym, ◌∙◌, ap, subst, true, false, List, [], ◌∷◌, ◌++◌, arith, has, has_here,
  Distinct, eq→==, ne→==,
}
use async_selector.Memory.{Addr}
use async_selector.Queue.Order.{contents}

pub has-contents : (stub a : Addr) (xs : List Addr) → a ≢ stub → has a (contents stub xs) ≡ has a xs
has-contents stub a [] real = refl
has-contents stub a (x ∷ xs) real = ground (arith, has-contents stub a xs)

pub stub-out : (stub : Addr) (xs : List Addr) → has stub (contents stub xs) ≡ false
stub-out stub [] = refl
stub-out stub (x ∷ xs) = ground (arith, stub-out stub xs)

pub Distinct-contents : (stub : Addr) (xs : List Addr) → Distinct xs → Distinct (contents stub xs)
Distinct-contents stub [] d = tt
Distinct-contents stub (x ∷ xs) d = elim (ℕ_discrete x stub) [
  | yes e ↦ rw (eq→== e) (Distinct-contents stub xs d.1)
  | no ne ↦ rw (ne→== ne) (has-contents stub x xs ne ∙ d.0, Distinct-contents stub xs d.1)
]

-- The node that is handed out was in the queue and is no more; the others stay.
module _ (stub x : Addr) (xs ys : List Addr) (d : Distinct xs)
    (handed : contents stub xs ≡ x ∷ contents stub ys) where
  pub handed-real : x ≢ stub
  handed-real e = false≢true (
      sym (subst (λ a. has a (contents stub xs) ≡ false) (sym e) (stub-out stub xs))
      ∙ ap (has x) handed
      ∙ has_here x (contents stub ys))

  pub handed-has : has x xs ≡ true
  handed-has =
      sym (has-contents stub x xs handed-real) ∙ ap (has x) handed ∙ has_here x (contents stub ys)

  pub handed-out : has x ys ≡ false
  handed-out =
      sym (has-contents stub x ys handed-real)
      ∙ (subst Distinct handed (Distinct-contents stub xs d)).0

  pub handed-others : (a : Addr) → a ≢ stub → a ≢ x → has a xs ≡ has a ys
  handed-others a real ne =
      sym (has-contents stub a xs real)
      ∙ ap (has a) handed
      ∙ ground arith
      ∙ has-contents stub a ys real

pub contents-append :
    (stub : Addr) (xs ys : List Addr)
    → contents stub (xs ++ ys) ≡ contents stub xs ++ contents stub ys
contents-append stub [] ys = refl
contents-append stub (x ∷ xs) ys = ground (arith, contents-append stub xs ys)
