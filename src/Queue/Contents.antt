-- ===== src/Queue/Contents.antt =====
-- The nodes that wait in a queue, as the steps of `dequeue_order` and the ends of the order show
-- them.
use native.Mathlib.Decide.{ℕ_discrete}
use async_selector.Base.{
  subst, ◌≡◌, ◌≢◌, refl, sym, ◌∙◌, ap, Bool, true, false, Option, none, some, List, [], ◌∷◌, ◌++◌,
  arith, ◌⊎◌, last, has, has-last, has_here, Distinct, ne_of_has, eq→==, ne→==, Bool-cases, inl,
  inr,
}
use async_selector.Memory.{Addr}
use async_selector.Queue.Order.{contents, take_first, dequeue_order, second_last}

contents-stub : (stub : Addr) (xs : List Addr) → contents stub (stub ∷ xs) ≡ contents stub xs
contents-stub stub xs = simp (eq→== {a = stub} refl)

contents-cons :
    (stub x : Addr) (xs : List Addr) → x ≢ stub → contents stub (x ∷ xs) ≡ x ∷ contents stub xs
contents-cons stub x xs real = simp (ne→== real)

pub contents-snoc :
    (stub x : Addr) (xs : List Addr)
    → x ≢ stub
    → contents stub (xs ++ x ∷ []) ≡ contents stub xs ++ x ∷ []
contents-snoc stub x [] real = contents-cons stub x [] real
contents-snoc stub x (y ∷ xs) real = ground (arith, contents-snoc stub x xs real)

pub order-alone :
    (stub : Addr) (gap : Addr → Bool) → dequeue_order stub gap (stub ∷ []) ≡ (none, stub ∷ [])
order-alone stub gap = ground arith

pub order-gap :
    (stub : Addr) (gap : Addr → Bool) (y : Addr) (ys : List Addr)
    → gap stub ≡ true
    → dequeue_order stub gap (stub ∷ y ∷ ys) ≡ (none, stub ∷ y ∷ ys)
order-gap stub gap y ys e = ground arith

pub order-skip :
    (stub : Addr) (gap : Addr → Bool) (y : Addr) (ys : List Addr)
    → gap stub ≡ false
    → dequeue_order stub gap (stub ∷ y ∷ ys) ≡ take_first stub gap (y ∷ ys)
order-skip stub gap y ys e = simp (eq→== {a = stub} refl, e)

pub order-direct :
    (stub : Addr) (gap : Addr → Bool) (x : Addr) (xs : List Addr)
    → x ≢ stub
    → dequeue_order stub gap (x ∷ xs) ≡ take_first stub gap (x ∷ xs)
order-direct stub gap x [] real = simp (ne→== real)
order-direct stub gap x (y ∷ ys) real = simp (ne→== real)

-- First in, first out: a node that is handed out was the first; if none is, all stay, and either
-- none waits or a link is missing.
abbrev pub Handed : Addr → (Addr → Bool) → (before after : List Addr) → Option Addr → Type 0
Handed stub gap before after none =
    (contents stub after ≡ contents stub before)
    × ((contents stub before ≡ []) ⊎ ((a : Addr) × (has a before ≡ true) × (gap a ≡ true)))
Handed stub gap before after (some x) = contents stub before ≡ x ∷ contents stub after

take_first-Handed :
    (stub : Addr) (gap : Addr → Bool) (x : Addr) (xs : List Addr)
    → x ≢ stub
    → Handed stub gap (x ∷ xs) (take_first stub gap (x ∷ xs)).1 (take_first stub gap (x ∷ xs)).0
take_first-Handed stub gap x [] real =
    contents-cons stub x [] real ∙ ap (λ ys. x ∷ ys) (sym (contents-stub stub []))
take_first-Handed stub gap x (y ∷ ys) real = elim (Bool-cases (gap x)) [
  | inl e ↦ rw e (refl, inr (x, has_here x (y ∷ ys), e))
  | inr e ↦ rw e (contents-cons stub x (y ∷ ys) real)
]

skip-Handed :
    (stub : Addr) (gap : Addr → Bool) (xs after : List Addr) (o : Option Addr)
    → Handed stub gap xs after o
    → Handed stub gap (stub ∷ xs) after o
skip-Handed stub gap xs after none (same, inl empty) =
    (same ∙ sym (contents-stub stub xs), inl (contents-stub stub xs ∙ empty))
skip-Handed stub gap xs after none (same, inr (a, i, e)) =
    (same ∙ sym (contents-stub stub xs), inr (a, ground arith, e))
skip-Handed stub gap xs after (some x) e = contents-stub stub xs ∙ e

stub-Handed :
    (stub : Addr) (gap : Addr → Bool) (xs : List Addr)
    → Distinct (stub ∷ xs)
    → Handed stub gap
        (stub ∷ xs)
        (dequeue_order stub gap (stub ∷ xs)).1
        (dequeue_order stub gap (stub ∷ xs)).0
stub-Handed stub gap [] d =
    subst (λ n. Handed stub gap (stub ∷ []) n.1 n.0) (sym (order-alone stub gap))
      (refl, inl (contents-stub stub []))
stub-Handed stub gap (y ∷ ys) d = elim (Bool-cases (gap stub)) [
  | inl e ↦
      subst (λ n. Handed stub gap (stub ∷ y ∷ ys) n.1 n.0) (sym (order-gap stub gap y ys e))
        (refl, inr (stub, has_here stub (y ∷ ys), e))
  | inr e ↦
      subst (λ n. Handed stub gap (stub ∷ y ∷ ys) n.1 n.0) (sym (order-skip stub gap y ys e))
        (skip-Handed stub gap (y ∷ ys) _ (take_first stub gap (y ∷ ys)).0
          (take_first-Handed stub gap y ys (ne_of_has (y ∷ ys) (has_here y ys) d.0)))
]

pub dequeue_order-Handed :
    (stub : Addr) (gap : Addr → Bool) (order : List Addr)
    → Distinct order
    → Handed stub gap order (dequeue_order stub gap order).1 (dequeue_order stub gap order).0
dequeue_order-Handed stub gap [] d = (refl, inl refl)
dequeue_order-Handed stub gap (x ∷ xs) d = elim (ℕ_discrete x stub) [
  | yes e ↦
      subst
        (λ y.
          Distinct (y ∷ xs)
          → Handed stub gap (y ∷ xs) (dequeue_order stub gap (y ∷ xs)).1
              (dequeue_order stub gap (y ∷ xs)).0)
        (sym e) (stub-Handed stub gap xs) d
  | no real ↦
      subst (λ n. Handed stub gap (x ∷ xs) n.1 n.0) (sym (order-direct stub gap x xs real))
        (take_first-Handed stub gap x xs real)
]

-- The last node that waits is the last of the order, or the one in front of a stub at the end.
pub last-contents :
    (stub x : Addr) (xs : List Addr) (q : Addr)
    → last xs x ≢ stub
    → last (contents stub (x ∷ xs)) q ≡ last xs x
last-contents stub x [] q real = ap (λ ys. last ys q) (contents-cons stub x [] real)
last-contents stub x (y ∷ ys) q real = elim (ℕ_discrete x stub) [
  | yes e ↦ ground (arith, last-contents stub y ys q real)
  | no n ↦ ground (arith, last-contents stub y ys x real)
]

pub second_last-any :
    (x y : Addr) (ys : List Addr) (p q : Addr)
    → second_last (x ∷ y ∷ ys) p ≡ second_last (x ∷ y ∷ ys) q
second_last-any x y [] p q = refl
second_last-any x y (z ∷ zs) p q = second_last-any y z zs p q

pub second_last-contents :
    (stub x y : Addr) (ys : List Addr) (q : Addr)
    → Distinct (x ∷ y ∷ ys)
    → last ys y ≡ stub
    → last (contents stub (x ∷ y ∷ ys)) q ≡ second_last (x ∷ y ∷ ys) q
second_last-contents stub x y [] q d e = ground arith
second_last-contents stub x y (z ∷ zs) q d e =
    let real = λ (h : x ≡ stub). ne_of_has (y ∷ z ∷ zs) (has-last y (z ∷ zs)) d.0 (e ∙ sym h) in
    ap (λ ys. last ys q) (contents-cons stub x (y ∷ z ∷ zs) real)
    ∙ second_last-contents stub y z zs x d.1 e
    ∙ second_last-any y z zs x q
