-- ===== src/Base/Lists.antt =====
-- Lists of addresses: length over the native numbers, membership, distinctness, ends.
use Prim.Native.Nat.{ℕ, suc, ◌+◌}
use mathlib.Core.Path.{◌≡◌, refl, sym, ◌∙◌, ap, subst}
use mathlib.Core.Logic.{◌≢◌}
use mathlib.Core.Bool.{Bool, true, false, ◌||◌, false≢true}
use native.Mathlib.Decide.{ℕ_discrete}
use mathlib.Core.List.{List, [], ◌∷◌, ◌++◌, reverse, append_assoc, append-nil, reverse-append}
use native.Mathlib.Omega.{arith}
use async_selector.Base.Tests.{◌==◌, if◌then◌else◌}

module _ {ℓ} {A : Type ℓ} where
  abbrev pub length : List A → ℕ
  length [] = 0
  length (x ∷ xs) = suc (length xs)

  pub length-append : (xs ys : List A) → length (xs ++ ys) ≡ length xs + length ys
  length-append [] ys = omega arith
  length-append (x ∷ xs) ys = omega (arith, length-append xs ys)

  -- The first item, or `q` if there is none.
  abbrev pub first : List A → A → A
  first [] q = q
  first (x ∷ _) q = x

  pub reverse-cons : (x : A) (xs : List A) → reverse (x ∷ xs) ≡ reverse xs ++ x ∷ []
  reverse-cons x xs = reverse-append (x ∷ []) xs

  pub reverse-middle :
      (us vs : List A) (x : A) → reverse (us ++ x ∷ vs) ≡ reverse vs ++ x ∷ reverse us
  reverse-middle us vs x =
      reverse-append us (x ∷ vs)
      ∙ ap (λ ys. ys ++ reverse us) (reverse-cons x vs)
      ∙ append_assoc (reverse vs) (x ∷ []) (reverse us)

-- Does `a` stand in the list?
abbrev pub has : ℕ → List ℕ → Bool
has a [] = false
has a (x ∷ xs) = (a == x) || has a xs

-- No item stands in the list twice.
abbrev pub Distinct : List ℕ → Type 0
Distinct [] = Unit
Distinct (x ∷ xs) = (has x xs ≡ false) × Distinct xs

pub has-append : (a : ℕ) (xs ys : List ℕ) → has a (xs ++ ys) ≡ (has a xs || has a ys)
has-append a [] ys = refl
has-append a (x ∷ xs) ys = ground (arith, has-append a xs ys)

pub has-reverse : (a : ℕ) (xs : List ℕ) → has a (reverse xs) ≡ has a xs
has-reverse a [] = refl
has-reverse a (x ∷ xs) =
    ground (arith, reverse-cons x xs, has-append a (reverse xs) (x ∷ []), has-reverse a xs)

-- The last item, or `q` if there is none.
abbrev pub last {ℓ} : {A : Type ℓ} → List A → A → A
last [] q = q
last (x ∷ xs) q = last xs x

pub last-append {ℓ} :
    {A : Type ℓ} (xs ys : List A) (q : A) → last (xs ++ ys) q ≡ last ys (last xs q)
last-append [] ys q = refl
last-append (x ∷ xs) ys q = last-append xs ys x

pub has-last : (x : ℕ) (xs : List ℕ) → has (last xs x) (x ∷ xs) ≡ true
has-last x [] = ground arith
has-last x (y ∷ xs) = ground (arith, has-last y xs)

pub first-reverse-append {ℓ} :
    {A : Type ℓ} (xs ys : List A) (q : A) → first (reverse xs ++ ys) q ≡ last xs (first ys q)
first-reverse-append [] ys q = refl
first-reverse-append (x ∷ xs) ys q =
    rw (reverse-cons x xs, append_assoc (reverse xs) (x ∷ []) ys)
      (first-reverse-append xs (x ∷ ys) q)

pub first-reverse {ℓ} : {A : Type ℓ} (xs : List A) (q : A) → first (reverse xs) q ≡ last xs q
first-reverse xs q =
    subst (λ ys. first ys q ≡ last xs q) (append-nil (reverse xs)) (first-reverse-append xs [] q)

pub last-reverse {ℓ} : {A : Type ℓ} (xs : List A) (q : A) → last (reverse xs) q ≡ first xs q
last-reverse [] q = refl
last-reverse (x ∷ xs) q = rw (reverse-cons x xs, last-append (reverse xs) (x ∷ []) q)

-- What `Distinct` says of two parts.
pub record Apart (xs ys : List ℕ) : Type 0 where
  pub left : Distinct xs
  pub right : Distinct ys
  pub disjoint : (a : ℕ) → has a xs ≡ true → has a ys ≡ false

pub Distinct-append : (xs ys : List ℕ) → Distinct (xs ++ ys) → Apart xs ys
Distinct-append [] ys d = record { left = tt; right = d; disjoint = λ a i. cc }
Distinct-append (x ∷ xs) ys d =
    let rest = Distinct-append xs ys d.1 in
    record {
      left = (ground (arith, has-append x xs ys), rest.left);
      right = rest.right;
      disjoint = λ a i. ground (arith, has-append x xs ys, rest.disjoint a);
    }

pub append-Distinct : (xs ys : List ℕ) → Apart xs ys → Distinct (xs ++ ys)
append-Distinct [] ys p = p.right
append-Distinct (x ∷ xs) ys p = (
  ground (arith, has-append x xs ys, p.left, p.disjoint x),
  append-Distinct xs ys
      (record { left = p.left.1; right = p.right; disjoint = λ a i. p.disjoint a (ground arith) }),
)

pub reverse-Distinct : (xs : List ℕ) → Distinct xs → Distinct (reverse xs)
reverse-Distinct [] d = tt
reverse-Distinct (x ∷ xs) d = rw (reverse-cons x xs) (
    append-Distinct (reverse xs) (x ∷ []) (record {
      left = reverse-Distinct xs d.1;
      right = (refl, tt);
      disjoint = λ a i. ground (arith, has-reverse a xs);
    }))

pub ne_of_has : {a b : ℕ} (xs : List ℕ) → has a xs ≡ true → has b xs ≡ false → a ≢ b
ne_of_has xs i o e = cc

pub Apart-ne : {xs ys : List ℕ} {a b : ℕ} → Apart xs ys → has a xs ≡ true → has b ys ≡ true → a ≢ b
Apart-ne {xs} {ys} {a} apart i j e = ground (arith, apart.disjoint a i)

pub has_here : (x : ℕ) (xs : List ℕ) → has x (x ∷ xs) ≡ true
has_here x xs = ground arith

pub has-insert :
    (a : ℕ) (xs ys : List ℕ) (x : ℕ) → has a (xs ++ ys) ≡ true → has a (xs ++ x ∷ ys) ≡ true
has-insert a xs ys x h = ground (arith, has-append a xs ys, has-append a xs (x ∷ ys))

-- The item at the cut of a split list left out.
pub Distinct-remove :
    (xs ys : List ℕ) (x : ℕ)
    → Distinct (xs ++ x ∷ ys)
    → Distinct (xs ++ ys) × (has x (xs ++ ys) ≡ false)
Distinct-remove xs ys x d =
    let parts = Distinct-append xs (x ∷ ys) d in
    (
      append-Distinct xs ys (record {
        left = parts.left;
        right = parts.right.1;
        disjoint = λ a i. ground (arith, parts.disjoint a i);
      }),
      ground (arith, has-append x xs ys, parts.disjoint x),
    )

pub has-append-here : (xs ys : List ℕ) (x : ℕ) → has x (xs ++ x ∷ ys) ≡ true
has-append-here xs ys x = ground (arith, has-append x xs (x ∷ ys))

pub has-left : (a : ℕ) (xs ys : List ℕ) → has a xs ≡ true → has a (xs ++ ys) ≡ true
has-left a xs ys i = ground (arith, has-append a xs ys)

-- All items but the last.
abbrev pub init {ℓ} : {A : Type ℓ} → List A → List A
init [] = []
init (x ∷ []) = []
init (x ∷ y ∷ xs) = x ∷ init (y ∷ xs)

pub init-last {ℓ} : {A : Type ℓ} (x : A) (xs : List A) → x ∷ xs ≡ init (x ∷ xs) ++ last xs x ∷ []
init-last x [] = refl
init-last x (y ∷ xs) = ap (λ ys. x ∷ ys) (init-last y xs)

-- Where an item stands.
pub has-split :
    (a : ℕ) (xs : List ℕ) → has a xs ≡ true → (us : List ℕ) × (vs : List ℕ) × (xs ≡ us ++ a ∷ vs)
has-split a [] i = absurd (false≢true i)
has-split a (x ∷ xs) i = elim (ℕ_discrete a x) [
  | yes e ↦ ([], xs, ap (λ y. y ∷ xs) (sym e))
  | no ne ↦ let (us, vs, e) = has-split a xs (ground arith) in (x ∷ us, vs, ap (λ ys. x ∷ ys) e)
]

-- 1 for an item of the list, and 0 otherwise: the owners of a node that a list of nodes stands for.
abbrev pub share : ℕ → List ℕ → ℕ
share a xs = if has a xs then 1 else 0

pub share_of_mem : (a : ℕ) (xs : List ℕ) → has a xs ≡ true → share a xs ≡ 1
share_of_mem a xs i = rw i

pub share_of_not_mem : (a : ℕ) (xs : List ℕ) → has a xs ≡ false → share a xs ≡ 0
share_of_not_mem a xs o = rw o

-- The new item at the end, and the others.
pub share-snoc_self : (a : ℕ) (xs : List ℕ) → has a xs ≡ false → share a (xs ++ a ∷ []) ≡ 1
share-snoc_self a xs o = ground (arith, has-append a xs (a ∷ []))

pub has-snoc_ne : (a x : ℕ) (xs : List ℕ) → a ≢ x → has a (xs ++ x ∷ []) ≡ has a xs
has-snoc_ne a x xs ne = ground (arith, has-append a xs (x ∷ []))

pub has-snoc_self : (x : ℕ) (xs : List ℕ) → has x (xs ++ x ∷ []) ≡ true
has-snoc_self x xs = ground (arith, has-append x xs (x ∷ []))
