-- ===== src/Base/Tests.antt =====
-- Boolean tests on the native numbers, the conditional, and updates of a function at one place.
use Prim.Native.Nat.{ℕ, compare, Ordering}
use mathlib.Core.Path.{fun_ext, ◌≡◌, refl, sym, ◌∙◌, ap}
use mathlib.Core.Logic.{◌≢◌, ◌⊎◌, inl, inr}
use mathlib.Core.Bool.{Bool, true, false}
use mathlib.Core.Option.{Option, none, some}
use native.Mathlib.Omega.{arith}
use native.Mathlib.Decide.{ℕ_discrete}

infix 50 ◌==◌
abbrev pub ◌==◌ : ℕ → ℕ → Bool
a == b = elim (compare a b) [ Ordering.eq ↦ true | _ ↦ false ]

infix 1 if◌then◌else◌
abbrev pub if◌then◌else◌ {ℓ} : {A : Type ℓ} → Bool → A → A → A
if true then x else y = x
if false then x else y = y

pub eq→== : {a b : ℕ} → a ≡ b → (a == b) ≡ true
eq→== h = ground arith

pub ne→== : {a b : ℕ} → a ≢ b → (a == b) ≡ false
ne→== h = ground arith

-- To split on a computed value and keep the equation.
pub Bool-cases : (b : Bool) → (b ≡ true) ⊎ (b ≡ false)
Bool-cases true = inl refl
Bool-cases false = inr refl

pub Option-cases {ℓ} : {A : Type ℓ} (o : Option A) → (o ≡ none) ⊎ ((a : A) × (o ≡ some a))
Option-cases none = inl refl
Option-cases (some a) = inr (a, refl)

-- `f` with the value at `a` replaced.
abbrev pub update {ℓ} : {A : Type ℓ} → (ℕ → A) → ℕ → A → ℕ → A
update f a v b = if b == a then v else f b

pub update_ne {ℓ} : {A : Type ℓ} (f : ℕ → A) {a b : ℕ} (v : A) → b ≢ a → update f a v b ≡ f b
update_ne f v h = ground arith

pub update_self {ℓ} : {A : Type ℓ} (f : ℕ → A) (a : ℕ) (v : A) → update f a v a ≡ v
update_self f a v = ground arith

-- Two updates, at `a` and then at `b`.
module _ {ℓ} {A : Type ℓ} (f : ℕ → A) {a b : ℕ} (v w : A) where
  pub update-update_under : a ≢ b → update (update f a v) b w a ≡ v
  update-update_under h = ground arith

  pub update-update_else : (c : ℕ) → c ≢ b → c ≢ a → update (update f a v) b w c ≡ f c
  update-update_else c h k = ground arith

-- Two updates at one place, and one with the value that is there.
pub update_again {ℓ} :
    {A : Type ℓ} (f : ℕ → A) (a : ℕ) (v w : A) → update (update f a v) a w ≡ update f a w
update_again f a v w =
    fun_ext λ b. elim (ℕ_discrete b a) [ yes e ↦ simp (eq→== e) | no ne ↦ simp (ne→== ne) ]

pub update_there {ℓ} : {A : Type ℓ} (f : ℕ → A) (a : ℕ) (v : A) → f a ≡ v → update f a v ≡ f
update_there f a v there = fun_ext λ b. elim (ℕ_discrete b a) [
  | yes e ↦ rw (eq→== e) (sym there ∙ ap f (sym e))
  | no ne ↦ simp (ne→== ne)
]
