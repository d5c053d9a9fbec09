-- ===== src/Selector/Sift.antt =====
-- The filter of a list of tasks that `retain` of src/selector.rs comes to.
use async_selector.Base.{
  Option-cases, ◌≡◌, refl, ◌∙◌, ap, Bool-cases, inl, inr, true, false, Option, none, some, List, [],
  ◌∷◌, arith, has, update,
}
use async_selector.Memory.{Addr}
use async_selector.Selector.Iter.{Predicate}

-- What is left of a list of tasks, what is gone, and the predicate and the values behind it.
pub record Sifted (T P : Type 0) : Type 0 where
  pub kept : List Addr
  pub gone : List Addr
  pub pred : P
  pub values : Addr → Option T

-- A task that is kept, and one that is removed.
abbrev pub keeping : {T P : Type 0} → Addr → Sifted T P → Sifted T P
keeping x rest = record rest { kept = x ∷ rest.kept }

abbrev pub dropping : {T P : Type 0} → Addr → Sifted T P → Sifted T P
dropping x rest = record rest { gone = x ∷ rest.gone }

module _ {T P : Type 0} (test : Predicate T P) where
  -- The filter: the tasks are asked in their order; each may change, and the predicate with it.
  abbrev pub sift : P → (Addr → Option T) → List Addr → Sifted T P
  sift p values [] = record { kept = []; gone = []; pred = p; values = values }
  sift p values (x ∷ xs) = elim (values x) [
    | none ↦ sift p values xs
    | some task ↦ elim (test x task p).0 [
      | true ↦ keeping x (sift (test x task p).1.1 (update values x (some (test x task p).1.0)) xs)
      | false ↦ dropping x (sift (test x task p).1.1 (update values x none) xs)
    ]
  ]

  module _ (p : P) (values : Addr → Option T) (x : Addr) (xs : List Addr) (task : T) where
    pub sift-keep :
        values x ≡ some task
        → (test x task p).0 ≡ true
        → sift p values (x ∷ xs)
          ≡ keeping x (sift (test x task p).1.1 (update values x (some (test x task p).1.0)) xs)
    sift-keep e k = simp (e, k, sift)

    pub sift-drop :
        values x ≡ some task
        → (test x task p).0 ≡ false
        → sift p values (x ∷ xs) ≡ dropping x (sift (test x task p).1.1 (update values x none) xs)
    sift-drop e k = simp (e, k, sift)

  -- What is gone was there.
  pub gone-out :
      (p : P) (values : Addr → Option T) (xs : List Addr) (a : Addr)
      → has a xs ≡ false
      → has a (sift p values xs).gone ≡ false
  gone-out p values [] a o = refl
  gone-out p values (x ∷ xs) a o =
      let tail : has a xs ≡ false = ground arith in
      elim (Option-cases (values x)) [
        | inl e ↦
            let same : sift p values (x ∷ xs) ≡ sift p values xs = simp (e, sift) in
            ap (λ r. has a r.gone) same ∙ gone-out p values xs a tail
        | inr (task, e) ↦
            let q = (test x task p).1.1 in
            elim (Bool-cases (test x task p).0) [
              | inl k ↦
                  ap (λ r. has a r.gone) (sift-keep p values x xs task e k)
                  ∙ gone-out q (update values x (some (test x task p).1.0)) xs a tail
              | inr k ↦
                  let rest = gone-out q (update values x none) xs a tail in
                  ap (λ r. has a r.gone) (sift-drop p values x xs task e k) ∙ ground arith
            ]
      ]
