-- ===== src/NodeList/Ring/Relink.antt =====
-- Changes of a ring at the places that `push_back` and `remove_unchecked` write.
use async_selector.Base.{
  ◌≡◌, ◌≢◌, ◌∙◌, true, List, [], ◌∷◌, ◌++◌, arith, first, last, has, has-last, Distinct,
  Distinct-append, sym,
}
use async_selector.Memory.{Addr}
use async_selector.Base.{has-append, ne_of_has, false, Apart-ne, has_here}
use async_selector.NodeList.Ring.Links.{
  Links, Ring, Links-congr, Links-append, Links-left, Links-right,
}

-- A new target for the last link, the others as they were.
Links-relink :
    (f g : Addr → Addr) (xs : List Addr) (q n d : Addr)
    → Distinct xs
    → Links f xs q
    → g (last xs d) ≡ n
    → ((a : Addr) → has a xs ≡ true → a ≢ last xs d → g a ≡ f a)
    → Links g xs n
Links-relink f g [] q n d distinct h new same = tt
Links-relink f g (x ∷ []) q n d distinct h new same = (new, tt)
Links-relink f g (x ∷ y ∷ xs) q n d distinct h new same = (
  same x (ground arith) (λ e. ground (arith, has-last y xs)) ∙ h.0,
  Links-relink f g (y ∷ xs) q n x distinct.1 h.1 new (λ a i. same a (ground arith)),
)

-- The item in front of `x` in the ring over `us ++ x ∷ vs`.
abbrev pub before : (us vs : List Addr) → Addr → Addr
before us vs x = last us (last vs x)

-- Past `x`: the item in front of it takes over its link.
pub Ring-unlink :
    (f g : Addr → Addr) (us vs : List Addr) (x : Addr)
    → Distinct (us ++ x ∷ vs)
    → Ring f (us ++ x ∷ vs)
    → (before us vs x ≢ x → g (before us vs x) ≡ f x)
    → ((a : Addr) → a ≢ x → a ≢ before us vs x → g a ≡ f a)
    → Ring g (us ++ vs)
Ring-unlink f g [] [] x distinct h new same = tt
Ring-unlink f g [] (v ∷ vs) x distinct h new same =
    Links-relink f g (v ∷ vs) x v x distinct.1 h.1
      (new (ne_of_has (v ∷ vs) (has-last v vs) distinct.0) ∙ h.0)
      (λ a i. same a (ne_of_has (v ∷ vs) i distinct.0))
Ring-unlink f g (u ∷ us) vs x distinct h new same =
    let parts = Distinct-append (u ∷ us) (x ∷ vs) distinct in
    let back = has-last u us in
    let here = has_here x vs in
    Links-append g (u ∷ us) vs u
      (Links-relink f g (u ∷ us) x (first vs u) u parts.left (Links-left f (u ∷ us) (x ∷ vs) u h)
        (new (Apart-ne parts back here) ∙ (Links-right f (u ∷ us) (x ∷ vs) u h).0)
        (λ a i. same a (Apart-ne parts i here)))
      (Links-congr f g vs u
        (λ a i.
          same a (ne_of_has vs i parts.right.0) (λ e. Apart-ne parts back (ground arith) (sym e)))
        (Links-right f (u ∷ us) (x ∷ vs) u h).1)

-- A new item at the end: the old last one leads to it, and it leads to the first.
pub Ring-snoc :
    (f g : Addr → Addr) (xs : List Addr) (x : Addr)
    → Distinct xs
    → has x xs ≡ false
    → Ring f xs
    → g x ≡ first xs x
    → g (last xs x) ≡ x
    → ((a : Addr) → a ≢ x → a ≢ last xs x → g a ≡ f a)
    → Ring g (xs ++ x ∷ [])
Ring-snoc f g [] x distinct out h new back same = (new, tt)
Ring-snoc f g (y ∷ ys) x distinct out h new back same =
    Links-append g (y ∷ ys) (x ∷ []) y
      (Links-relink f g (y ∷ ys) y x x distinct h back (λ a i. same a (ne_of_has (y ∷ ys) i out)))
      (new, tt)

-- A new item at the front of the ring, which the last one leads to.
pub Ring-cons :
    (f g : Addr → Addr) (xs : List Addr) (x : Addr)
    → Distinct xs
    → has x xs ≡ false
    → Ring f xs
    → g x ≡ first xs x
    → g (last xs x) ≡ x
    → ((a : Addr) → a ≢ x → a ≢ last xs x → g a ≡ f a)
    → Ring g (x ∷ xs)
Ring-cons f g [] x distinct out h new back same = (new, tt)
Ring-cons f g (y ∷ ys) x distinct out h new back same = (
  new,
  Links-relink f g (y ∷ ys) y x x distinct h back (λ a i. same a (ne_of_has (y ∷ ys) i out)),
)

-- The item that the link of `x` leads to.
pub Ring-link :
    (f : Addr → Addr) (us vs : List Addr) (x : Addr)
    → Ring f (us ++ x ∷ vs)
    → f x ≡ first vs (first us x)
Ring-link f [] vs x h = h.0
Ring-link f (u ∷ us) vs x h = (Links-right f (u ∷ us) (x ∷ vs) u h).0

-- The neighbours of an item are items.
pub before-mem : (us vs : List Addr) (x : Addr) → has (before us vs x) (us ++ x ∷ vs) ≡ true
before-mem [] vs x = has-last x vs
before-mem (u ∷ us) vs x = ground (arith, has-append (last us u) (u ∷ us) (x ∷ vs), has-last u us)

pub after-mem : (us vs : List Addr) (x : Addr) → has (first vs (first us x)) (us ++ x ∷ vs) ≡ true
after-mem us (v ∷ vs) x = ground (arith, has-append v us (x ∷ v ∷ vs))
after-mem [] [] x = ground arith
after-mem (u ∷ us) [] x = ground arith
