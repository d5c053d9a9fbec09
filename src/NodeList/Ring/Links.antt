-- ===== src/NodeList/Ring/Links.antt =====
-- Rings of links: a function on addresses leads from each item of a list to the next, and from the
-- last to the first. Both directions of the doubly linked list are rings, of `next` over the list
-- and of `prev` over its reverse.
use async_selector.Base.{◌≡◌, true, List, [], ◌∷◌, ◌++◌, arith, first, has}
use async_selector.Memory.{Addr, null}

-- `f` leads through `xs` and on to `q`.
abbrev pub Links : (Addr → Addr) → List Addr → Addr → Type 0
Links f [] q = Unit
Links f (x ∷ xs) q = (f x ≡ first xs q) × Links f xs q

abbrev pub Ring : (Addr → Addr) → List Addr → Type 0
Ring f xs = Links f xs (first xs null)

pub Links-congr :
    (f g : Addr → Addr) (xs : List Addr) (q : Addr)
    → ((a : Addr) → has a xs ≡ true → g a ≡ f a)
    → Links f xs q
    → Links g xs q
Links-congr f g [] q same h = tt
Links-congr f g (x ∷ xs) q same h =
    (ground (arith, same x), Links-congr f g xs q (λ a i. same a (ground arith)) h.1)

pub Links-append :
    (f : Addr → Addr) (xs ys : List Addr) (q : Addr)
    → Links f xs (first ys q)
    → Links f ys q
    → Links f (xs ++ ys) q
Links-append f [] ys q h k = k
Links-append f (x ∷ []) ys q h k = (h.0, k)
Links-append f (x ∷ y ∷ xs) ys q h k = (h.0, Links-append f (y ∷ xs) ys q h.1 k)

pub Links-left :
    (f : Addr → Addr) (xs ys : List Addr) (q : Addr)
    → Links f (xs ++ ys) q
    → Links f xs (first ys q)
Links-left f [] ys q h = tt
Links-left f (x ∷ []) ys q h = (h.0, tt)
Links-left f (x ∷ y ∷ xs) ys q h = (h.0, Links-left f (y ∷ xs) ys q h.1)

pub Links-right :
    (f : Addr → Addr) (xs ys : List Addr) (q : Addr) → Links f (xs ++ ys) q → Links f ys q
Links-right f [] ys q h = h
Links-right f (x ∷ xs) ys q h = Links-right f xs ys q h.1
