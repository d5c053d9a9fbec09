-- ===== src/Queue/Chain.antt =====
-- Chains of `next_enqueued` under the writes of the queue.
use async_selector.Base.{
  has_here, ap, sym, update_ne, ne_of_has, has-append-here, ◌≡◌, ◌≢◌, ◌∙◌, Bool, true, false, List,
  [], ◌∷◌, ◌++◌, arith, if◌then◌else◌, last, has, has-last, Distinct, update,
}
use async_selector.Memory.{Addr, null}
use async_selector.Queue.Order.{Chain}

pub Chain-congr :
    (f g : Addr → Addr) (gap hole : Addr → Bool) (xs : List Addr)
    → ((a : Addr) → has a xs ≡ true → (g a ≡ f a) × (hole a ≡ gap a))
    → Chain f gap xs
    → Chain g hole xs
Chain-congr f g gap hole [] same h = tt
Chain-congr f g gap hole (x ∷ xs) same h =
    (ground (arith, same x), Chain-congr f g gap hole xs (λ a i. same a (ground arith)) h.1)

-- A node behind the last one, not yet linked.
pub Chain-snoc :
    (f : Addr → Addr) (gap : Addr → Bool) (xs : List Addr) (n q : Addr)
    → Distinct xs
    → has n xs ≡ false
    → Chain f gap xs
    → Chain (update f n null) (update gap (last xs q) true) (xs ++ n ∷ [])
Chain-snoc f gap [] n q distinct out h = (ground arith, tt)
Chain-snoc f gap (x ∷ []) n q distinct out h = (ground arith, (ground arith, tt))
Chain-snoc f gap (x ∷ y ∷ xs) n q distinct out h = (
  update_ne f null (ne_of_has (x ∷ y ∷ xs) (has_here x (y ∷ xs)) out)
      ∙ h.0
      ∙ ap (λ g. if g then null else y)
          (sym (update_ne gap true (λ e. ne_of_has (y ∷ xs) (has-last y xs) distinct.0 (sym e)))),
  Chain-snoc f gap (y ∷ xs) n x distinct.1 (ground arith) h.1,
)

linked_self :
    (f : Addr → Addr) (gap : Addr → Bool) (a b : Addr)
    → update f a b a ≡ (if update gap a false a then null else b)
linked_self f gap a b = ground arith

linked_ne :
    (f : Addr → Addr) (gap : Addr → Bool) (a b c : Addr)
    → c ≢ a
    → (update f a b c ≡ f c) × (update gap a false c ≡ gap c)
linked_ne f gap a b c h = (update_ne f b h, update_ne gap false h)

-- The missing link is stored.
pub Chain-link :
    (f : Addr → Addr) (gap : Addr → Bool) (us vs : List Addr) (a b : Addr)
    → Distinct (us ++ a ∷ b ∷ vs)
    → Chain f gap (us ++ a ∷ b ∷ vs)
    → Chain (update f a b) (update gap a false) (us ++ a ∷ b ∷ vs)
Chain-link f gap [] vs a b distinct h = (
  linked_self f gap a b,
  Chain-congr f (update f a b) gap (update gap a false) (b ∷ vs)
      (λ c i. linked_ne f gap a b c (ne_of_has (b ∷ vs) i distinct.0)) h.1,
)
Chain-link f gap (u ∷ us) vs a b distinct h =
    (ground (arith, has-append-here us (b ∷ vs) a), Chain-link f gap us vs a b distinct.1 h.1)
