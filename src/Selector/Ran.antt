-- ===== src/Selector/Ran.antt =====
-- What a run of events leaves alone (src/selector/waker.rs).
use async_selector.Base.{ℕ, ◌≡◌, refl, ◌∙◌, true, List, has, inl, inr}
use async_selector.Memory.{Addr, Mem}
use async_selector.Queue.{AtomicWaker}
use async_selector.Queue.Wake.{Wakes, Wakes-Rings}
use async_selector.Queue.Flag.{woken_order}
use async_selector.Queue.Enqueue.{Alert, Rings}

-- What events leave alone: the tasks, and that a stored waker is there or was woken.
pub record Ran {T C : Type 0} ⦃aw : AtomicWaker C⦄ (m m' : Mem T C) (queue : Addr)
    (order order' : List Addr) : Type 0 where
  pub owner : m'.queue ≡ m.queue
  pub value : m'.value ≡ m.value
  pub next : m'.next ≡ m.next
  pub alert : (w : ℕ) → Alert m queue w → Alert m' queue w
  pub louder : (w : ℕ) → has w m.woken ≡ true → has w m'.woken ≡ true
  pub rings : (w : ℕ) → Alert m queue w → Rings m' w (λ o. o ≡ order) order'

-- A change of the reference counts only.
pub counted-Ran :
    {T C : Type 0} ⦃aw : AtomicWaker C⦄ (m : Mem T C) (strong : Addr → ℕ) {queue : Addr}
    (order : List Addr)
    → Ran m (record m { strong = strong }) queue order order
counted-Ran m strong order = record {
  owner = refl;
  value = refl;
  next = refl;
  alert = λ w h. h;
  louder = λ w h. h;
  rings = λ w h. inl refl;
}

pub woken-Ran :
    {T C : Type 0} ⦃aw : AtomicWaker C⦄ {m m' : Mem T C} {queue node : Addr} {strong : Addr → ℕ}
    (order : List Addr)
    → Wakes m m' queue node strong
    → Ran m m' queue order (woken_order m order node)
woken-Ran order done = record {
  owner = done.owner;
  value = done.value;
  next = done.next;
  alert = done.alert;
  louder = done.louder;
  rings = λ w h. Wakes-Rings order w done h;
}

-- The same for two runs, one behind the other.
pub Ran-then :
    {T C : Type 0} ⦃aw : AtomicWaker C⦄ {m m₁ m₂ : Mem T C} {queue : Addr}
    {order order₁ order₂ : List Addr}
    → Ran m m₁ queue order order₁
    → Ran m₁ m₂ queue order₁ order₂
    → Ran m m₂ queue order order₂
Ran-then {m} {m₁} {m₂} {queue} {order} {order₁} {order₂} ran ran' = record {
  owner = ran'.owner ∙ ran.owner;
  value = ran'.value ∙ ran.value;
  next = ran'.next ∙ ran.next;
  alert = λ w h. ran'.alert w (ran.alert w h);
  louder = λ w h. ran'.louder w (ran.louder w h);
  rings = λ w h. joined w (ran.rings w h) (ran'.rings w (ran.alert w h));
}
  where
    joined :
        (w : ℕ)
        → Rings m₁ w (λ o. o ≡ order) order₁
        → Rings m₂ w (λ o. o ≡ order₁) order₂
        → Rings m₂ w (λ o. o ≡ order) order₂
    joined w (inl same) (inl same') = inl (same' ∙ same)
    joined w (inr woken) (inl same') = inr (ran'.louder w woken)
    joined w rings (inr woken) = inr woken
