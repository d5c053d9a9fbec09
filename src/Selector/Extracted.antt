-- ===== src/Selector/Extracted.antt =====
-- One step of the loops of `retain` (src/selector.rs) over `ExtractIf` (src/selector/iter.rs).
use async_selector.Base.{
  ℕ, suc, ◌-◌, ◌≡◌, refl, sym, ◌∙◌, ap, subst, true, false, not, Option, none, some, List, [], ◌∷◌,
  ◌++◌, append_assoc, has, update,
}
use async_selector.Memory.{Addr, Mem, Live, Cmd, pure, ◌>>=◌, ◌>>◌}
use async_selector.Memory.Release.{released, released-cons}
use async_selector.NodeList.{get_pin, set_pin, drop_removed}
use async_selector.NodeList.Invariant.{IsList-transfer}
use async_selector.NodeList.Drop.{discarded, discarded-IsList}
use async_selector.NodeList.Cursor.{Cursor, is_done, peek_front, pop_front, remove_front}
use async_selector.NodeList.Cursor.Place.{IsCursor}
use async_selector.Selector.Sift.{Sifted, sift, sift-keep, sift-drop, gone-out}
use async_selector.Selector.Iter.{Predicate, ExtractIf, ask, extract_next, retain_loop}

peek-none : (c : Cursor) → is_done c ≡ true → peek_front c ≡ none
unfolding peek_front
peek-none c done = simp done

peek-some : (c : Cursor) (y : Addr) → is_done c ≡ false → c.front ≡ y → peek_front c ≡ some y
unfolding peek_front
peek-some c y done front = simp (done, front)

-- What `extract_if` gets.
abbrev pub refuses : {T P : Type 0} → Predicate T P → Predicate T P
refuses test id task p = (not (test id task p).0, (test id task p).1)

pub valued-IsCursor :
    {T C : Type 0} (m : Mem T C) (values : Addr → Option T) (c : Cursor) (us ys vs : List Addr)
    → ((a : Addr) → has a (us ++ (ys ++ vs)) ≡ true → (v : T) × (values a ≡ some v))
    → IsCursor m c us ys vs
    → IsCursor (record m { value = values }) c us ys vs
valued-IsCursor m values c us ys vs valued at = record {
  list =
      IsList-transfer m (record m { value = values }) c.list (us ++ (ys ++ vs)) (λ a i. refl)
        (λ a i. refl) (λ a i h. h) valued at.list;
  popped = at.popped;
  front = at.front;
  back = at.back;
}

-- A node that is not in the list is dropped.
pub discarded-IsCursor :
    {T C : Type 0} (m : Mem T C) (c : Cursor) (us ys : List Addr) (y : Addr)
    → has y (us ++ (ys ++ [])) ≡ false
    → IsCursor m c us ys []
    → IsCursor (discarded m y) c us ys []
discarded-IsCursor m c us ys y out at = record {
  list = discarded-IsList m c.list (us ++ (ys ++ [])) y out at.list;
  popped = at.popped;
  front = at.front;
  back = at.back;
}

module _ {T C P : Type 0} (test : Predicate T P) where
  -- The rest of the loop of `retain`, when `extract_if` is about to look for the next task.
  abbrev pub turn : (places rounds : ℕ) → ExtractIf P → Cmd (Mem T C) (ExtractIf P)
  turn places rounds e = do
    (removed, e) ← extract_next (refuses test) places e
    elim removed [
      | none ↦ pure e
      | some id ↦ do drop_removed id; retain_loop (refuses test) rounds e
    ]

  abbrev pub Sieves : Mem T C → List Addr → Option (ExtractIf P × Mem T C) → Sifted T P → Type 0
  Sieves m us run r =
      (e' : ExtractIf P) × (m' : Mem T C) × (run ≡ some (e', m'))
      × IsCursor m' e'.cursor (us ++ r.kept) [] []
      × (e'.pred ≡ r.pred)
      × (m'.value ≡ r.values)
      × ((a : Addr) → m'.strong a ≡ released m.strong r.gone a)

  pub kept-Sieves :
      (m : Mem T C) (us ys : List Addr) (y : Addr) (p : P) (task : T)
      (run run' : Option (ExtractIf P × Mem T C))
      → m.value y ≡ some task
      → (test y task p).0 ≡ true
      → run ≡ run'
      → Sieves
          (record m { value = update m.value y (some (test y task p).1.0) })
          (us ++ y ∷ [])
          run'
          (sift test (test y task p).1.1 (update m.value y (some (test y task p).1.0)) ys)
      → Sieves m us run (sift test p m.value (y ∷ ys))
  kept-Sieves m us ys y p task run run' filled keeps same (e', m', rest, at, pred, values, counts) =
      subst (Sieves m us run) (sym (sift-keep test p m.value y ys task filled keeps)) (
        e',
        m',
        same ∙ rest,
        subst (λ xs. IsCursor m' e'.cursor xs [] []) (append_assoc us (y ∷ []) _) at,
        pred,
        values,
        counts,
      )

  pub dropped-Sieves :
      (m m₃ : Mem T C) (us ys : List Addr) (y : Addr) (p : P) (task : T)
      (run run' : Option (ExtractIf P × Mem T C))
      → m.value y ≡ some task
      → (test y task p).0 ≡ false
      → run ≡ run'
      → has y ys ≡ false
      → m₃.strong ≡ update m.strong y (m.strong y - 1)
      → Sieves m₃ us run' (sift test (test y task p).1.1 (update m.value y none) ys)
      → Sieves m us run (sift test p m.value (y ∷ ys))
  dropped-Sieves m m₃ us ys y p task run run' filled keeps same out strong
        (e', m', rest, at, pred, values, counts) =
      subst (Sieves m us run) (sym (sift-drop test p m.value y ys task filled keeps)) (
        e',
        m',
        same ∙ rest,
        at,
        pred,
        values,
        λ a.
            counts a
            ∙ ap (λ f. released f (sift test (test y task p).1.1 (update m.value y none) ys).gone a)
                strong
            ∙ released-cons m.strong y a _ (gone-out test _ (update m.value y none) ys y out),
      )

  module _ (m : Mem T C) (c : Cursor) (p : P) (places : ℕ) where
    pub looked-none :
        is_done c ≡ true
        → extract_next (refuses test) (suc places) (record { cursor = c; pred = p }) m
          ≡ some ((none, record { cursor = c; pred = p }), m)
    unfolding extract_next
    looked-none done = rw (peek-none c done, extract_next) refl

    module _ (y : Addr) (task : T) (c' : Cursor) (done : is_done c ≡ false) (front : c.front ≡ y)
        (live : Live m.strong y) (filled : m.value y ≡ some task) where
      abbrev asked : Mem T C
      asked = record m { value = update m.value y (some (test y task p).1.0) }

      pub looked-kept :
          (test y task p).0 ≡ true
          → pop_front c asked ≡ some ((some y, c'), asked)
          → extract_next (refuses test) (suc places) (record { cursor = c; pred = p }) m
            ≡ extract_next
                (refuses test)
                places
                (record { cursor = c'; pred = (test y task p).1.1 })
                asked
      unfolding extract_next ask get_pin set_pin
      looked-kept keeps run =
          rw (peek-some c y done front, extract_next) (simp (live, filled, keeps, run))

      pub looked-dropped :
          (m₂ : Mem T C)
          → (test y task p).0 ≡ false
          → remove_front c asked ≡ some ((some y, c'), m₂)
          → extract_next (refuses test) (suc places) (record { cursor = c; pred = p }) m
            ≡ some ((some y, record { cursor = c'; pred = (test y task p).1.1 }), m₂)
      unfolding extract_next ask get_pin set_pin
      looked-dropped m₂ drops run =
          rw (peek-some c y done front, extract_next) (simp (live, filled, drops, run))
