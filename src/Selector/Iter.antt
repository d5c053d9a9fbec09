-- ===== src/Selector/Iter.antt =====
-- src/selector/iter.rs: the iterators over a selector, on the cursors of src/list.rs, and `iter`,
-- `extract_if` and `retain` of src/selector.rs. `Iter` and `IterMut` are a cursor.
use async_selector.Base.{ℕ, zero, suc, Bool, not, Option, none, some, if◌then◌else◌}
use async_selector.Memory.{Addr, Mem, Cmd, pure, fault, ◌>>=◌, ◌>>◌}
use async_selector.NodeList.{NodeList, get_pin, set_pin, drop_removed}
use async_selector.NodeList.Cursor.{
  Cursor, remaining, cursor, pop_front, pop_back, peek_front, peek_back, remove_front, remove_back,
}
use async_selector.Selector.{Selector}

-- The predicate of `extract_if`, which may change the task, and itself (`P`).
abbrev pub Predicate : (T P : Type 0) → Type 0
Predicate T P = Addr → T → P → Bool × (T × P)

-- `ExtractIf<T, F>`
pub record ExtractIf (P : Type 0) : Type 0 where
  pub cursor : Cursor
  pub pred : P

module _ {T C : Type 0} where
  -- `IntoIter::next`
  unfoldable pub into_iter_next : NodeList → Cmd (Mem T C) (Option Addr × NodeList)
  into_iter_next l = do c ← cursor l; (removed, c) ← remove_front c; pure (removed, c.list)

  -- `IntoIter::next_back`
  unfoldable pub into_iter_next_back : NodeList → Cmd (Mem T C) (Option Addr × NodeList)
  into_iter_next_back l = do c ← cursor l; (removed, c) ← remove_back c; pure (removed, c.list)

  -- `Selector::iter` and `Selector::iter_mut`
  unfoldable pub iter : {S : Type 0} → Selector S → Cmd (Mem T C) Cursor
  iter s = cursor s.list

  -- `Iter::next` and `IterMut::next`
  unfoldable pub iter_next : Cursor → Cmd (Mem T C) (Option Addr × Cursor)
  iter_next c = pop_front c

  -- `Iter::next_back` and `IterMut::next_back`
  unfoldable pub iter_next_back : Cursor → Cmd (Mem T C) (Option Addr × Cursor)
  iter_next_back c = pop_back c

  module _ {P : Type 0} (test : Predicate T P) where
    -- A call of the predicate on the task at `id`.
    unfoldable pub ask : P → Addr → Cmd (Mem T C) (Bool × P)
    ask p id = do
      task ← get_pin id
      set_pin id ((test id task p).1.0)
      pure ((test id task p).0, (test id task p).1.1)

    -- `ExtractIf::next`, on fuel.
    unfoldable pub extract_next : ℕ → ExtractIf P → Cmd (Mem T C) (Option Addr × ExtractIf P)
    extract_next zero e = fault
    extract_next (suc fuel) e = elim (peek_front e.cursor) [
      | none ↦ pure (none, e)
      | some id ↦ do
        (found, p) ← ask e.pred id
        if found
            then (do
              (removed, c) ← remove_front e.cursor
              pure (removed, record { cursor = c; pred = p }))
            else (do
              (_, c) ← pop_front e.cursor
              extract_next fuel (record { cursor = c; pred = p }))
    ]

    -- `ExtractIf::next_back`, on fuel.
    unfoldable pub extract_next_back : ℕ → ExtractIf P → Cmd (Mem T C) (Option Addr × ExtractIf P)
    extract_next_back zero e = fault
    extract_next_back (suc fuel) e = elim (peek_back e.cursor) [
      | none ↦ pure (none, e)
      | some id ↦ do
        (found, p) ← ask e.pred id
        if found
            then (do
              (removed, c) ← remove_back e.cursor
              pure (removed, record { cursor = c; pred = p }))
            else (do
              (_, c) ← pop_back e.cursor
              extract_next_back fuel (record { cursor = c; pred = p }))
    ]

    -- The loop of `Selector::retain` over `extract_if`: what it yields is dropped. Each turn removes a
    -- task, and has fuel for the places that are left.
    unfoldable pub retain_loop : ℕ → ExtractIf P → Cmd (Mem T C) (ExtractIf P)
    retain_loop zero e = fault
    retain_loop (suc fuel) e = do
      (removed, e) ← extract_next (suc (remaining e.cursor)) e
      elim removed [ none ↦ pure e | some id ↦ do drop_removed id; retain_loop fuel e ]

-- `Selector::extract_if`
unfoldable pub extract_if :
    {T C S P : Type 0} → Selector S → (pred : P) → Cmd (Mem T C) (ExtractIf P)
extract_if s pred = do c ← cursor s.list; pure (record { cursor = c; pred = pred })

-- `Selector::retain`: `extract_if` gets the negated predicate.
unfoldable pub retain :
    {T C S P : Type 0} → Predicate T P → P → Selector S → Cmd (Mem T C) (P × Selector S)
retain test pred s = do
  e ← extract_if s pred
  e ← retain_loop (λ id task p. (not (test id task p).0, (test id task p).1)) (suc s.list.len) e
  pure (e.pred, record s { list = e.cursor.list })
