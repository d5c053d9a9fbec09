-- ===== src/NodeList/Cursor.antt =====
-- The double-ended cursors of src/list.rs. `Cursor<T, &List<T>>` and `Cursor<T, &mut List<T>>` have
-- the same `len`, `is_empty`, `pop_front` and `pop_back`; the others belong to the second.
pub mod Place
pub mod Laws
use async_selector.Base.{ℕ, ◌+◌, ◌-◌, Bool, true, false, Option, none, some, ◌==◌, if◌then◌else◌}
use async_selector.Memory.{Addr, null, Mem, Cmd, pure, ◌>>=◌}
use async_selector.NodeList.{NodeList, load_next, load_prev, remove_unchecked}

-- `Cursor<T, L>` with its `CursorState<T>`, and the list that it borrows.
pub record Cursor : Type 0 where
  pub front : Addr
  pub back : Addr
  pub popped : ℕ
  pub list : NodeList

-- `Cursor::len`
abbrev pub remaining : Cursor → ℕ
remaining c = c.list.len - c.popped

-- `Cursor::is_empty`
abbrev pub is_done : Cursor → Bool
is_done c = c.list.len == c.popped

-- `Cursor::peek_front`
unfoldable pub peek_front : Cursor → Option Addr
peek_front c = if is_done c then none else some c.front

-- `Cursor::peek_back`
unfoldable pub peek_back : Cursor → Option Addr
peek_back c = if is_done c then none else some c.back

module _ {T C : Type 0} where
  -- `List::cursor` and `List::cursor_mut`
  unfoldable pub cursor : NodeList → Cmd (Mem T C) Cursor
  cursor l = do
    back ← if l.front == null then pure null else load_prev l.front
    pure (record { front = l.front; back = back; popped = 0; list = l })

  -- `Cursor::pop_front`
  unfoldable pub pop_front : Cursor → Cmd (Mem T C) (Option Addr × Cursor)
  pop_front c = if is_done c then pure (none, c) else do
    next ← load_next c.front
    pure (some c.front, record c { popped = c.popped + 1; front = next })

  -- `Cursor::pop_back`
  unfoldable pub pop_back : Cursor → Cmd (Mem T C) (Option Addr × Cursor)
  pop_back c = if is_done c then pure (none, c) else do
    prev ← load_prev c.back
    pure (some c.back, record c { popped = c.popped + 1; back = prev })

  -- `Cursor::remove_front`
  unfoldable pub remove_front : Cursor → Cmd (Mem T C) (Option Addr × Cursor)
  remove_front c = if is_done c then pure (none, c) else do
    next ← load_next c.front
    (node, l) ← remove_unchecked c.list c.front
    pure (some node, record c { front = next; list = l })

  -- `Cursor::remove_back`
  unfoldable pub remove_back : Cursor → Cmd (Mem T C) (Option Addr × Cursor)
  remove_back c = if is_done c then pure (none, c) else do
    prev ← load_prev c.back
    (node, l) ← remove_unchecked c.list c.back
    pure (some node, record c { back = prev; list = l })
