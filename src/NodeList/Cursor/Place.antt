-- ===== src/NodeList/Cursor/Place.antt =====
-- Where a cursor stands: `us` was passed from the front, `vs` from the back, and `ys` is between.
use async_selector.Base.{◌+◌, ◌≡◌, List, ◌++◌, first, last, length}
use async_selector.Memory.{Addr, Mem}
use async_selector.NodeList.Invariant.{IsList}
use async_selector.NodeList.Cursor.{Cursor}

pub record IsCursor {T C : Type 0} (m : Mem T C) (c : Cursor) (us ys vs : List Addr) : Type 0 where
  pub list : IsList m c.list (us ++ (ys ++ vs))
  pub popped : c.popped ≡ length us + length vs
  pub front : c.front ≡ first ys c.front
  pub back : c.back ≡ last ys c.back
