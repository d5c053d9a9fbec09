-- ===== src/Tests.antt =====
-- A small selector, and the theorems applied to it: the tasks at 2 and 3, where 2 is in the queue,
-- and the node at 4, which was removed but not dropped.
pub mod Sample
mod NodeListTests
mod QueueTests
mod SelectorTests
mod PollTests
mod StrategyTests
mod DropTests
mod ExtendTests
mod RetainTests
mod SystemTests
