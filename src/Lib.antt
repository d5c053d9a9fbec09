-- ===== src/Lib.antt =====
-- async_selector: a selector polls a dynamic set of tasks, in the order in which they were woken.
--
-- The program. A `Selector` (src/selector.rs) keeps its tasks in an intrusive doubly linked list
-- (src/list.rs) and the nodes of the tasks that were woken in an intrusive queue with many producers
-- and one receiver (src/queue.rs). List and queue share the nodes: a node is one allocation with the
-- links of both. `poll_next` takes nodes out of the queue, polls their tasks with a waker that puts
-- the node back into the queue, and hands the results to a strategy (src/task.rs).
--
-- The model.
--   Memory     the nodes as a memory with a function of the address for each field, reference counts
--              among them. Commands on it are functions into an option: `none` is a read or write of
--              a node that is not allocated, a failed assertion or an underflow, so that a theorem
--              with a `some` also says that the code is free of them.
--   Queue      src/queue.rs. `publish` and `link` are the halves of `Queue::enqueue_inner`, before
--              and after the link to the node is stored. Queue/Order has the well-formedness, which
--              allows gaps: nodes whose producer is between the two halves. Queue/System has producers
--              and the receiver as threads, whose steps interleave, and the handles that they
--              have: nodes are created, and freed with their last handle.
--   NodeList   src/list.rs. NodeList/Invariant has the well-formedness: two rings of links.
--              NodeList/Cursor has the cursors, NodeList/Cursor/Place what they mean.
--   Task       src/task.rs. The code of a task is a function on values which also returns what it
--              did with wakers while it ran, and whether it panicked.
--   Selector   src/selector.rs, src/selector/waker.rs and src/selector/id.rs. Selector/Invariant
--              ties list, queue and reference counts together. Selector/Events is what user code does
--              with handles, Selector/Careful what is asked of it. Selector/Poll is `poll_next`, and
--              Selector/Taken, After, Hands, Guard, Kept, Lent, Continues, Breaks, Rounds, Loop and
--              Polling lead to its theorems; Selector/Heard and Result follow the waker of its context,
--              Selector/Trace and Rounded the nodes that it takes. Selector/Turn and Serve describe the turns of
--              the tasks without memory, list and queue, and Selector/Shows and Served compare;
--              Selector/Yields has where an output comes from.
--              Selector/Iter has the iterators of src/selector/iter.rs, Selector/Extend `from_iter`,
--              Selector/Sift the filter that `retain` comes to. Selector/Drop is the drop of a
--              selector, Selector/Leftover the handles that outlive it.
--   Strategy   src/task/strategy.rs. A future or a stream is a function like the code of a task;
--              Strategy/Handles has what is asked of it, Strategy/Completes, Reclaims,
--              Yields and TryYields what a selector yields.
--   Base       shared names, and lemmas on lists and updates.
--   Tests      a selector with two tasks and a removed one, and the theorems applied to it.
--
-- Parameters. `AtomicWaker` of the futures crate is an interface, with the law that `take` after
-- `register` hands out the registered waker. The addresses of new nodes come from the allocator; a
-- theorem that needs it assumes that they are unused.
--
-- Bounds. Addresses, lengths and reference counts are natural numbers: no list is longer than memory
-- is large. The loops of `poll_next`, `wake_all` and of the drop of a list or a queue run on fuel. `poll_next`
-- needs as much as nodes wait in the queue, since it stops at the node that was the newest when it
-- began; `wake_all` takes the length of the list and one more.
--
-- Not modelled. What the destructor of a task does: the handles inside a dropped task count as kept.
-- A predicate of `extract_if` or `retain` may change its task and itself, but it does not panic and
-- uses no wakers. Memory orderings; other threads between the steps of one call of `dequeue` or of
-- `poll_next`; formatting and hashing; the marker traits.
pub mod Base
pub mod Memory
pub mod Queue
pub mod NodeList
pub mod Task
pub mod Selector
pub mod Strategy
mod Tests
