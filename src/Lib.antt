-- ===== src/Lib.antt =====
-- async-priority-lock: a mutex and a semaphore whose waiters are served by priority.
--
-- The program. `priority.rs` says how a queued request compares with another and with a newcomer.
-- `queue.rs` is the trait of a queue that keeps its entries by priority and finds them by handle;
-- `queue/boxed.rs` implements it on boxed nodes, `queue/arena.rs` on an arena. `waiter.rs` is the
-- word that a queued request waits on: its flags and its waker. `mutex.rs` and `semaphore.rs` keep a
-- queue behind a lock, put a waiter into it for each request, and set the flags of the waiters whose
-- turn it is. A future that is dropped takes its entry out again.
--
-- The files.
-- Base: names of the libraries, tests and lists that all files share.
-- Priority (src/priority.rs): the trait `Priority`, `HighestFirst`, `LowestFirst`, `FIFO`, `LIFO`.
--   Priority/Laws is the contract that the trait documents.
-- Queue (src/queue.rs): the trait `PriorityQueue` as a record of operations and laws over a view,
--   the list of the entries behind their handles. Queue/Order has the order of such lists,
--   Queue/Hints the place of an entry that is looked for from a hint. Queue/Reference is the order
--   of entries as a program on lists, and Queue/Agreement compares the two queues with it and so
--   with one another.
-- Boxed (src/queue/boxed.rs): `BoxQueue`, with one function for each method; the parameter `dual`
--   is `HAS_PREV`. Chain, Insert, Unlink, Single, Update, Walk and Visit have the lemmas of its
--   walks, Refines what the methods do, Implementation the `PriorityQueue`, and Ties the order of
--   equal priorities.
-- Arena (src/queue/arena.rs): `ArenaQueue`, a block of nodes with byte offsets as links;
--   Arena/Trait has the methods of the trait. Cells is the block as memory, Chain the list in it,
--   Pieces, Cut and Links the list while its links are written, Owned and Valid the slots that are
--   taken and when the block is well formed, Search, Growth, Insert, Prev and Reposition the
--   private methods. The children of Trait have the methods' proofs, Implementation the
--   `PriorityQueue`, Const the `ConstDefault`. Drop is the drop of the queue.
-- Waiter (src/waiter.rs): `Waiter` as a record, each method as one step; Waiter/Wakes. Waiter/Race
--   has the atomic steps of the owner of a future and of a notifier, and Waiter/Safety their
--   interleavings.
-- Mutex (src/mutex.rs): `try_lock`, `lock`, its future and the guard's drop, as functions on the
--   queue; Shape, Invariant, Release, Cancel and Run have the proofs. Mutex/Data adds the data and
--   the guards that are out.
-- Semaphore (src/semaphore.rs): the order of its entries; Inner has `activate_waiters` and
--   `notify_oversized_waiters`, Acquire has `do_acquire` and what is built on it, Permit the
--   drops, `forget`, `split` and `merge`, Pool `new`, `try_add_permits` and `forget_permits`.
--   Calls has the calls that are built on these, Waits what `acquire_within_total` does from its
--   await on. Entries counts the permits that are out and says
--   who stays pending; Run has the histories of calls; the other children have the proofs.
--
-- How it is modelled. The mutex and the semaphore take any `PriorityQueue` as a parameter; Boxed
-- and Arena supply one each. A call holds the queue's lock from its first to its last access to it,
-- so it is one function on the state; an interleaving of callers is a sequence of such calls. A
-- lookup through a handle that is not queued, which the trait calls undefined, is `none`; theorems
-- show the result of calls on queued handles. Features of the crate are parameters. A `usize` is a
-- number below 2 ^ 64, with wrapping sums and differences written out where the code does not check
-- them, as in a release build. The allocator is a parameter: it returns an address that no live
-- node has. The allocator of the arena's block does not fail; a node takes an even number of bytes,
-- since it is `align(2)`, and so its offset is neither of the two marks, which are odd. `(i + 1) &
-- mask` is the remainder by the number of slots, which is four doubled some times. Loops over a
-- queue are recursive on its list, those of the arena run on fuel, as many steps as there are
-- slots, which is shown to be enough; the loop of `activate_waiters` follows handles and runs on
-- fuel, as many steps as there are entries, which is shown to be enough.
--
-- The interleavings of Waiter/Race are sequentially consistent, with one notifier at a time, since
-- flags are set under the lock of the queue.
--
-- Not modelled: the choice of the lock (src/internal.rs), `Send` and `Sync`, the
-- formatting, serde and `const-default` impls but that of the arena, and the trait's LOAD_PURE. The
-- conversion of a priority by `into` and the default one are parameters of the calls that use them.
pub mod Base
pub mod Priority
pub mod Queue
pub mod Boxed
pub mod Arena
pub mod Waiter
pub mod Mutex
pub mod Semaphore
