-- ===== src/Lib.antt =====
-- The three memory pools of shared-arena and the smart pointers to their blocks, on a 64-bit target.
--
-- A pool keeps pages of 63 blocks. The bitfield of a page has a bit for each block, 1 for a free one,
-- and the top bit for the arena. A smart pointer owns a block through the block's counter; a tagged
-- pointer in the block leads back to its page, whose kind says which pool it is of. `Pool` (pool.rs) is
-- used by one thread, `Arena` (arena.rs) by its owner while blocks are dropped anywhere, `SharedArena`
-- (shared_arena.rs) by all threads. Paths of the code below are relative to src/ of the repository.
--
-- Base        names of the libraries, tests on numbers, lists (Base/Tests, Base/Lists)
-- Word        common.rs, and `usize` as a number below 2^64: Word/Bits, Word/Ext, Word/Count
-- Run         calls: they return, panic, do what is undefined, or run out of rounds; Run/Returns is
--             what a call returns or panics with
-- Block       block.rs: `Block`, `Block::drop_block`; Block/Kind, Block/PageTaggedPtr; Block/Tagged and
--             Block/Fields for what a tagged pointer gives back
-- Memory      raw pointers, `alloc` and `dealloc`: a memory with the pages of one arena, which addresses
--             are live, the head of the list that an arena shares with its pages, and the addresses
--             that the allocator is going to return; Memory/Chain for linked lists, Memory/Select for lists of addresses, Memory/Supply for
--             those of the allocator, Memory/Fresh for lists of new pages, Memory/Cursor for
--             the references to links in arena.rs and shared_arena.rs
-- Handle      arena_box.rs, arena_arc.rs, arena_rc.rs and `PoolBox` of pool.rs: new, clone, the
--             value (`Deref`) and drop; Handle/ArcCounter is the counter of arena_arc.rs in every
--             interleaving of clones and drops; Handle/New and Drops are about one call each
-- Page/Pool   page/pool.rs, with Page/Pool/Acquire and Page/Pool/Make
-- Page/Arena  page/arena.rs, one call at a time, with Page/Arena/Acquire and Make; Page/Arena/Steps has the
--             atomic operations on the two bitfields of one page in every interleaving, and Merged,
--             Sim, Gives and Simulates relate it to Page/SharedArena; Safety, Runs
-- Page/SharedMemory   page/shared_arena.rs, one call at a time
-- Page/SharedArena    page/shared_arena.rs, the atomic operations on the bitfield of one page in every
--             interleaving: Invariant, Moves, Take, Give, LetGo and Preserve, Uses, Safety, Runs
-- Pool        pool.rs: `new`, `with_capacity`, `alloc_new_page`, `find_place`; Pool/Alloc for the
--             allocating functions, Pool/Walk for `stats`, `shrink_to_fit`, `Debug` and `Drop`.
--             Pool/Valid says when a pool is valid and when blocks agree with their bits; Taken, Take, Link,
--             Grow, Create and Place are about finding a block, Write, Handles, Store and Stores about
--             the value and its pointer, Release, Released, Freed and Counting about drops, RoundTrip
--             about both, Panics about stray references, Stats, Counts and StatsRuns about the count, Cursors, Unlink,
--             Unlinked, Relinked, Unlist and Shrink about `shrink_to_fit`, LetGo, Orphan and
--             Lifetime about the drop of a pool, Sample, Examples and Endings about a pool with one page.
--             Pool/Client is a client that makes, clones, reads and drops pointers and shrinks the
--             pool, and its specification; Held and Need say what it holds and may need, Rep and
--             Counted how that is kept in memory, Steps, Ready and Refines are about its calls
-- Arena       arena.rs, with Arena/Alloc and Arena/Walk; Arena/Valid says when an arena is valid;
--             Taken, Take, Grow, Place and Find are about finding a block, Write, Store and Stores about
--             the value and its pointer, Release, Released, Freed and Counting about clones and drops,
--             RoundTrip about both, Stats about `stats` and `Debug`, LetGo about `Drop`, Examples about two pages
-- SharedArena shared_arena.rs, with SharedArena/Alloc and SharedArena/Walk
--
-- A function of the code is a command on the memory under the function's name; what `&self` holds in
-- cells is passed along as a record. `T` is any type: a block holds `none` while its cell is not
-- initialised, and dropping a value only empties the cell. An initializer of `alloc_with` is a function
-- from the place to what it leaves there and the reference that it returns. Sums and differences on
-- `usize` are checked where the code uses `+` and `-`, and wrap in atomic operations. The sums `used`
-- and `npages` of the walks are not bounded.
--
-- Bounds: `rounds` and `fuel` count the rounds of the outer and the inner loop of `find_place` and of
-- the walks, `tries` those of a compare-and-exchange loop. `find_place` of a `Pool` needs two rounds,
-- since the pages that the first one makes have free blocks, and one more inner round than the free
-- list has pages; that of an `Arena` needs a third one, for the pages that are pending, and two tries,
-- since the second one of `acquire_free_block` is on the two bitfields taken together. The allocator is the list `supply`; a theorem that needs it asks that the addresses be
-- unused, not null, and such that sign extension from bit 55 leaves them alone.
--
-- Not modelled: targets without the tagged pointer; cache_line.rs (alignment only); the
-- formatting of values; memory orderings: an atomic operation is one step of one order. In Page/SharedMemory,
-- Arena, SharedArena and Page/Arena.antt itself no other thread comes between the steps of a call;
-- Page/Arena/Steps and Page/SharedArena have every interleaving on the bitfields of one page,
-- Handle/ArcCounter those on the counter of one block; those on the lists of pages are left out.
pub mod Arena
pub mod Base
pub mod Word
pub mod Run
pub mod Block
pub mod Memory
pub mod Page
pub mod Handle
pub mod Pool
pub mod SharedArena
