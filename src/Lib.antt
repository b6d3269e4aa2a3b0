-- ===== src/Lib.antt =====
-- Models of bicycletub, a small storage engine: a disk manager in memory, a disk scheduler, a buffer
-- pool with page guards and an ARC replacer, and a B+ tree on the pool.
--
-- The parts and their files (src/ and include/ are the repository's):
--   Disk       DiskManagerMemory: AllocatePage, DeallocatePage, ReadPage, WritePage, GetNumPages.
--   Scheduler  DiskScheduler and Channel: Schedule (schedule), StartWorkerThread (run_worker), and
--              Schedule followed by the wait on the future (run_request). Threads has the clients,
--              the destructor and the worker as steps in any order, Served the queue and the
--              counters, Progress the worker's progress, Request the pool's request as a run.
--   Frame      FrameHeader, and std::shared_mutex as its holders (Latch).
--   Replacer   ArcReplacer: SetEvictable, RecordAccess, Evict with its lambda try_evict. Walk,
--              Invariant, Evict, Access, Enter and Policy hold the proofs.
--   Pool       BufferPoolManager and NewPage, GetPinCount; Pool.Guard the page guards; Pool.Fetch
--              PageSwitch and the part of CheckedReadPage and CheckedWritePage under the pool's
--              latch; Pool.Calls the public methods. Switch, Load, WriteBack, Bring and Acquire
--              prove the steps of a call, Checked, Release and Flush the calls.
--   Tree       the B+ tree's pages (b_plus_tree_key.h, the leaf and the internal page), the leaf's
--              part of GetValue and Insert, and FindLeafPage. Search is KeyIndex, Arrays the loops
--              over a leaf's slots, Leaf the leaf as a map, Split and Insert the insertion into a leaf
--              and the split of a full one, Internal the accessors and the choice of a
--              child, Lookup the whole tree.
--   Parent     Insert on an internal page: the new entry in a page with room, and the three ways to
--              split a full one. Slots and Spread are the loops, Route where a key's child stands
--              before and after, Part a half as a range of the whole.
--   Insertion  Insert on the whole tree: FindAndLock (find_and_lock), the leaf (insert_locked), the
--              loop on the way up (add_up) with the new root (take_parent), and the first key
--              (start_tree). Sound is the invariant of the tree in the store, Change what an insertion
--              does to a subtree, Leaves the chain of the leaves, LeafStep the leaf, Links and RowLinks the
--              chain over a row of children, Pieces, Branch and Entry one level on the way
--              up, NewRoot the last, Descent the way down, Contents the map of the tree,
--              Outcome one Insert and Many a row of them.
--   Removal    Remove: Removal the changes of the pages, Rebalance the leaf and its siblings, Climb the
--              loop on the way up with Merge, and the whole (remove). Leaves has the leaf as a map,
--              Edit the tree after a change of one leaf, Light the deletions that end at the leaf.
--              Cat and Joined are the rows of entries of two neighbours, Repaged, LeafPair and
--              ChildPair the two after a loan or a merge, Above, Rekeyed, Fewer and Pair the page
--              over them, MendLeaf, LendLeaf and RepairLeaf the calls for a leaf, MendChild,
--              LendChild and RepairChild those for an internal page.
--   Join       the row pages (GetRow, SetRow) and ExecuteJoin. Chain has the loops over a
--              chain of rows, Blocks the result.
--   Iterator   IndexIterator: IsEnd, operator*, operator++, Begin(), End(), and Begin(key) from the leaf on. Traversal
--              is the loop over a chain of leaves, Begin and Ends the positions, Entries the rows
--              of entries with rising keys, InOrder the traversal of a whole tree, Agree the same with GetValue.
--   Common     tests, words, lists, association lists and the results of fallible code.
--   Tests      runs on concrete values.
--
-- How the state corresponds. A C++ object is a record with the fields of the class. A hash map is
-- an association list, a std::list a list, the array of frames a function of the frame's number, a
-- pointer to a frame that number. A page's 4096 bytes are one value of a type parameter D with a
-- zero page: every read or write of the disk copies a whole page. A number of type size_t is a
-- natural number below 2^64 and wraps (add64, sub64); a page_id_t is its 32-bit pattern, with the
-- sign read off it (is_negative, signed_lt). A method of the disk or of the replacer is one
-- step, because it holds its mutex from entry to exit.
-- A method of the pool and a guard's constructor or Drop is one step too; a lock that is not free
-- makes the call wait, which is the result blocked, and an exception is the result err. A method
-- that locks a mutex that it holds (Evict inside RecordAccess) is blocked as well.
-- The abstract view of the pool (Pool.Invariant.view) gives each page's bytes: those of its frame,
-- or else those on disk.
--
-- In the tree a key's int is its 32-bit pattern, and the order is that of int (Tree.Search.order);
-- an array is a function of the position, sizes and positions are numbers far below 2^31, and
-- ReadPage is a function from page ids to pages: a pool whose calls succeed gives each page's view.
-- Insert and Remove run on the record BPlusTree: the pages by their ids, the header page's root, the next id
-- that NewPage gives, and the two maxima. The write guards that they hold are a list of page ids, the
-- back of the deque first. Insert reads a page that NewPage gave as a leaf or as an internal page,
-- whatever its bytes: Casts is that reading, a parameter, whose laws are that a page read as what
-- it is stays what it is. A change of a page by AsMut is a store of the page.
-- An internal page of a sound tree has at most as many children as a bound that goes with the tree
-- (Places.cap): Insert keeps to it when it is not under internal_max_size_. Remove can leave more
-- children in an internal page than its maximum. Where such a loan or merge passes the 510 slots of
-- the arrays, the source writes on, over the next array or behind the page, and the model is the
-- error out_of_range (Removal.Climb.in_slots). Elsewhere the maxima bound the sizes: they are meant
-- to be at most the slots, 340 in a leaf and 510 in an internal page, which are the defaults.
-- In the threads over the scheduler a callback that is set is its request in the list of the served
-- ones, in that order, and a client may write to any frame at any time.
-- The latches that the tree's methods take on their way down are not part of this.
--
-- Fuel: KeyIndex runs on the page's size, since every round makes the range shorter, and
-- FindLeafPage and FindAndLock on one round for each level, the loop of Insert on the way up on
-- one for each level and the new root; the join on one for each row and the end; a traversal needs one more than
-- there are entries. The other loops go over lists or count rounds.
--
-- Not modelled: interleavings of two threads inside one method of the pool, the messages on std::cerr, DumpTree and Print, Redistribute, which
-- nothing calls, and the vectors' reservations in the join.
pub mod Common
pub mod Disk
pub mod Frame
pub mod Parent
pub mod Insertion
pub mod Join
pub mod Removal
pub mod Iterator
pub mod Pool
pub mod Replacer
pub mod Scheduler
mod Tests
pub mod Tree
