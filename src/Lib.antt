-- ===== src/Lib.antt =====
-- ccpbtree: a B+ tree of (key, data) pairs, and a server of named indexes over it.
--
-- The program. src/btree.h is the class template `nwt::btree`: leaves that hold sorted keys with
-- their data and are linked both ways, inner nodes that hold separating keys and children. bptree.cc
-- implements the interface of server.h: `create`, `openIndex` and `closeIndex` manage a list of
-- indexes behind a mutex, each index with a tree; `get` searches the tree of a handle.
--
-- The files, from the bottom up.
--   Base: shared names, Boolean tests on numbers, integers, and arrays as functions with the shifts
--     that the loops of btree.h do.
--   Store: the memory. `Node`, `LeafNode` and `InnerNode` are `struct node`, `leafNode` and
--     `innerNode`; `Tree` is the fields of `class btree` and the heap behind its pointers; a `Cmd` is
--     a step from a state to a result and the next state, or a fault. Store/Points: what an address
--     holds.
--   KeyOrder: `keyless` and the comparisons made from it.
--   Leaf: `findKeyLoc`, `findKeyEqual`, `find_lowerkey`, `insertleafKeyAt`, `insertleafDataAt`,
--     `insertleafpair`, `deleteleafpair`. Leaf/Scan, Leaf/Keys, Leaf/Sorted, Leaf/Pair: lemmas on
--     the searches, on the arrays of keys, on insertion into a sorted list, and on `insertleafpair`.
--   Inner: `findInnerNodeLoc`, `insertInnerNodeKeyAt`, `insertInnerNodeChildAt`,
--     `insertinnernodepair`, `deleteinnerpair`, `replacekey` and their like.
--   Find: `find`, `exists`, `get`, `printleaves`. Find/Shape says what a search tree in memory is and
--     which pairs it holds; Find/Bounds, Find/Descend and Find/Walk follow `find` down and along the
--     leaves; Find/Lookup draws the conclusions. Find/Route is the way of a descent, Find/Replace,
--     Find/Update and Find/Members what a write of the leaf at its end does to the tree, Find/Target
--     a leaf with room at its end.
--   Insert: `insert` and `makeroot`. Insert/Split is the split of a leaf, with Insert/Split/Rounds on
--     its end, Insert/Split/Parts and Insert/Split/Halves on what it puts where, Insert/Split/Full on
--     the order of the keys. Insert/Parent is `insert_in_parent` with the split of inner nodes,
--     Insert/Parent/NewRoot and Insert/Parent/TwoLeaves the new root over two leaves,
--     Insert/Parent/Steps and Insert/Parent/Last two leaves at the end of a parent with room. The split
--     of a full inner node: Insert/Parent/Kids says what its children and its halves are,
--     Insert/Parent/Put, Insert/Parent/Halving and Insert/Parent/Distribute follow the loop,
--     Insert/Parent/Inner, Insert/Parent/Widening and Insert/Parent/SplitInner the
--     entries behind it.
--     Insert/Root, Insert/Root/Lookup, Insert/Root/Data: a root leaf with room; Insert/Root/Split: a
--     full one, whose split is that of Insert/Halved; Insert/Empty: no root; Insert/Slots,
--     Insert/Target: any tree where the leaf has room. Insert/Row is a root over linked leaves, with
--     Row/Start its first two, Row/Append a pair in the last one, Row/Split, Row/Wider, Row/Held
--     and Row/Widen the split of the last one, Row/Leaves and Row/Keys its leaves and their keys,
--     Row/Print `printleaves` on it. Insert/Ascending, Insert/Grown, Insert/Spread
--     and Insert/Built: sequences of insertions.
--   Delete: `erase` and `delete_pair`. Delete/Balance is `balancetree`, Delete/Removal
--     `deleteInnerNode`. Delete/Root, Delete/Erase, Delete/Pair: a root leaf; Delete/Fits,
--     Delete/Target: any tree where the leaf does not underflow.
--   Iterator: `iterator`, `begin`, `end`. Iterator/Steps: its steps. Iterator/Stale: `begin` after a
--     split.
--   Server: the types of server.h. KeyBytes: `p_setKeyDataFromKey` of bptree.cc, with
--     KeyBytes/Order and KeyBytes/Long. Catalog: `create`, `openIndex`, `closeIndex` of bptree.cc, with
--     Catalog/Links on its searches, Catalog/Calls, Catalog/Order on the trees and the counts of a list, and Catalog/Reach and
--     Catalog/Handles on sequences of calls. A name is a pointer, and each call gets the strings that
--     the pointers lead to at the time (`Strings`), since the code keeps the callers' own strings.
--     Session: the transactions and `get` of bptree.cc, with Session/Lookup. `Trees` is the trees by
--     the names that the links and the handles have for them.
--   Tests: runs at small inputs, and the theorems at concrete inputs.
--
-- The parameters. `Traits` is the template arguments of the tree, with what memory holds before it is
-- written: `key_garbage` for the keys of a new node, `blank` for data. The theorems that need an
-- order ask for a strict total one (`IsTotal`), as the comment of `keyequal` does.
--
-- Memory. An address is a number and 0 is NULL; `new` gives addresses that were never used. A use of a
-- NULL, freed or wild pointer, a cast to the wrong kind, an index outside an array at the accesses
-- that can leave it, a negative child count and a failed assert are faults: a run that meets one has
-- no result. Numbers that are `unsigned short` or `unsigned int` wrap around. The count of opens of an
-- index is an `int` of 32 bits, and a call that takes it out of range is `crashed`, as one that reads a
-- name that is not there.
--
-- Fuel. A descent, a walk along the leaves, a duplicate check and a climb to the parents get one step
-- more than addresses were ever used. For a search the theorems show that this is enough: they state
-- that it ends with a result. The loops of a split get two rounds for each slot and two more; they
-- spend at most one round that does not advance.
--
-- Not modelled. `getNext`, `insertRecord`, `deleteRecord` of bptree.cc and `erasepair` of
-- src/btree.h do not compile. The const iterators are declared and never defined. The head of
-- `reverse_iterator` is missing: its members stand in `btree` itself, cannot be instantiated there, and
-- have no object to act on. Output, statistics, the test and speed programs and stxbtreeint64.cc hold no
-- logic of the tree.
pub mod Base
pub mod Store
pub mod KeyOrder
pub mod Leaf
pub mod Inner
pub mod Find
pub mod Insert
pub mod Delete
pub mod Iterator
pub mod Server
pub mod KeyBytes
pub mod Catalog
pub mod Session
pub mod Tests
