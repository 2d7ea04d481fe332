-- ===== src/Lib.antt =====
-- GopherDB: a small relational database in Go. A statement is lexed, parsed, analysed, planned, optimized and
-- executed (internal/core/sql, planner, optimizer, execution); tables and indexes are files of 8 KiB pages that
-- a buffer pool keeps in memory (internal/core/storage, index, memory); a catalog describes them
-- (internal/core/catalog).
--
-- Which file models what:
--   Base: shared names, lists over the native numbers, Go's integers, outcomes (value, error or panic), and the
--     selection of rows by a test.
--   Bytes: byte slices with `copy`, big-endian integers, the comparison of strings, the reading of a buffer
--     field by field, and the UTF-8 check.
--   Catalog: internal/core/catalog/model, the four definitions with their constructors, `ToBytes` (to_bytes) and
--     `XFromBytes` (from_bytes). A buffer is a list of bytes; the fields that `ToBytes` puts one behind
--     the other are listed by `pieces`.
--   Value: the values that an `any` holds, and internal/core/memory/model's tuple.
--   Memory.Page: internal/core/memory/page/heap_page.go. The state is the page's buffer; Page.Records says what it
--     stands for, a list of records, Page.Read and Page.Write relate `Read` and `Write` to that list.
--   Memory.Serializer: internal/core/memory/serializer/heap_tuple_serializer.go.
--   Memory.Slot: internal/core/memory/model, the page key and the buffer slot.
--   Memory.Replacer: the interface of internal/core/memory/replacer/replacer.go with its laws; Memory.Lru and
--     Memory.Clock are its two implementations, lru_replacer and clock_replacer fill the interface. The clock's
--     loop has as fuel one more than the number of reference bits that are set, since each round but
--     the last clears one.
--   Memory.Disk: the interface of internal/core/memory/manager/page_file_manager.go with the laws that the pool uses.
--   Memory.Pool: internal/core/memory/buffer/heap_buffer_pool_manager.go over any replacer and any page file manager.
--     A method takes the pool to a new pool and an outcome. Pool.Invariant has the invariant and the
--     abstract view, a page for each key; Space, Evict, Touch, Content, Refines, Store, Pins, Written, FlushAll and Flush relate the
--     methods to it.
--   Semantic: the expressions of internal/core/sql/ast and internal/core/sql/semantic and their resolution in
--     analyzer.go, over what the analyzer asks the catalog. Semantic.Typing says when a resolved expression
--     is well typed and a row fits a schema.
--   Lexer: internal/core/sql/lexer, from the runes of a statement on. The state is a place and the runes that are
--     left. Lexer.Places follows each round of the loop, Cover the whole run, Bounds has the offsets, lines and
--     columns; Lexeme spells statements and RoundTrip reads them back. The fuel of the loop is the number of runes,
--     since each round takes one at least.
--   Ast, Parser: internal/core/sql/ast and internal/core/sql/parser. Parser.State has the helpers on tokens, Number
--     `strconv.ParseInt`, Parser the parsing methods; a method that calls itself through another has that
--     one as an argument. The fuel is two more than the number of tokens, of which each loop and each parenthesis
--     takes one; Fuel, Total, Within and Whole show that it is enough. Grammar says which lexemes spell a statement, and
--     Reads, Chains, Expressions, Lists, Clauses and Statements that they are parsed so.
--   Analyzer: analyzer.go over the catalog's look-ups; Analyzer.Select follows an accepted SELECT to its answer,
--     Analyzer.Insert has the types of the values, Analyzer.CreateTable says which CREATE TABLE is accepted.
--   Execution: the evaluation of predicates in internal/core/execution/executors/filter_executor.go and the rows that
--     the filter and the projection return.
--   Planner: internal/core/planner, and the query trees of internal/core/sql/semantic.
--   Optimizer: internal/core/optimizer. Optimizer.Range says what an index range promises, Order, Single, Extract, Merge
--     and Sound relate the extracted range to the predicate; Store is the contract of an index look-up,
--     and Plans and Answer follow a `SELECT` from its plan to its rows.
--   Index: internal/core/index/disk_btree_index.go. Keys has the comparison and the two binary searches, whose fuel is one
--     more than the number of keys; Order and Bounds relate them to the order of keys. Leaf is the insertion into a leaf and
--     the search of one, which Position, Inserted and Insertion compare with a walk over all keys. Node is the layout of a node on its
--     page; NodeReads, NodeSizes and NodeCodec relate reading, the estimated size and writing; Meta is the meta page. Search has `findLeaf`, `Search`
--     and `RangeSearch` over what `readNode` gives for a page number; their fuel bounds the nodes on the way down and
--     the leaves in the chain. Tree and Whole say what a well-formed index is, and
--     Limits what a range of keys is, by the order of the keys alone; Descent, Ranges, Chain, RangeSearch and Lookup
--     compare the searches with a walk over the keys of all leaves.
--   Tests: an in-memory page file manager, runs on fixed inputs, and the theorems at concrete arguments.
--
-- The mutex of the pool makes each method one step, so a method is a function on the pool. A Go map is a
-- list without repeated keys; the order in which Go visits a map is not fixed, and the order of the list is
-- one that it may take. A pointer to a slot that a replacer holds is the slot's key: the pool has at
-- most one slot for a key (Pool.Invariant). Constructors and methods that Go calls with a nil pointer are
-- modelled for arguments that are not nil.
--
-- Not modelled: the catalog manager, the hash index, the B-tree's splits and its first page, and the table heap
-- (the optimizer uses an index by its contract, Optimizer.Store); the
-- page file manager's own file access (its laws do not cover a write that fails half-way); the background writer; the engine, the protocol, the server
-- and the command line.
pub mod Base
pub mod Bytes
pub mod Catalog
pub mod Value
pub mod Lexer
pub mod Index
pub mod Memory
pub mod Semantic
pub mod Ast
pub mod Parser
pub mod Analyzer
pub mod Execution
pub mod Planner
pub mod Optimizer
mod Tests
