-- ===== src/Lib.antt =====
-- A model of SQLyt (src/, include/sqlyt.h), an SQL database in C: a pager with a write-ahead log
-- under B+ tree tables, a parser, and a session that executes statements.
--
-- Base, Page: helpers, and pages as bytes with C's reads, writes, memcpy and memset. A pointer into
-- a page is the page number and an offset; uint32_t values wrap at 2 ^ 32, written out.
-- Node: the node layout and accessors of src/btree.c.
-- Pager: the state of include/sqlyt.h's Pager, the two files under it, and the monad its code runs
--   in. Outcomes are values: `done`, `exited` (exit), `fault` (undefined in C) and `out_of_fuel`.
--   Cache: get_page and mark_page_dirty. Header: the page 0 of src/pager.c. FreeList:
--   get_unused_page_num and pager_free_page. Wal: pager_flush, commit, checkpoint, recovery and
--   pager_open; its child modules hold the theorems. A crash is a cut of the WAL file, a number of
--   whole frames and a number of bytes of the next one, or of a checkpoint after a number of pages.
-- Table: schemas, row layouts and tables (src/btree.c 145-199).
-- Search: the binary searches of src/btree.c, on fuel: the bounds of the interval differ by at most
--   the fuel, which is the number of cells or keys.
-- Leaf: the bytes that inserting into, deleting from and splitting a leaf move.
--
-- Parser: src/parser.c on text as a list of bytes, a module for each group of its functions.
-- Catalog: the bytes of catalog rows (src/btree.c 333-359).
-- Cursor: the descent to a leaf and the scans (src/btree.c 435-502 and their users), on fuel: a path
--   has fewer nodes than there are pages, and a scan passes fewer rows than the pages have bytes.
-- App: normalize_input_line of src/app.c.
-- Database: db_open and db_close of src/pager.c, and the root pages of new tables.
--
-- Tree: the rest of src/btree.c on the pager. Grow: insertion, with the splits of nodes. Shrink:
--   deletion, with borrowing and merging. Writes through page pointers are writes to pages of the
--   cache. The two functions that insert into internal nodes call each other on fuel: each call goes
--   to a new node or to a parent, and a path has fewer nodes than there are pages.
-- Exec: the statements of src/cli.c (163-654), a module for each group, with the text that SELECT and
--   the results print (src/parser.c 204-232). Refused, Unwritten: what statements leave alone.
--
-- A statement runs in the pager's monad: Exec calls Cursor to search, Tree to change, and Pager.Wal
-- to commit; each layer reaches the pages through Pager.Cache only.
--
-- Session: the session, its meta commands and its lines (src/cli.c, src/app.c), with the directories
--   under the root path as a map from names to the two files of a database. Main: the arguments and
--   the script loop of main. The file system answers through arguments: whether mkdir succeeds, and
--   what list_databases prints.
--
-- Not modelled: the loop over the terminal with its prompt and the readline library, the timer, the
-- messages printed in the middle of a failing statement, threads (the program has one), failing reads
-- and writes of files that are open, failing allocations, the tests and benchmarks.
pub mod Base
pub mod Page
pub mod Node
pub mod Pager
pub mod Table
pub mod Leaf
pub mod Search
pub mod Parser
pub mod Catalog
pub mod Cursor
pub mod Tree
pub mod Exec
pub mod Database
pub mod App
pub mod Session
