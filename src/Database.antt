-- ===== src/Database.antt =====
-- Opening and closing a database, and the pages of new tables: db_open and db_close of src/pager.c,
-- allocate_next_root_page and create_table_root of src/parser.c. The messages are left out.
use sqlyt.Base.{
  ℕ, ◌+◌, ◌%◌, Bool, true, false, not, ◌&&◌, Option, none, some, leb, ltb, ◌==◌, if◌then◌else◌,
}
use sqlyt.Page.{Page, u32_mod, get_u32, put_u32}
use sqlyt.Node.{
  table_max_pages, node_leaf, node_internal, get_node_type, initialize_leaf_node, set_node_root,
}
use sqlyt.Pager.{
  File, WalFile, Pager, Run, exited, M, pure, exit_failure, ◌>>=◌, ◌>>◌, gets, modify, when,
}
use sqlyt.Pager.Cache.{get_page, mark_page_dirty, peek, poke}
use sqlyt.Pager.Header.{
  db_header_master_root_page, db_header_first_user_root_page, master_root_page_offset,
  next_root_page_offset, free_page_head_offset, header_is_valid, write_header,
}
use sqlyt.Pager.Wal.{pager_open, pager_checkpoint, pager_commit_transaction_sync}
use sqlyt.Table.{Table, table_init_catalog}
use sqlyt.Cursor.{recover_next_root_page_from_master}

unfoldable pub allocate_next_root_page : M ℕ
allocate_next_root_page = do
  root_page ← gets (λ s. s.next_root_page)
  header_page ← get_page 0
  if leb table_max_pages root_page then exit_failure else do
    modify (λ s. record s { next_root_page = (s.next_root_page + 1) % u32_mod })
    next ← gets (λ s. s.next_root_page)
    poke 0 (λ p. put_u32 p next_root_page_offset next)
    mark_page_dirty 0
    pure root_page

-- An empty leaf that is a root.
unfoldable pub root_leaf : Page → Page
root_leaf p = set_node_root (initialize_leaf_node p) true

unfoldable pub create_table_root : (root_page : ℕ) → M (Unit {0})
unfolding root_leaf
create_table_root root_page = do
  root_node ← get_page root_page
  poke root_page root_leaf
  mark_page_dirty root_page

-- The branch of db_open for a new file.
unfoldable pub create_database_file : M (Unit {0})
unfolding root_leaf
create_database_file = do
  poke 0 (λ p. write_header p db_header_master_root_page db_header_first_user_root_page)
  root_node ← get_page db_header_master_root_page
  poke db_header_master_root_page root_leaf
  mark_page_dirty 0
  mark_page_dirty db_header_master_root_page
  pager_commit_transaction_sync

-- The branch of db_open for a file whose header is not valid.
unfoldable pub repair_header : M (Unit {0})
unfolding root_leaf
repair_header = do
  repaired_root ← get_page db_header_master_root_page
  when
      (not (get_node_type repaired_root == node_leaf)
        && not (get_node_type repaired_root == node_internal))
      (poke db_header_master_root_page root_leaf)
  repaired_next_root ← recover_next_root_page_from_master db_header_master_root_page
  poke 0 (λ p. write_header p db_header_master_root_page repaired_next_root)
  mark_page_dirty 0
  pager_commit_transaction_sync

-- db_open on the pager that pager_open gave; the result is the catalog.
unfoldable pub open_tables : M Table
unfolding create_database_file repair_header
open_tables = do
  num_pages ← gets (λ s. s.num_pages)
  header_page ← get_page 0
  if num_pages == 0
      then create_database_file
      else when (not (header_is_valid header_page)) repair_header
  header ← peek 0
  modify (λ s. record s {
    master_root_page = get_u32 header master_root_page_offset;
    next_root_page = get_u32 header next_root_page_offset;
    free_page_head = get_u32 header free_page_head_offset;
  })
  pure (table_init_catalog (get_u32 header master_root_page_offset))

unfoldable pub db_open : File → WalFile → Run Table
unfolding open_tables
db_open file wal = elim (pager_open file wal) [ none ↦ exited | some s ↦ open_tables s ]

-- A page is cached.
abbrev pub is_cached : Option Page → Bool
is_cached none = false
is_cached (some p) = true

-- The loops of db_close over the pages below `num_pages`.
abbrev pub mark_all_dirty : Pager → Pager
mark_all_dirty s = record s {
  page_dirty = λ i. if ltb i s.num_pages && is_cached (s.pages i) then true else s.page_dirty i;
}

abbrev pub free_pages : Pager → Pager
free_pages s = record s { pages = λ i. if ltb i s.num_pages then none else s.pages i }

-- Up to the closing of the files, which then hold what is left of the database.
unfoldable pub db_close : M (Unit {0})
db_close = do
  modify mark_all_dirty
  pager_commit_transaction_sync
  modify free_pages
  pager_checkpoint
  modify (λ s. record s { pages = λ i. none })
