-- ===== src/Exec/RootLeaf/Tests.antt =====
-- A table with the keys 5 and 9 in its root, a leaf in page 2.
use sqlyt.Base.{◌≡◌, refl, arith, some, none, [], false, true, update, if◌then◌else◌}
use sqlyt.Page.{Page, zero_page, put_u32, put_u8, get_u32, slice}
use sqlyt.Node.{
  set_leaf_node_num_cells, leaf_node_next_leaf, leaf_node_num_cells, get_node_type, is_node_root,
  set_node_type, set_node_root, set_leaf_node_next_leaf, initialize_leaf_node,
}
use sqlyt.Pager.{Pager, done, ◌>>=◌}
use sqlyt.Pager.Returns.{Returns}
use sqlyt.Pager.Cache.Load.{seen}
use sqlyt.Pager.Cache.Reads.{Reads}
use sqlyt.Table.{Table, empty_schema, empty_layout, tbl_leaf_cell, tbl_leaf_key}
use sqlyt.Table.Layout.{IsTable}
use sqlyt.Leaf.{rows_from, row_at, leaf_rows}
use sqlyt.Leaf.Keyed.{has_key, place, remove_key}
use sqlyt.Tree.RootLeaf.Scan.{IsMaxKey, find_table_max_key-IsMaxKey}
use sqlyt.Cursor.{find_table_max_key, table_has_key}
use sqlyt.Database.{root_leaf}
use sqlyt.Tree.Grow.{execute_success, execute_duplicate_key, insert_row_into_table}
use sqlyt.Tree.RootLeaf.{RootLeaf, found, table_has_key-root}
use sqlyt.Tree.RootLeaf.Change.{Changed, insert_row_into_table-root}
use sqlyt.Exec.{sql_exec_ok, sql_exec_delete_record_not_found}
use sqlyt.Exec.Change.{delete_row}
use sqlyt.Exec.RootLeaf.{delete_row-root, insert_row_into_table-delete_row}

abbrev table : Table
table = record {
  root_page_num = 2;
  is_catalog = false;
  value_size = 4;
  cell_size = 8;
  max_cells = 500;
  schema = empty_schema;
  row_layout = empty_layout;
}

table-IsTable : IsTable table
table-IsTable = record { cell = refl; some_cell = omega arith; fits = omega arith }

abbrev leaf : Page
leaf = put_u32 (put_u32 (set_leaf_node_num_cells (root_leaf zero_page) 2) 14 5) 22 9

abbrev db : Pager
db = record {
  file = record { size = 0; byte = λ k. 0 };
  file_length = 0;
  num_pages = 3;
  master_root_page = 1;
  next_root_page = 3;
  free_page_head = 0;
  pages = update (λ i. none) 2 (some leaf);
  wal = record { frames = []; torn = 0 };
  page_to_wal_frame = λ i. 0;
  wal_frame_count = 0;
  page_dirty = λ i. false;
  checkpoint_in_progress = false;
}

leaf_num_cells : leaf_node_num_cells leaf ≡ 2
unfolding get_u32 put_u32 put_u8 set_node_type set_node_root set_leaf_node_num_cells
    set_leaf_node_next_leaf initialize_leaf_node leaf_node_num_cells root_leaf
leaf_num_cells = refl

root : RootLeaf table db leaf
unfolding get_u32 put_u32 put_u8 set_node_type set_node_root set_leaf_node_num_cells seen
    set_leaf_node_next_leaf initialize_leaf_node leaf_node_num_cells root_leaf leaf_rows rows_from
    row_at tbl_leaf_cell tbl_leaf_key get_node_type is_node_root
root = record {
  shown = refl;
  in_range = omega arith;
  is_leaf = refl;
  is_root = refl;
  few = omega (arith, leaf_num_cells);
  sorted = ((omega arith, tt), (tt, tt));
}

-- A row with the value 0 and the key 7.
insert_row_into_table-root_example :
    Returns
      (λ r s'.
        if has_key 7 (leaf_rows table leaf)
        then (r ≡ execute_duplicate_key) × Reads db s'
        else (r ≡ execute_success)
          × Changed table db s'
              (place (record { key = 7; value = slice zero_page 0 4 }) (leaf_rows table leaf)))
      (insert_row_into_table table 7 zero_page db)
insert_row_into_table-root_example =
    insert_row_into_table-root table table-IsTable db leaf root 7 zero_page (omega arith)
      (omega (arith, leaf_num_cells))

delete_row-root_example :
    Returns
      (λ r s'.
        if has_key 9 (leaf_rows table leaf)
        then (r ≡ sql_exec_ok) × Changed table db s' (remove_key 9 (leaf_rows table leaf))
        else (r ≡ sql_exec_delete_record_not_found) × Reads db s')
      (delete_row 9 table db)
delete_row-root_example = delete_row-root table table-IsTable db leaf root 9

keys : (has_key 7 (leaf_rows table leaf) ≡ false) × (has_key 9 (leaf_rows table leaf) ≡ true)
unfolding get_u32 put_u32 put_u8 set_node_type set_node_root set_leaf_node_num_cells
    set_leaf_node_next_leaf initialize_leaf_node leaf_node_num_cells root_leaf leaf_rows rows_from
    row_at tbl_leaf_cell tbl_leaf_key
keys = (refl, refl)

insert_row_into_table-delete_row_example :
    Returns
      (λ r s'. (r ≡ sql_exec_ok) × Changed table db s' (leaf_rows table leaf))
      ((insert_row_into_table table 7 zero_page >>= λ u. delete_row 7 table) db)
insert_row_into_table-delete_row_example =
    insert_row_into_table-delete_row table table-IsTable db leaf root 7 zero_page (omega arith)
      (omega (arith, leaf_num_cells)) keys.0

table_has_key-root_example :
    (table_has_key table 9 db
      ≡ done (has_key 9 (leaf_rows table leaf)) (found table table-IsTable db leaf root))
    × Reads db (found table table-IsTable db leaf root)
table_has_key-root_example = table_has_key-root table table-IsTable db leaf root 9

leaf_alone : leaf_node_next_leaf leaf ≡ 0
unfolding get_u32 put_u32 put_u8 set_node_type set_node_root set_leaf_node_num_cells
    set_leaf_node_next_leaf initialize_leaf_node leaf_node_next_leaf root_leaf
leaf_alone = refl

find_table_max_key-IsMaxKey_example :
    Returns (λ r s'. IsMaxKey r (leaf_rows table leaf) × Reads db s') (find_table_max_key table db)
find_table_max_key-IsMaxKey_example =
    find_table_max_key-IsMaxKey table table-IsTable db leaf root leaf_alone
