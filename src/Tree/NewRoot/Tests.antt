-- ===== src/Tree/NewRoot/Tests.antt =====
-- A leaf that is full of rows with large keys, and one more row for it.
use sqlyt.Base.{ℕ, ◌≡◌, refl, arith, some, none, [], false, update}
use sqlyt.Page.{Page, zero_page, put_u32, put_u8, get_u32, memcpy}
use sqlyt.Node.{
  set_node_type, set_node_root, set_leaf_node_num_cells, set_leaf_node_next_leaf,
  initialize_leaf_node, get_node_type, is_node_root, leaf_node_num_cells, node_parent,
  set_node_parent, leaf_node_next_leaf, initialize_internal_node, set_internal_node_num_keys,
  set_internal_node_right_child, internal_node_num_keys, internal_node_child,
  internal_node_child_ptr, internal_node_cell, set_internal_node_key,
}
use sqlyt.Pager.{Pager, exited, pure, exit_failure, gets, ◌>>=◌}
use sqlyt.Pager.Cache.{load_page, cache_page, get_page, mark_page_dirty, peek, poke}
use sqlyt.Pager.FreeList.{get_unused_page_num}
use sqlyt.Table.{Table, empty_schema, empty_layout, tbl_leaf_cell, tbl_leaf_key, tbl_leaf_value}
use sqlyt.Leaf.{split_leaf, write_split_cell}
use sqlyt.Search.{leaf_find_index}
use sqlyt.Cursor.{or_exit, or_out_of_fuel, table_find, leaf_node_find}
use sqlyt.Database.{root_leaf}
use sqlyt.Tree.{get_node_max_key, set_child_page, create_new_root, link_new_root}
use sqlyt.Tree.Grow.{leaf_node_split_and_insert, leaf_node_insert, insert_row_into_table}
use sqlyt.Tree.NewRoot.{link_new_root-exited}

abbrev table : Table
table = record {
  root_page_num = 2;
  is_catalog = false;
  value_size = 2000;
  cell_size = 2004;
  max_cells = 2;
  schema = empty_schema;
  row_layout = empty_layout;
}

-- Two rows with the keys `a` and `b`.
abbrev full_leaf : ℕ → ℕ → Page
full_leaf a b = put_u32 (put_u32 (set_leaf_node_num_cells (root_leaf zero_page) 2) 14 a) 2018 b

abbrev full : ℕ → ℕ → Pager
full a b = record {
  file = record { size = 0; byte = λ k. 0 };
  file_length = 0;
  num_pages = 3;
  master_root_page = 1;
  next_root_page = 3;
  free_page_head = 0;
  pages = update (update (λ i. none) 0 (some zero_page)) 2 (some (full_leaf a b));
  wal = record { frames = []; torn = 0 };
  page_to_wal_frame = λ i. 0;
  wal_frame_count = 0;
  page_dirty = λ i. false;
  checkpoint_in_progress = false;
}

first_key : tbl_leaf_key table (full_leaf 5000 5001) 0 ≡ 5000
unfolding get_u32 put_u32 put_u8 set_node_type set_node_root set_leaf_node_num_cells
    set_leaf_node_next_leaf initialize_leaf_node tbl_leaf_cell tbl_leaf_key root_leaf
first_key = refl

link_new_root-exited_example : link_new_root table 3 4 (full 5000 5001) ≡ exited
link_new_root-exited_example =
    link_new_root-exited table 3 4 (full 5000 5001) (full_leaf 5000 5001) refl
      (rw first_key (omega arith))

-- A third row does not go in: the program ends.
insert_exits : insert_row_into_table table 5002 zero_page (full 5000 5001) ≡ exited
unfolding insert_row_into_table table_find leaf_node_find leaf_find_index or_out_of_fuel or_exit
    leaf_node_insert leaf_node_split_and_insert get_node_max_key get_unused_page_num split_leaf
    create_new_root link_new_root set_child_page get_page mark_page_dirty peek poke ◌>>=◌ pure
    exit_failure gets get_u32 put_u32 put_u8 memcpy set_node_type set_node_root
    set_leaf_node_num_cells set_leaf_node_next_leaf initialize_leaf_node get_node_type is_node_root
    leaf_node_num_cells node_parent set_node_parent leaf_node_next_leaf initialize_internal_node
    set_internal_node_num_keys set_internal_node_right_child internal_node_num_keys
    internal_node_child internal_node_child_ptr internal_node_cell set_internal_node_key
    tbl_leaf_cell tbl_leaf_key tbl_leaf_value write_split_cell root_leaf load_page cache_page
insert_exits = refl
