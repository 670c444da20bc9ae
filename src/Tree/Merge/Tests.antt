-- ===== src/Tree/Merge/Tests.antt =====
-- A leaf with the keys 5 and 9, and one with the key 12.
use sqlyt.Base.{◌≡◌, refl, arith, some, none, [], false, update, ◌++◌}
use sqlyt.Page.{Page, zero_page, get_u32, put_u32, put_u8}
use sqlyt.Node.{
  set_node_type, set_node_root, set_leaf_node_num_cells, set_leaf_node_next_leaf,
  initialize_leaf_node, leaf_node_num_cells,
}
use sqlyt.Pager.{Pager}
use sqlyt.Pager.Returns.{Returns}
use sqlyt.Table.{Table, empty_schema, empty_layout}
use sqlyt.Table.Layout.{IsTable}
use sqlyt.Leaf.{leaf_rows}
use sqlyt.Tree.Shrink.{merge_leaves}
use sqlyt.Tree.Merge.{Merged, merge_leaves-Merged}

abbrev table : Table
table = record {
  root_page_num = 2;
  is_catalog = false;
  value_size = 4;
  cell_size = 8;
  max_cells = 500;
  schema = empty_schema;
  row_layout = empty_layout;
}

table-IsTable : IsTable table
table-IsTable = record { cell = refl; some_cell = omega arith; fits = omega arith }

abbrev left_leaf : Page
left_leaf = put_u32 (put_u32 (set_leaf_node_num_cells (initialize_leaf_node zero_page) 2) 14 5) 22 9

abbrev right_leaf : Page
right_leaf = put_u32 (set_leaf_node_num_cells (initialize_leaf_node zero_page) 1) 14 12

abbrev db : Pager
db = record {
  file = record { size = 0; byte = λ k. 0 };
  file_length = 0;
  num_pages = 5;
  master_root_page = 1;
  next_root_page = 5;
  free_page_head = 0;
  pages = update (update (λ i. none) 3 (some left_leaf)) 4 (some right_leaf);
  wal = record { frames = []; torn = 0 };
  page_to_wal_frame = λ i. 0;
  wal_frame_count = 0;
  page_dirty = λ i. false;
  checkpoint_in_progress = false;
}

sizes : (leaf_node_num_cells left_leaf ≡ 2) × (leaf_node_num_cells right_leaf ≡ 1)
unfolding get_u32 put_u32 put_u8 set_node_type set_node_root set_leaf_node_num_cells
    set_leaf_node_next_leaf initialize_leaf_node leaf_node_num_cells
sizes = (refl, refl)

merge_leaves-Merged_example :
    Returns
      (λ u s'. Merged table 3 4 db s' (leaf_rows table left_leaf ++ leaf_rows table right_leaf))
      (merge_leaves table 3 4 db)
merge_leaves-Merged_example =
    merge_leaves-Merged table table-IsTable left_leaf right_leaf (omega (arith, sizes)) 3 4 db
      (omega arith) refl refl (omega arith) (omega arith)
