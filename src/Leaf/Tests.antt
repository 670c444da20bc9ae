-- ===== src/Leaf/Tests.antt =====
-- A leaf of a small table.
use sqlyt.Base.{◌≡◌, refl, false, [], ◌∷◌, ◌++◌, arith}
use sqlyt.Page.{Page, zero_page, of_bytes, slice, get_u32, put_u32, put_u8, memcpy}
use sqlyt.Node.{initialize_leaf_node, leaf_node_num_cells, set_leaf_node_num_cells}
use sqlyt.Table.{Table, empty_schema, empty_layout, tbl_leaf_key, tbl_leaf_value, tbl_leaf_cell}
use sqlyt.Table.Layout.{IsTable}
use sqlyt.Leaf.{insert_cell, delete_cell, split_leaf, row_at, rows_from, leaf_rows}
use sqlyt.Leaf.Insert.{insert_at, insert_cell-insert_at}
use sqlyt.Leaf.Split.{split_leaf-insert_at}
use sqlyt.Leaf.Delete.{erase_at, delete_cell-erase_at}

-- Rows of two bytes.
abbrev pairs : Table
pairs = record {
  root_page_num = 2;
  is_catalog = false;
  value_size = 2;
  cell_size = 6;
  max_cells = 680;
  schema = empty_schema;
  row_layout = empty_layout;
}

pairs-IsTable : IsTable pairs
pairs-IsTable = record { cell = refl; some_cell = omega arith; fits = omega arith }

empty_leaf : Page
empty_leaf = initialize_leaf_node zero_page

-- The rows 5 and 9.
two_rows : Page
unfolding empty_leaf
two_rows =
    insert_cell pairs 1 9 (of_bytes (90 ∷ 91 ∷ []))
      (insert_cell pairs 0 5 (of_bytes (50 ∷ 51 ∷ [])) empty_leaf)

two_rows_num_cells : leaf_node_num_cells two_rows ≡ 2
unfolding two_rows insert_cell leaf_node_num_cells set_leaf_node_num_cells initialize_leaf_node
    get_u32 put_u32 put_u8 memcpy tbl_leaf_cell tbl_leaf_value
two_rows_num_cells = refl

two_rows_rows :
    leaf_rows pairs two_rows
    ≡ record { key = 5; value = 50 ∷ 51 ∷ [] } ∷ record { key = 9; value = 90 ∷ 91 ∷ [] } ∷ []
unfolding two_rows insert_cell leaf_node_num_cells set_leaf_node_num_cells initialize_leaf_node
    get_u32 put_u32 put_u8 memcpy tbl_leaf_cell tbl_leaf_value leaf_rows rows_from row_at
    tbl_leaf_key slice of_bytes
two_rows_rows = refl

insert_cell-insert_at_example :
    leaf_rows pairs (insert_cell pairs 1 7 (of_bytes (70 ∷ 71 ∷ [])) two_rows)
    ≡ insert_at 1
        (record { key = 7; value = slice (of_bytes (70 ∷ 71 ∷ [])) 0 2 })
        (leaf_rows pairs two_rows)
insert_cell-insert_at_example =
    insert_cell-insert_at pairs pairs-IsTable 1 7 (of_bytes (70 ∷ 71 ∷ [])) two_rows
      (rw two_rows_num_cells (omega arith)) (rw two_rows_num_cells (omega arith)) (omega arith)

delete_cell-erase_at_example :
    leaf_rows pairs (delete_cell pairs 0 two_rows) ≡ erase_at 0 (leaf_rows pairs two_rows)
delete_cell-erase_at_example =
    delete_cell-erase_at pairs pairs-IsTable 0 two_rows (rw two_rows_num_cells (omega arith))
      (rw two_rows_num_cells (omega arith))

-- A leaf holds two of these rows.
abbrev wide : Table
wide = record {
  root_page_num = 2;
  is_catalog = false;
  value_size = 2000;
  cell_size = 2004;
  max_cells = 2;
  schema = empty_schema;
  row_layout = empty_layout;
}

wide-IsTable : IsTable wide
wide-IsTable = record { cell = refl; some_cell = omega arith; fits = omega arith }

split_leaf-insert_at_example :
    leaf_rows wide (split_leaf wide 1 7 zero_page 3 (two_rows, zero_page)).0
      ++ leaf_rows wide (split_leaf wide 1 7 zero_page 3 (two_rows, zero_page)).1
    ≡ insert_at 1 (record { key = 7; value = slice zero_page 0 2000 }) (leaf_rows wide two_rows)
split_leaf-insert_at_example =
    split_leaf-insert_at wide wide-IsTable 1 7 zero_page (omega arith) two_rows zero_page 3
      two_rows_num_cells (omega arith)
