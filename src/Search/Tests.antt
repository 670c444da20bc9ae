-- ===== src/Search/Tests.antt =====
-- Searches in a leaf and in an internal node.
use sqlyt.Base.{ℕ, zero, suc, ◌<◌, ◌≡◌, refl, false, some, arith}
use sqlyt.Page.{Page, zero_page, get_u32, put_u32}
use sqlyt.Node.{
  internal_node_num_keys, internal_node_key, leaf_node_num_cells, set_leaf_node_num_cells,
  set_internal_node_num_keys, set_internal_node_key,
}
use sqlyt.Table.{Table, empty_schema, empty_layout, tbl_leaf_key}
use sqlyt.Search.{leaf_find_index, internal_node_find_child}
use sqlyt.Search.Bound.{IsAscending, Finds, leaf_find_index-Finds, internal_node_find_child-Finds}

-- Two children, parted at key 5.
node : Page
node = set_internal_node_key (set_internal_node_num_keys zero_page 1) 0 5

node_num_keys : internal_node_num_keys node ≡ 1
unfolding node internal_node_num_keys set_internal_node_num_keys set_internal_node_key get_u32
    put_u32
node_num_keys = refl

node_sorted : IsAscending (internal_node_key node) (internal_node_num_keys node)
node_sorted i j a b = absurd (omega (arith, node_num_keys))

internal_node_find_child_example :
    Finds (internal_node_key node) (internal_node_num_keys node) 6 (internal_node_find_child node 6)
internal_node_find_child_example =
    internal_node_find_child-Finds node 6 node_sorted (rw node_num_keys (omega arith))

node_right : internal_node_find_child node 6 ≡ some 1
unfolding internal_node_find_child node internal_node_num_keys internal_node_key
    set_internal_node_num_keys set_internal_node_key get_u32 put_u32
node_right = refl

abbrev table : Table
table = record {
  root_page_num = 2;
  is_catalog = false;
  value_size = 2;
  cell_size = 6;
  max_cells = 680;
  schema = empty_schema;
  row_layout = empty_layout;
}

-- The keys 5 and 9.
leaf : Page
leaf = put_u32 (put_u32 (set_leaf_node_num_cells zero_page 2) 14 5) 20 9

leaf_num_cells : leaf_node_num_cells leaf ≡ 2
unfolding leaf leaf_node_num_cells set_leaf_node_num_cells get_u32 put_u32
leaf_num_cells = refl

leaf_keys : (tbl_leaf_key table leaf 0 ≡ 5) × (tbl_leaf_key table leaf 1 ≡ 9)
unfolding leaf tbl_leaf_key set_leaf_node_num_cells get_u32 put_u32
leaf_keys = (refl, refl)

leaf_sorted : IsAscending (tbl_leaf_key table leaf) (leaf_node_num_cells leaf)
leaf_sorted i j a b = below_two i j a (rw leaf_num_cells at b)
  where
    below_two : (m k : ℕ) → m < k → k < 2 → tbl_leaf_key table leaf m < tbl_leaf_key table leaf k
    below_two zero (suc zero) c d = omega (arith, leaf_keys)
    below_two m zero c d = absurd (omega arith)
    below_two (suc m) (suc zero) c d = absurd (omega arith)
    below_two m (suc (suc k)) c d = absurd (omega arith)

leaf_find_index_example :
    Finds (tbl_leaf_key table leaf) (leaf_node_num_cells leaf) 7 (leaf_find_index table leaf 7)
leaf_find_index_example =
    leaf_find_index-Finds table leaf 7 leaf_sorted (rw leaf_num_cells (omega arith))
