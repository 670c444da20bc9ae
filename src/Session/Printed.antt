-- ===== src/Session/Printed.antt =====
-- What the meta commands print of a database: print_tree of src/btree.c and show_tables of src/cli.c.
--
-- A path down a tree has fewer nodes than there are pages, which is the fuel of print_tree.
use sqlyt.Base.{ℕ, zero, suc, ◌+◌, ◌-◌, ◌*◌, ◌/◌, ◌^◌, [], ◌∷◌, ◌++◌, ltb, ◌==◌, if◌then◌else◌}
use sqlyt.Page.{Page, u32_mod, get_u32}
use sqlyt.Node.{
  table_max_pages, node_leaf, node_internal, get_node_type, leaf_node_header_size,
  leaf_node_num_cells, internal_node_num_keys, internal_node_right_child, internal_node_key,
  leaf_node_key_size, common_node_header_size, leaf_node_space_for_cells,
}
use sqlyt.Pager.{M, pure, spent, ◌>>=◌, gets}
use sqlyt.Pager.Cache.{get_page}
use sqlyt.Pager.Header.{codes}
use sqlyt.Table.{catalog_value_size, schema_text_max, Text, table_init_catalog}
use sqlyt.Catalog.{catalog_read_value}
use sqlyt.Parser.Number.{print_u32}
use sqlyt.Cursor.{Cursor, table_start, cursor_key, cursor_value, cursor_advance, max_rows}
use sqlyt.Tree.{child_page}
use sqlyt.Exec.Rows.{repeat}

-- `%d` of a 32-bit value.
unfoldable pub print_d : ℕ → Text
print_d v = if ltb v (2 ^ 31) then print_u32 v else 45 ∷ print_u32 (u32_mod - v)

unfoldable pub indent : (level : ℕ) → Text
indent level = repeat 32 (level * 2)

-- The keys of the `n` cells from cell `i` on of a leaf with cells of `cell_size` bytes.
unfoldable pub print_leaf_keys : Page → (level cell_size n i : ℕ) → Text
unfolding indent print_d
print_leaf_keys node level cell_size zero i = []
print_leaf_keys node level cell_size (suc n) i =
    indent level
    ++ codes "- "
    ++ print_d (get_u32 node (leaf_node_header_size + i * cell_size))
    ++ codes "\n"
    ++ print_leaf_keys node level cell_size n (i + 1)

-- The `n` children from child `i` on, each with the key behind it, then the right child; `print` is
-- print_tree one level down.
unfoldable pub print_children : (print : ℕ → M Text) → Page → (level n i : ℕ) → M Text
unfolding indent print_d
print_children print node level zero i = print (internal_node_right_child node)
print_children print node level (suc n) i = do
  child ← child_page node i
  tree ← print child
  rest ← print_children print node level n (i + 1)
  pure (
      tree
      ++ indent level
      ++ codes "- key "
      ++ print_d (internal_node_key node i)
      ++ codes "\n"
      ++ rest)

unfoldable pub print_internal : (print : ℕ → M Text) → Page → (level : ℕ) → M Text
unfolding print_children
print_internal print node level =
    if internal_node_num_keys node == 0
    then pure []
    else print_children print node (level + 1) (internal_node_num_keys node) 0

unfoldable pub print_tree_on : ℕ → (leaf_cell_size level page_num : ℕ) → M Text
unfolding print_leaf_keys print_internal
print_tree_on zero leaf_cell_size level page_num = spent
print_tree_on (suc fuel) leaf_cell_size level page_num = do
  node ← get_page page_num
  if get_node_type node == node_leaf
      then pure (
          indent level
          ++ codes "- leaf (size "
          ++ print_d (leaf_node_num_cells node)
          ++ codes ")\n"
          ++ print_leaf_keys node (level + 1) leaf_cell_size (leaf_node_num_cells node) 0)
      else if get_node_type node == node_internal
      then (do
        children ← print_internal (print_tree_on fuel leaf_cell_size (level + 1)) node level
        pure (
            indent level
            ++ codes "- internal (size "
            ++ print_d (internal_node_num_keys node)
            ++ codes ")\n"
            ++ children))
      else pure []

unfoldable pub print_tree : (page_num level leaf_cell_size : ℕ) → M Text
unfolding print_tree_on
print_tree page_num level leaf_cell_size =
    print_tree_on table_max_pages leaf_cell_size level page_num

unfoldable pub show_tables_from : ℕ → Cursor → M Text
show_tables_from zero cursor = spent
show_tables_from (suc fuel) cursor = if Cursor.end_of_table cursor then pure [] else do
  rp ← cursor_key cursor
  (node, off) ← cursor_value cursor
  let (dummy, name, payload) = catalog_read_value node off (schema_text_max + 1)
  next ← cursor_advance cursor
  rest ← show_tables_from fuel next
  pure (name ++ codes " (root_page=" ++ print_u32 rp ++ codes ")\n" ++ rest)

unfoldable pub show_tables : M Text
unfolding show_tables_from
show_tables = do
  master_root_page ← gets (λ s. s.master_root_page)
  cursor ← table_start (table_init_catalog master_root_page)
  show_tables_from max_rows cursor

unfoldable pub constant_line : (name : Text) → ℕ → Text
constant_line name v = name ++ codes ": " ++ print_u32 v ++ codes "\n"

-- On the table that the code calls sample.
unfoldable pub print_constants : Text
unfolding constant_line
print_constants =
    let cell_size = leaf_node_key_size + catalog_value_size in
    constant_line (codes "CATALOG_VALUE_SIZE") catalog_value_size
    ++ constant_line (codes "COMMON_NODE_HEADER_SIZE") common_node_header_size
    ++ constant_line (codes "LEAF_NODE_HEADER_SIZE") leaf_node_header_size
    ++ constant_line (codes "catalog cell_size") cell_size
    ++ constant_line (codes "LEAF_NODE_SPACE_FOR_CELLS") leaf_node_space_for_cells
    ++ constant_line (codes "catalog max_cells") (leaf_node_space_for_cells / cell_size)
