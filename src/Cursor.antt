-- ===== src/Cursor.antt =====
-- Finding and walking in a table: the cursor of src/btree.c (leaf_node_find to cursor_advance) and
-- the scans of src/parser.c and src/pager.c that use it.
--
-- A path from the root has fewer nodes than there are pages, and a table has fewer rows than its
-- pages have bytes, so these numbers are the fuel; a table that is linked in a circle runs out.
pub mod ReadOnly
use sqlyt.Base.{
  ℕ, zero, suc, ◌+◌, ◌*◌, ◌%◌, Bool, true, false, not, ◌&&◌, Option, none, some, ltb, leb, ◌==◌,
  if◌then◌else◌,
}
use sqlyt.Page.{Page, page_size, u32_mod, get_u32}
use sqlyt.Node.{
  table_max_pages, node_leaf, node_internal, get_node_type, internal_node_child,
  leaf_node_num_cells, leaf_node_next_leaf,
}
use sqlyt.Pager.{M, pure, spent, exit_failure, ◌>>=◌, gets}
use sqlyt.Pager.Cache.{get_page}
use sqlyt.Table.{
  max_table_name_length, schema_text_max, Text, SqlSchema, Table, table_init_catalog, tbl_leaf_key,
  tbl_leaf_value,
}
use sqlyt.Search.{leaf_find_index, internal_node_find_child}
use sqlyt.Catalog.{catalog_read_value}
use sqlyt.Parser.Text.{is_valid_identifier, same_text_ci}
use sqlyt.Parser.Payload.{split_schema_payload}

-- `Cursor`
pub record Cursor : Type 0 where
  pub table : Table
  pub page_num : ℕ
  pub cell_num : ℕ
  pub end_of_table : Bool

module _ {A : Type 0} where
  -- A result that has to be there, or the program ends.
  unfoldable pub or_exit : Option A → M A
  or_exit none = exit_failure
  or_exit (some a) = pure a

  unfoldable pub or_out_of_fuel : Option A → M A
  or_out_of_fuel none = spent
  or_out_of_fuel (some a) = pure a

unfoldable pub leaf_node_find : Table → (page_num key : ℕ) → M Cursor
leaf_node_find t page_num key = do
  node ← get_page page_num
  cell_num ← or_out_of_fuel (leaf_find_index t node key)
  pure (record { table = t; page_num = page_num; cell_num = cell_num; end_of_table = false })

unfoldable pub internal_node_find : ℕ → Table → (page_num key : ℕ) → M Cursor
unfolding leaf_node_find
internal_node_find zero t page_num key = spent
internal_node_find (suc fuel) t page_num key = do
  node ← get_page page_num
  child_index ← or_out_of_fuel (internal_node_find_child node key)
  child_ptr ← or_exit (internal_node_child node child_index)
  let child_num = get_u32 node child_ptr
  child ← get_page child_num
  if get_node_type child == node_leaf
      then leaf_node_find t child_num key
      else if get_node_type child == node_internal
      then internal_node_find fuel t child_num key
      else exit_failure

unfoldable pub table_find : Table → (key : ℕ) → M Cursor
unfolding internal_node_find
table_find t key = do
  root_node ← get_page t.root_page_num
  if get_node_type root_node == node_leaf
      then leaf_node_find t t.root_page_num key
      else internal_node_find table_max_pages t t.root_page_num key

unfoldable pub table_start : Table → M Cursor
unfolding table_find
table_start t = do
  cursor ← table_find t 0
  node ← get_page (Cursor.page_num cursor)
  pure (record cursor { end_of_table = leaf_node_num_cells node == 0 })

-- The page and the offset of the row's value.
unfoldable pub cursor_value : Cursor → M (Page × ℕ)
cursor_value cursor = do
  page ← get_page cursor.page_num
  pure (page, tbl_leaf_value cursor.table cursor.cell_num)

unfoldable pub cursor_advance : Cursor → M Cursor
cursor_advance cursor = do
  node ← get_page cursor.page_num
  let next = (cursor.cell_num + 1) % u32_mod
  let next_page_num = leaf_node_next_leaf node
  if leb (leaf_node_num_cells node) next
      then (if next_page_num == 0
          then pure (record cursor { cell_num = next; end_of_table = true })
          else pure (record cursor { cell_num = 0; page_num = next_page_num }))
      else pure (record cursor { cell_num = next })

-- The key at the cursor.
unfoldable pub cursor_key : Cursor → M ℕ
cursor_key cursor = do
  node ← get_page cursor.page_num
  pure (tbl_leaf_key cursor.table node cursor.cell_num)

abbrev pub max_rows : ℕ
max_rows = table_max_pages * page_size

-- `while (!cursor->end_of_table)` over the keys of a table.
unfoldable pub fold_keys : {A : Type 0} → ℕ → (ℕ → A → A) → Cursor → A → M A
unfolding cursor_key cursor_advance
fold_keys zero step cursor acc = spent
fold_keys (suc fuel) step cursor acc = if Cursor.end_of_table cursor then pure acc else do
  key ← cursor_key cursor
  next ← cursor_advance cursor
  fold_keys fuel step next (step key acc)

-- The last key, and whether there is one.
unfoldable pub find_table_max_key : Table → M (ℕ × Bool)
find_table_max_key t = do
  cursor ← table_start t
  fold_keys max_rows (λ key acc. (key, true)) cursor (0, false)

unfoldable pub table_has_key : Table → (key : ℕ) → M Bool
unfolding table_find
table_has_key t key = do
  cursor ← table_find t key
  node ← get_page (Cursor.page_num cursor)
  pure (
      ltb (Cursor.cell_num cursor) (leaf_node_num_cells node)
      && tbl_leaf_key t node (Cursor.cell_num cursor) == key)

-- The result of master_find_table for a row of the catalog with the name, which ends the scan.
unfoldable pub found_table : ℕ → Text → Option (SqlSchema × ℕ)
found_table key payload = elim (split_schema_payload payload) [
  | none ↦ none
  | some schema ↦ some (schema, key)
]

unfoldable pub find_in_master : ℕ → (table_name : Text) → Cursor → M (Option (SqlSchema × ℕ))
unfolding cursor_key cursor_advance
find_in_master zero table_name cursor = spent
find_in_master (suc fuel) table_name cursor = if Cursor.end_of_table cursor then pure none else do
  key ← cursor_key cursor
  (node, off) ← cursor_value cursor
  let (root, name, payload) = catalog_read_value node off (schema_text_max + 1)
  if same_text_ci name table_name
      then pure (found_table key payload)
      else (do next ← cursor_advance cursor; find_in_master fuel table_name next)

-- The schema and the root page of a table.
unfoldable pub master_find_table : (table_name : Text) → M (Option (SqlSchema × ℕ))
unfolding find_in_master table_start
master_find_table table_name =
    if not (is_valid_identifier table_name max_table_name_length) then pure none else do
      master_root_page ← gets (λ s. s.master_root_page)
      cursor ← table_start (table_init_catalog master_root_page)
      find_in_master max_rows table_name cursor

unfoldable pub recover_next_root_page_from_master : (master_root_page : ℕ) → M ℕ
unfolding fold_keys table_start
recover_next_root_page_from_master master_root_page = do
  cursor ← table_start (table_init_catalog master_root_page)
  max_root ← fold_keys max_rows (λ k m. if ltb m k then k else m) cursor master_root_page
  if leb table_max_pages ((max_root + 1) % u32_mod)
      then exit_failure
      else pure ((max_root + 1) % u32_mod)
