-- ===== src/Exec/Insert/Tests.antt =====
-- Two rows without a key of their own, for a table whose only row has the key 9.
use sqlyt.Base.{◌≡◌, refl, some, none, List, arith, [], ◌∷◌, false, true, update}
use sqlyt.Page.{zero_page}
use sqlyt.Pager.{Pager, done}
use sqlyt.Pager.Header.{codes}
use sqlyt.Table.{Table}
use sqlyt.Parser.Insert.{InsertRow}
use sqlyt.Parser.Statements.{id_column}
use sqlyt.Database.{root_leaf}
use sqlyt.Exec.{sql_exec_ok}
use sqlyt.Exec.Insert.{LastKey, validate_rows}
use sqlyt.Exec.Insert.Keys.{keys_of, AllFresh, validate_rows-AllFresh, row_key_new}
use sqlyt.Leaf.{Row}
use sqlyt.Leaf.Keyed.{has_key}
use sqlyt.Tree.RootLeaf.Scan.{IsMaxKey}
use sqlyt.Cursor.{leaf_node_find, or_out_of_fuel, table_find, table_has_key}
use sqlyt.Exec.Insert.{next_last_key, packed_row, row_key, row_values}
use sqlyt.Node.{
  get_node_type, initialize_leaf_node, leaf_node_num_cells, set_leaf_node_next_leaf,
  set_leaf_node_num_cells, set_node_root, set_node_type,
}
use sqlyt.Page.{get_u32, memcpy, memset, of_bytes, put_u32, put_u8}
use sqlyt.Pager.{pure, read_page, spent, ◌>>=◌}
use sqlyt.Pager.Cache.{cache_page, get_page, load_page, pages_in_file}
use sqlyt.Parser.Number.{
  decimal_digits, decimal_value, parse_u32, print_u32, sign, skip_white, strtoul,
}
use sqlyt.Parser.Values.{
  pack_insert_row_values, pack_value, pack_values, parse_u32_tokens_for_insert_values,
  value_is_valid, values_are_valid,
}
use sqlyt.Search.{leaf_find_index, leaf_find_loop}
use sqlyt.Table.{tbl_leaf_cell, tbl_leaf_key}

abbrev table : Table
table = record {
  root_page_num = 2;
  is_catalog = false;
  value_size = 4;
  cell_size = 8;
  max_cells = 500;
  schema = record { columns = id_column ∷ []; create_sql = [] };
  row_layout = record { value_size = 4; fields = record { offset = 0; size = 4 } ∷ [] };
}

abbrev db : Pager
db = record {
  file = record { size = 0; byte = λ k. 0 };
  file_length = 0;
  num_pages = 3;
  master_root_page = 1;
  next_root_page = 3;
  free_page_head = 0;
  pages =
      update (λ i. none) 2 (some (put_u32 (set_leaf_node_num_cells (root_leaf zero_page) 1) 14 9));
  wal = record { frames = []; torn = 0 };
  page_to_wal_frame = λ i. 0;
  wal_frame_count = 0;
  page_dirty = λ i. false;
  checkpoint_in_progress = false;
}

abbrev auto_row : InsertRow
auto_row = record { values = codes "null" ∷ []; id = 0; auto_id = true }

abbrev last : LastKey
last = record { max_key = 9; has_rows = true }

auto_keys : keys_of last (auto_row ∷ auto_row ∷ []) ≡ 10 ∷ 11 ∷ []
unfolding keys_of next_last_key row_key
auto_keys = refl

validated : validate_rows table (auto_row ∷ auto_row ∷ []) [] last db ≡ done sql_exec_ok db
unfolding cache_page decimal_digits decimal_value get_node_type get_page get_u32
    initialize_leaf_node leaf_find_index leaf_find_loop leaf_node_find leaf_node_num_cells load_page
    memcpy memset next_last_key of_bytes or_out_of_fuel pack_insert_row_values pack_value
    pack_values packed_row pages_in_file parse_u32 parse_u32_tokens_for_insert_values print_u32 pure
    put_u32 put_u8 read_page root_leaf row_key row_values set_leaf_node_next_leaf
    set_leaf_node_num_cells set_node_root set_node_type sign skip_white spent strtoul table_find
    table_has_key tbl_leaf_cell tbl_leaf_key validate_rows value_is_valid values_are_valid ◌>>=◌
validated = refl

validate_rows-AllFresh_example : AllFresh [] (keys_of last (auto_row ∷ auto_row ∷ []))
validate_rows-AllFresh_example =
    validate_rows-AllFresh table (auto_row ∷ auto_row ∷ []) last db db validated

-- The rows of the table, in which 9 is the largest key.
nine : List Row
nine = record { key = 9; value = 0 ∷ [] } ∷ []

nine-IsMaxKey : IsMaxKey (9, true) nine
unfolding nine
nine-IsMaxKey = record {
  none_if_empty = λ e. absurd cc;
  is_key = λ e. refl;
  largest = λ e. (omega arith, tt);
}

row_key_new_example : has_key (row_key last auto_row) nine ≡ false
row_key_new_example = row_key_new last auto_row nine refl (omega arith) nine-IsMaxKey
