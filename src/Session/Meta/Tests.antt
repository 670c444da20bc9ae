-- ===== src/Session/Meta/Tests.antt =====
-- A session with an open transaction on an empty database.
use sqlyt.Base.{◌≡◌, refl, some, none, [], ◌∷◌, Bool, false, true, update}
use sqlyt.Page.{zero_page}
use sqlyt.Pager.{Pager}
use sqlyt.Pager.Header.{codes, write_header}
use sqlyt.Table.{Text, table_init_catalog}
use sqlyt.Parser.Statements.{SqlStatement, statement, sql_stmt_create_table, id_column}
use sqlyt.Database.{root_leaf}
use sqlyt.Session.{Database, Session, Outcome, returned, ended, faulted, unfinished}
use sqlyt.Session.Meta.{line_done, line_failed, sql_line, process_line}
use sqlyt.Session.Meta.Lines.{StillOpen, sql_line-in_transaction}
use sqlyt.App.{leading_blanks, normalize_input_line, trim_end}
use sqlyt.Catalog.{catalog_write_value, strncpy}
use sqlyt.Cursor.{
  find_in_master, leaf_node_find, master_find_table, or_out_of_fuel, table_find, table_start,
}
use sqlyt.Database.{allocate_next_root_page, create_table_root}
use sqlyt.Exec.{is_ok}
use sqlyt.Exec.Create.{add_table, execute_create_table, result_of}
use sqlyt.Exec.Statement.{
  execute_on, execute_sql, execute_statement, is_write, print_sql_execute_result, result_message,
  silent,
}
use sqlyt.Leaf.{insert_cell, shift_cells_up, write_cell}
use sqlyt.Node.{
  get_node_type, initialize_leaf_node, leaf_node_num_cells, set_leaf_node_next_leaf,
  set_leaf_node_num_cells, set_node_root, set_node_type,
}
use sqlyt.Page.{get_u32, memcpy, memset, of_bytes, put_u32, put_u8}
use sqlyt.Pager.{exit_failure, gets, modify, pure, read_page, spent, ◌>>=◌}
use sqlyt.Pager.Cache.{cache_page, get_page, load_page, mark_page_dirty, pages_in_file, poke}
use sqlyt.Pager.Header.{same_bytes}
use sqlyt.Parser.Number.{decimal_digits, print_u32}
use sqlyt.Parser.Payload.{column_text, make_schema_payload, write_columns}
use sqlyt.Parser.Statements.{
  blank_equals, parse_create_database, parse_create_table, parse_delete_from, parse_drop_table,
  parse_insert_into, parse_select_from, parse_sql_statement, parse_update_table,
}
use sqlyt.Parser.Text.{
  consume_keyword_ci, identifier_prefix, is_valid_identifier, parse_identifier_token_ci,
  same_text_ci, skip_spaces,
}
use sqlyt.Parser.Tokens.{next_token, skip_separators, split_tokens_sql, token}
use sqlyt.Search.{leaf_find_index, leaf_find_loop}
use sqlyt.Session.{is_create_database, on_run, run_on_database, run_statement, then_do}
use sqlyt.Session.Meta.{meta_result, normalized_line}
use sqlyt.Table.{compute_row_layout, layout_fields, tbl_leaf_cell, tbl_leaf_key, tbl_leaf_value}
use sqlyt.Tree.Grow.{insert_row_into_table, leaf_node_insert}
use sqlyt.Tree.RootLeaf.Change.{written}

abbrev empty_db : Pager
empty_db = record {
  file = record { size = 0; byte = λ k. 0 };
  file_length = 0;
  num_pages = 2;
  master_root_page = 1;
  next_root_page = 2;
  free_page_head = 0;
  pages =
      update (update (λ i. none) 0 (some (write_header zero_page 1 2))) 1
        (some (root_leaf zero_page));
  wal = record { frames = []; torn = 0 };
  page_to_wal_frame = λ i. 0;
  wal_frame_count = 0;
  page_dirty = λ i. false;
  checkpoint_in_progress = false;
}

abbrev db : Database
db = record { catalog = table_init_catalog 1; pager = empty_db }

abbrev session : Session
session = record {
  options = record { quiet = true; timer_enabled = false; in_transaction = true };
  directories = λ name. none;
  has_active_database = true;
  active_database = codes "d";
  database = some db;
}

abbrev no_mkdir : Text → Bool
no_mkdir name = false

abbrev create_t : SqlStatement
create_t = record (statement sql_stmt_create_table (codes "t")) {
  schema = record { columns = id_column ∷ []; create_sql = [] };
}

-- The session that a line ends in.
abbrev session_of : {A : Type 0} → Outcome A → Session
session_of (returned a s) = s
session_of ended = session
session_of faulted = session
session_of unfinished = session

abbrev after_create : Session
after_create = session_of (sql_line no_mkdir (some create_t) session)

create_line : sql_line no_mkdir (some create_t) session ≡ returned (line_done, []) after_create
unfolding add_table allocate_next_root_page cache_page catalog_write_value column_text
    compute_row_layout create_table_root decimal_digits execute_create_table execute_on execute_sql
    execute_statement exit_failure find_in_master get_node_type get_page get_u32 gets
    initialize_leaf_node insert_cell insert_row_into_table is_create_database is_ok
    is_valid_identifier is_write layout_fields leaf_find_index leaf_find_loop leaf_node_find
    leaf_node_insert leaf_node_num_cells load_page make_schema_payload mark_page_dirty
    master_find_table memcpy memset modify of_bytes on_run or_out_of_fuel pages_in_file poke
    print_sql_execute_result print_u32 pure put_u32 put_u8 read_page result_message result_of
    root_leaf run_on_database run_statement same_bytes same_text_ci set_leaf_node_next_leaf
    set_leaf_node_num_cells set_node_root set_node_type shift_cells_up silent spent sql_line strncpy
    table_find table_init_catalog table_start tbl_leaf_cell tbl_leaf_key tbl_leaf_value then_do
    write_cell write_columns write_header written ◌>>=◌
create_line = refl

sql_line-in_transaction_example : StillOpen empty_db after_create
sql_line-in_transaction_example =
    sql_line-in_transaction no_mkdir session db refl refl (some create_t) (line_done, [])
      after_create create_line

bad_line : process_line no_mkdir [] (codes " hello ") session ≡ returned (line_failed, []) session
unfolding blank_equals consume_keyword_ci identifier_prefix is_create_database is_valid_identifier
    leading_blanks meta_result next_token normalize_input_line normalized_line parse_create_database
    parse_create_table parse_delete_from parse_drop_table parse_identifier_token_ci
    parse_insert_into parse_select_from parse_sql_statement parse_update_table process_line
    same_bytes same_text_ci skip_separators skip_spaces split_tokens_sql sql_line then_do token
    trim_end
bad_line = refl
