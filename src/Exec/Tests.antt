-- ===== src/Exec/Tests.antt =====
-- Statements on a small database: an empty catalog in page 1, and a table with two rows in page 2.
use sqlyt.Base.{◌≡◌, refl, some, none, [], ◌∷◌, false, true, update}
use sqlyt.Page.{zero_page, put_u32}
use sqlyt.Node.{set_leaf_node_num_cells, leaf_node_num_cells}
use sqlyt.Pager.{Pager, Run, done, exited, fault, out_of_fuel, ◌>>=◌}
use sqlyt.Pager.Wal.{pager_open}
use sqlyt.Pager.Cache.Reads.{Reads}
use sqlyt.Pager.Unwritten.{Unwritten}
use sqlyt.Pager.Header.{codes, write_header}
use sqlyt.Table.{Table, table_init_catalog}
use sqlyt.Parser.Statements.{
  SqlStatement, statement, sql_stmt_select, sql_stmt_create_table, sql_stmt_drop_table, id_column,
}
use sqlyt.Database.{root_leaf}
use sqlyt.Exec.{sql_exec_ok, sql_exec_table_not_found}
use sqlyt.Exec.Statement.{execute_statement, execute_sql}
use sqlyt.Exec.Refused.{is_refused}
use sqlyt.Exec.Refused.Statement.{execute_statement-is_refused, execute_select-Reads}
use sqlyt.Exec.Unwritten.Statement.{begun, executed, transaction-Unwritten}
use sqlyt.Catalog.{catalog_write_value, strncpy}
use sqlyt.Cursor.{
  find_in_master, leaf_node_find, master_find_table, or_out_of_fuel, table_find, table_start,
}
use sqlyt.Database.{allocate_next_root_page, create_table_root}
use sqlyt.Exec.{is_ok, with_layout, with_table}
use sqlyt.Exec.Change.{drop_in_master, execute_drop_table}
use sqlyt.Exec.Create.{add_table, execute_create_table, result_of}
use sqlyt.Exec.Select.{execute_select}
use sqlyt.Exec.Statement.{execute_on, is_write, print_sql_execute_result, result_message, silent}
use sqlyt.Leaf.{insert_cell, shift_cells_up, write_cell}
use sqlyt.Node.{
  get_node_type, initialize_leaf_node, set_leaf_node_next_leaf, set_node_root, set_node_type,
}
use sqlyt.Page.{get_u32, memcpy, memset, of_bytes, put_u8}
use sqlyt.Pager.{exit_failure, gets, modify, pure, read_page, spent}
use sqlyt.Pager.Cache.{cache_page, get_page, load_page, mark_page_dirty, pages_in_file, poke}
use sqlyt.Pager.Header.{same_bytes}
use sqlyt.Parser.Number.{decimal_digits, print_u32}
use sqlyt.Parser.Payload.{column_text, make_schema_payload, write_columns}
use sqlyt.Parser.Text.{is_valid_identifier, same_text_ci}
use sqlyt.Search.{leaf_find_index, leaf_find_loop}
use sqlyt.Table.{compute_row_layout, layout_fields, tbl_leaf_cell, tbl_leaf_key, tbl_leaf_value}
use sqlyt.Tree.Grow.{insert_row_into_table, leaf_node_insert}
use sqlyt.Tree.RootLeaf.Change.{written}

abbrev empty_db : Pager
empty_db = record {
  file = record { size = 0; byte = λ k. 0 };
  file_length = 0;
  num_pages = 2;
  master_root_page = 1;
  next_root_page = 2;
  free_page_head = 0;
  pages =
      update (update (λ i. none) 0 (some (write_header zero_page 1 2))) 1
        (some (root_leaf zero_page));
  wal = record { frames = []; torn = 0 };
  page_to_wal_frame = λ i. 0;
  wal_frame_count = 0;
  page_dirty = λ i. false;
  checkpoint_in_progress = false;
}

abbrev catalog : Table
catalog = table_init_catalog 1

abbrev create_t : SqlStatement
create_t = record (statement sql_stmt_create_table (codes "t")) {
  schema = record { columns = id_column ∷ []; create_sql = [] };
}

abbrev drop_t : SqlStatement
drop_t = statement sql_stmt_drop_table (codes "t")

abbrev select_t : SqlStatement
select_t = statement sql_stmt_select (codes "t")

-- The state that a run ends in.
abbrev state_of : {A : Type 0} → Run A → Pager
state_of (done a s) = s
state_of exited = empty_db
state_of fault = empty_db
state_of out_of_fuel = empty_db

drop_missing :
    execute_statement true sql_exec_ok catalog drop_t empty_db
    ≡ done (sql_exec_table_not_found, []) empty_db
unfolding cache_page drop_in_master execute_drop_table execute_on execute_statement get_node_type
    get_page get_u32 gets initialize_leaf_node leaf_find_index leaf_find_loop leaf_node_find
    leaf_node_num_cells load_page memcpy memset of_bytes or_out_of_fuel pages_in_file pure put_u32
    put_u8 read_page root_leaf same_bytes same_text_ci set_leaf_node_next_leaf
    set_leaf_node_num_cells set_node_root set_node_type silent spent table_find table_init_catalog
    table_start tbl_leaf_cell tbl_leaf_key write_header ◌>>=◌
drop_missing = refl

select_missing :
    execute_select false select_t empty_db ≡ done (sql_exec_table_not_found, []) empty_db
unfolding cache_page execute_select find_in_master get_node_type get_page get_u32 gets
    initialize_leaf_node is_valid_identifier leaf_find_index leaf_find_loop leaf_node_find
    leaf_node_num_cells load_page master_find_table memcpy memset of_bytes or_out_of_fuel
    pages_in_file pure put_u32 put_u8 read_page root_leaf same_bytes same_text_ci
    set_leaf_node_next_leaf set_leaf_node_num_cells set_node_root set_node_type spent table_find
    table_init_catalog table_start tbl_leaf_cell tbl_leaf_key with_layout with_table write_header
    ◌>>=◌
select_missing = refl

abbrev created : Pager
created = state_of (execute_sql true true sql_exec_ok catalog create_t empty_db)

create_in_transaction :
    execute_sql true true sql_exec_ok catalog create_t empty_db ≡ done [] created
unfolding add_table allocate_next_root_page cache_page catalog_write_value column_text
    compute_row_layout create_table_root decimal_digits execute_create_table execute_on execute_sql
    execute_statement exit_failure find_in_master get_node_type get_page get_u32 gets
    initialize_leaf_node insert_cell insert_row_into_table is_ok is_valid_identifier is_write
    layout_fields leaf_find_index leaf_find_loop leaf_node_find leaf_node_insert leaf_node_num_cells
    load_page make_schema_payload mark_page_dirty master_find_table memcpy memset modify of_bytes
    or_out_of_fuel pages_in_file poke print_sql_execute_result print_u32 pure put_u32 put_u8
    read_page result_message result_of root_leaf same_bytes same_text_ci set_leaf_node_next_leaf
    set_leaf_node_num_cells set_node_root set_node_type shift_cells_up silent spent strncpy
    table_find table_init_catalog table_start tbl_leaf_cell tbl_leaf_key tbl_leaf_value write_cell
    write_columns write_header written ◌>>=◌
create_in_transaction = refl

not_found-is_refused : is_refused sql_exec_table_not_found ≡ true
unfolding is_refused
not_found-is_refused = refl

execute_statement-is_refused_example : Reads empty_db empty_db
execute_statement-is_refused_example =
    execute_statement-is_refused true sql_exec_ok catalog drop_t empty_db empty_db
      sql_exec_table_not_found [] drop_missing not_found-is_refused

execute_select-Reads_example : Reads empty_db empty_db
execute_select-Reads_example =
    execute_select-Reads false select_t empty_db empty_db (sql_exec_table_not_found, [])
      select_missing

transaction-Unwritten_example :
    Unwritten empty_db created
    × (pager_open created.file created.wal ≡ pager_open empty_db.file empty_db.wal)
transaction-Unwritten_example =
    transaction-Unwritten {db = catalog}
      (executed true sql_exec_ok create_t [] begun create_in_transaction)
