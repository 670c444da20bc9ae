-- ===== src/Table.antt =====
-- Tables: `SqlSchema`, `RowLayout` and `Table` of include/sqlyt.h, and the functions of src/btree.c
-- that compute the layout of a row and of a leaf cell. The columns of a schema are a list, whose
-- length is `column_count`; the pager of a table is the state that the code runs on.
pub mod Layout
mod Tests
use sqlyt.Base.{
  ℕ, ◌+◌, ◌*◌, ◌/◌, ◌%◌, ◌<◌, Bool, true, false, ◌||◌, Option, none, some, List, [], ◌∷◌, ltb, leb,
  ◌==◌, if◌then◌else◌, length,
}
use sqlyt.Page.{Page, u32_mod, get_u32}
use sqlyt.Node.{leaf_node_header_size, leaf_node_key_size, leaf_node_space_for_cells}

abbrev pub max_table_name_length : ℕ
max_table_name_length = 28

abbrev pub max_schema_columns : ℕ
max_schema_columns = 10

abbrev pub max_column_name_length : ℕ
max_column_name_length = 24

abbrev pub max_cell_text : ℕ
max_cell_text = 64

abbrev pub column_type_int : ℕ
column_type_int = 1

abbrev pub column_type_text : ℕ
column_type_text = 2

abbrev pub catalog_table_name_size : ℕ
catalog_table_name_size = 32

abbrev pub catalog_schema_storage : ℕ
catalog_schema_storage = 512

abbrev pub catalog_value_size : ℕ
catalog_value_size = 4 + catalog_table_name_size + catalog_schema_storage

abbrev pub schema_text_max : ℕ
schema_text_max = catalog_schema_storage

-- Text is the list of its bytes, without the terminating zero.
abbrev pub Text : Type 0
Text = List ℕ

pub record Column : Type 0 where
  pub name : Text
  pub type : ℕ
  pub max : ℕ

pub record SqlSchema : Type 0 where
  pub columns : List Column
  pub create_sql : Text

abbrev pub empty_schema : SqlSchema
empty_schema = record { columns = []; create_sql = [] }

-- One column of a RowLayout: `col_offset[i]` and `col_size[i]`.
pub record Field : Type 0 where
  pub offset : ℕ
  pub size : ℕ

pub record RowLayout : Type 0 where
  pub value_size : ℕ
  pub fields : List Field

abbrev pub empty_layout : RowLayout
empty_layout = record { value_size = 0; fields = [] }

pub record Table : Type 0 where
  pub root_page_num : ℕ
  pub is_catalog : Bool
  pub value_size : ℕ
  pub cell_size : ℕ
  pub max_cells : ℕ
  pub schema : SqlSchema
  pub row_layout : RowLayout

abbrev pub column_size : Column → ℕ
column_size c = if c.type == column_type_int then 4 else c.max

-- The loop of compute_row_layout: the fields from offset `value_size` on, and the size at the end.
unfoldable pub layout_fields : ℕ → List Column → RowLayout
layout_fields value_size [] = record { value_size = value_size; fields = [] }
layout_fields value_size (c ∷ cs) =
    let rest = layout_fields ((value_size + column_size c) % u32_mod) cs in
    record {
      value_size = rest.value_size;
      fields = record { offset = value_size; size = column_size c } ∷ rest.fields;
    }

-- The layout is filled in whether or not the row fits.
unfoldable pub compute_row_layout : SqlSchema → Bool × RowLayout
unfolding layout_fields
compute_row_layout schema =
    let layout = layout_fields 0 schema.columns in
    let cell = (leaf_node_key_size + layout.value_size) % u32_mod in
    if (layout.value_size == 0) || ltb leaf_node_space_for_cells cell
    then (false, layout)
    else (true, layout)

unfoldable pub table_init_catalog : (master_root_page : ℕ) → Table
table_init_catalog master_root_page = record {
  root_page_num = master_root_page;
  is_catalog = true;
  value_size = catalog_value_size;
  cell_size = leaf_node_key_size + catalog_value_size;
  max_cells = leaf_node_space_for_cells / (leaf_node_key_size + catalog_value_size);
  schema = empty_schema;
  row_layout = empty_layout;
}

-- The table that table_init_user fills in for a layout.
abbrev pub user_table : (root_page : ℕ) → SqlSchema → RowLayout → Table
user_table root_page schema layout = record {
  root_page_num = root_page;
  is_catalog = false;
  value_size = layout.value_size;
  cell_size = (leaf_node_key_size + layout.value_size) % u32_mod;
  max_cells = leaf_node_space_for_cells / ((leaf_node_key_size + layout.value_size) % u32_mod);
  schema = schema;
  row_layout = layout;
}

-- `none` is the result false.
unfoldable pub table_init_user : (root_page : ℕ) → SqlSchema → Option Table
table_init_user root_page schema =
    let (fits, layout) = compute_row_layout schema in
    if fits
    then (if ltb 0 (user_table root_page schema layout).max_cells
        then some (user_table root_page schema layout)
        else none)
    else none

-- The offset of a leaf cell; its key comes first. The product, of two uint32_t, is not taken modulo
-- 2 ^ 32: for the cells of a page it stays below.
unfoldable pub tbl_leaf_cell : Table → ℕ → ℕ
tbl_leaf_cell t cell_num = leaf_node_header_size + cell_num * t.cell_size

unfoldable pub tbl_leaf_key : Table → Page → ℕ → ℕ
unfolding tbl_leaf_cell
tbl_leaf_key t node cell_num = get_u32 node (tbl_leaf_cell t cell_num)

unfoldable pub tbl_leaf_value : Table → ℕ → ℕ
unfolding tbl_leaf_cell
tbl_leaf_value t cell_num = tbl_leaf_cell t cell_num + leaf_node_key_size
