-- ===== src/Table/Layout.antt =====
-- The layout of rows and cells: columns do not overlap, and cells fit into a page.
use native.Mathlib.Nat.{div-mul-le_self, le-div_iff_mul-le}
use sqlyt.Base.{
  ℕ, ◌+◌, ◌-◌, ◌*◌, ◌/◌, ◌%◌, ◌≤◌, ◌<◌, ◌≡◌, refl, subst, true, some, List, [], ◌∷◌, arith, length,
}
use sqlyt.Page.{u32_mod, page_size}
use sqlyt.Node.{leaf_node_header_size, leaf_node_key_size, leaf_node_space_for_cells}
use sqlyt.Table.{
  max_schema_columns, max_cell_text, Column, SqlSchema, Field, Table, column_size, layout_fields,
  compute_row_layout, table_init_catalog, user_table, table_init_user,
}

-- No column is wider than a text cell.
abbrev pub AllNarrow : List Column → Type 0
AllNarrow [] = Unit {0}
AllNarrow (c ∷ cs) = (c.max ≤ max_cell_text) × AllNarrow cs

-- Fields follow one another from offset `lo` to offset `hi`, with no gap and no overlap.
abbrev pub Tiles : (lo : ℕ) → List Field → (hi : ℕ) → Type 0
Tiles lo [] hi = lo ≡ hi
Tiles lo (f ∷ fs) hi = (f.offset ≡ lo) × Tiles (lo + f.size) fs hi

layout_fields-Tiles :
    (value_size : ℕ) (cs : List Column)
    → AllNarrow cs
    → value_size + length cs * max_cell_text < u32_mod
    → Tiles value_size (layout_fields value_size cs).fields (layout_fields value_size cs).value_size
      × ((layout_fields value_size cs).value_size ≤ value_size + length cs * max_cell_text)
unfolding layout_fields
layout_fields-Tiles v [] narrow few = (refl, omega arith)
layout_fields-Tiles v (c ∷ cs) narrow few =
    let small : column_size c ≤ max_cell_text = ground arith in
    let no_wrap : (v + column_size c) % u32_mod ≡ v + column_size c = omega arith in
    let (tiles, size) = layout_fields-Tiles (v + column_size c) cs narrow.1 (omega arith) in
    rw no_wrap ((refl, tiles), omega arith)

-- The layout of a schema with narrow columns, ten at most, tiles the row from 0 to its size,
-- whatever the result of the check.
pub compute_row_layout-Tiles :
    (schema : SqlSchema)
    → AllNarrow schema.columns
    → length schema.columns ≤ max_schema_columns
    → Tiles 0 (compute_row_layout schema).1.fields (compute_row_layout schema).1.value_size
unfolding compute_row_layout
compute_row_layout-Tiles schema narrow few =
    let t = layout_fields-Tiles 0 schema.columns narrow (omega arith) in ground (arith, t)

-- What the leaf operations need of a table: a key and a value make a cell, and the cells that may
-- be in a leaf fit into a page.
pub record IsTable (t : Table) : Type 0 where
  pub cell : t.cell_size ≡ leaf_node_key_size + t.value_size
  pub some_cell : 0 < t.max_cells
  pub fits : leaf_node_header_size + t.max_cells * t.cell_size ≤ page_size

max_le_of_mul : (m w v : ℕ) → w ≡ leaf_node_key_size + v → m ≤ m * w
max_le_of_mul m w v e = rw e (grind arith)

-- A leaf has fewer cells than a page has bytes.
pub max_cells-le : (t : Table) → IsTable t → t.max_cells ≤ page_size
max_cells-le t is =
    omega (arith, is.fits, max_le_of_mul t.max_cells t.cell_size t.value_size is.cell)

pub table_init_catalog-IsTable : (root : ℕ) → IsTable (table_init_catalog root)
unfolding table_init_catalog
table_init_catalog-IsTable root = record {
  cell = refl;
  some_cell = omega arith;
  fits = omega arith;
}

cells_fit :
    (w : ℕ)
    → 0 < w
    → w ≤ leaf_node_space_for_cells
    → (0 < leaf_node_space_for_cells / w)
      × (leaf_node_header_size + leaf_node_space_for_cells / w * w ≤ page_size)
cells_fit w pos fits = (
  (le-div_iff_mul-le pos).1 (omega arith),
  omega (arith, div-mul-le_self leaf_node_space_for_cells w),
)

compute_row_layout_fits :
    (schema : SqlSchema)
    → (compute_row_layout schema).0 ≡ true
    → (0 < (compute_row_layout schema).1.value_size)
      × ((leaf_node_key_size + (compute_row_layout schema).1.value_size) % u32_mod
          ≤ leaf_node_space_for_cells)
unfolding compute_row_layout
compute_row_layout_fits schema e = ground arith

table_init_user_inv :
    (root : ℕ) (schema : SqlSchema) (t : Table)
    → table_init_user root schema ≡ some t
    → ((compute_row_layout schema).0 ≡ true)
      × (user_table root schema (compute_row_layout schema).1 ≡ t)
unfolding table_init_user
table_init_user_inv root schema t e = ground arith

-- A table that table_init_user accepts, where the size of its rows does not wrap around, is laid out
-- within a page, its rows are not empty, and its root and schema are those given.
pub table_init_user-IsTable :
    (root : ℕ) (schema : SqlSchema) (t : Table)
    → table_init_user root schema ≡ some t
    → (compute_row_layout schema).1.value_size < u32_mod - leaf_node_key_size
    → IsTable t × (0 < t.value_size) × (t.root_page_num ≡ root) × (t.schema ≡ schema)
table_init_user-IsTable root schema t e small =
    let (ok, is) = table_init_user_inv root schema t e in
    let (pos, fits) = compute_row_layout_fits schema ok in
    let w = (leaf_node_key_size + (compute_row_layout schema).1.value_size) % u32_mod in
    let (some_cell, in_page) = cells_fit w (omega arith) fits in
    subst (λ u. IsTable u × (0 < u.value_size) × (u.root_page_num ≡ root) × (u.schema ≡ schema)) is
      (record { cell = omega arith; some_cell = some_cell; fits = in_page }, pos, refl, refl)
