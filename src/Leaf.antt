-- ===== src/Leaf.antt =====
-- What the leaf operations of src/btree.c do to the bytes of leaf pages: the shift and the write of
-- leaf_node_insert, the memmove of leaf_node_delete, and the loop of leaf_node_split_and_insert. A
-- row that is written is a buffer of its own.
mod Tests
pub mod Cells
pub mod Rows
pub mod Insert
pub mod Delete
pub mod Split
pub mod Keyed
use sqlyt.Base.{
  ℕ, zero, suc, ◌+◌, ◌-◌, ◌*◌, ◌/◌, ◌≤◌, ◌<◌, List, [], ◌∷◌, ltb, leb, ◌==◌, if◌then◌else◌,
}
use sqlyt.Page.{Page, put_u32, memcpy, slice}
use sqlyt.Node.{
  leaf_node_num_cells, set_leaf_node_num_cells, node_parent, set_node_parent, leaf_node_next_leaf,
  set_leaf_node_next_leaf, initialize_leaf_node,
}
use sqlyt.Table.{Table, tbl_leaf_cell, tbl_leaf_key, tbl_leaf_value}

abbrev pub copy_cell : Table → Page → ℕ → Page → ℕ → Page
copy_cell t p to q from = memcpy p (tbl_leaf_cell t to) q (tbl_leaf_cell t from) t.cell_size

-- `for (i = i0; i > cell_num; i--)` with `n` rounds left.
unfoldable pub shift_cells_up : Table → (n i : ℕ) → Page → Page
shift_cells_up t zero i p = p
shift_cells_up t (suc n) i p = shift_cells_up t n (i - 1) (copy_cell t p i p (i - 1))

-- The key and the value written into a cell.
unfoldable pub write_cell : Table → ℕ → (key : ℕ) → (value : Page) → Page → Page
write_cell t cell_num key value p =
    memcpy (put_u32 p (tbl_leaf_cell t cell_num) key) (tbl_leaf_value t cell_num) value 0
      t.value_size

-- leaf_node_insert on a page with room for one more cell.
unfoldable pub insert_cell : Table → (cell_num key : ℕ) → (value : Page) → Page → Page
unfolding shift_cells_up write_cell
insert_cell t cell_num key value node =
    let num_cells = leaf_node_num_cells node in
    let shifted =
      if ltb cell_num num_cells
      then shift_cells_up t (num_cells - cell_num) num_cells node
      else node in
    write_cell t cell_num key value
      (set_leaf_node_num_cells shifted (leaf_node_num_cells shifted + 1))

-- leaf_node_delete on a page that has the cell, up to the rebalancing.
unfoldable pub delete_cell : Table → (cell_num : ℕ) → Page → Page
delete_cell t cell_num node =
    let num_cells = leaf_node_num_cells node in
    let moved =
      if ltb cell_num (num_cells - 1)
      then memcpy node (tbl_leaf_cell t cell_num) node (tbl_leaf_cell t (cell_num + 1))
          ((num_cells - cell_num - 1) * t.cell_size)
      else node in
    set_leaf_node_num_cells moved (leaf_node_num_cells moved - 1)

-- The value and the key written into a cell, in the order of leaf_node_split_and_insert.
unfoldable pub write_split_cell : Table → ℕ → (key : ℕ) → (value : Page) → Page → Page
write_split_cell t cell_num key value p =
    put_u32 (memcpy p (tbl_leaf_value t cell_num) value 0 t.value_size) (tbl_leaf_cell t cell_num)
      key

-- What the body of the loop of leaf_node_split_and_insert writes to cell `to` of the destination.
unfoldable pub split_cell :
    Table → (cell_num key : ℕ) → (value old : Page) → (i to : ℕ) → Page → Page
unfolding write_split_cell
split_cell t cell_num key value old i to p =
    if i == cell_num
    then write_split_cell t to key value p
    else if ltb cell_num i
    then copy_cell t p to old (i - 1)
    else copy_cell t p to old i

-- The loop, over the indices below `n`, from the last one down; the pages are the old and the new node.
unfoldable pub split_cells :
    Table → (left_split cell_num key : ℕ) → (value : Page) → ℕ → Page × Page → Page × Page
unfolding split_cell
split_cells t left cell_num key value zero pages = pages
split_cells t left cell_num key value (suc i) (old, new) =
    let next =
      if leb left i
      then (old, split_cell t cell_num key value old i (i - left) new)
      else (split_cell t cell_num key value old i i old, new) in
    split_cells t left cell_num key value i next

-- `(max_c + 1) / 2`, and the rest.
abbrev pub right_split : Table → ℕ
right_split t = (t.max_cells + 1) / 2

abbrev pub left_split : Table → ℕ
left_split t = t.max_cells + 1 - right_split t

-- leaf_node_split_and_insert on the full node and the new page `new_page_num`, up to the links to
-- the parent.
unfoldable pub split_leaf :
    Table → (cell_num key : ℕ) → (value : Page) → (new_page_num : ℕ) → Page × Page → Page × Page
unfolding split_cells
split_leaf t cell_num key value new_page_num (old, new) =
    let made = set_node_parent (initialize_leaf_node new) (node_parent old) in
    let linked = set_leaf_node_next_leaf made (leaf_node_next_leaf old) in
    let pages =
      split_cells t (left_split t) cell_num key value (t.max_cells + 1)
        (set_leaf_node_next_leaf old new_page_num, linked) in
    (
      set_leaf_node_num_cells pages.0 (left_split t),
      set_leaf_node_num_cells pages.1 (right_split t),
    )

-- A row as a reader sees it.
pub record Row : Type 0 where
  pub key : ℕ
  pub value : List ℕ

unfoldable pub row_at : Table → Page → ℕ → Row
row_at t p i = record {
  key = tbl_leaf_key t p i;
  value = slice p (tbl_leaf_value t i) t.value_size;
}

-- The rows in the `n` cells from cell `i` on, and those of a leaf.
unfoldable pub rows_from : Table → Page → (n i : ℕ) → List Row
rows_from t p zero i = []
rows_from t p (suc n) i = row_at t p i ∷ rows_from t p n (i + 1)

unfoldable pub leaf_rows : Table → Page → List Row
leaf_rows t p = rows_from t p (leaf_node_num_cells p) 0
