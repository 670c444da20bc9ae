-- ===== src/Tree/RootLeaf.antt =====
-- A table whose root is a leaf: what the operations on the tree do to its rows, as a table from keys to values.
pub mod Change
pub mod Scan
use sqlyt.Base.{
  ℕ, zero, ◌+◌, ◌≤◌, ◌<◌, ◌≡◌, ◌≢◌, refl, sym, ap, ◌∙◌, arith, Bool, true, false, Option, none,
  some, List, ltb, ◌==◌, ◌&&◌, if◌then◌else◌,
}
use sqlyt.Page.{Page, u32_mod}
use sqlyt.Node.{table_max_pages, node_leaf, get_node_type, is_node_root, leaf_node_num_cells}
use sqlyt.Pager.{Pager, done, pure, ◌>>=◌}
use sqlyt.Pager.Cache.{get_page}
use sqlyt.Pager.Cache.Load.{seen, with_cached, get_page-done, with_cached-pages, seen-with_cached}
use sqlyt.Pager.Cache.Reads.{Reads, with_cached-Reads}
use sqlyt.Table.{Table, tbl_leaf_key}
use sqlyt.Table.Layout.{IsTable, max_cells-le}
use sqlyt.Leaf.{leaf_rows}
use sqlyt.Leaf.Keyed.{has_key, IsSorted, rows_from-IsAscending, has_key-Splits}
use sqlyt.Search.{leaf_find_index}
use sqlyt.Search.Bound.{IsAscending, Splits, Finds, finds, leaf_find_index-Finds}
use sqlyt.Cursor.{Cursor, or_out_of_fuel, leaf_node_find, table_find, table_has_key}

-- The root of `t` shows the page `p`, a leaf with sorted rows that is not overfull.
pub record RootLeaf (t : Table) (s : Pager) (p : Page) : Type 0 where
  pub shown : seen s t.root_page_num ≡ some p
  pub in_range : t.root_page_num < table_max_pages
  pub is_leaf : get_node_type p ≡ node_leaf
  pub is_root : is_node_root p ≡ true
  pub few : leaf_node_num_cells p ≤ t.max_cells
  pub sorted : IsSorted (leaf_rows t p)

-- The cursor at a cell of the root.
abbrev pub root_cell : Table → ℕ → Cursor
root_cell t r = record { table = t; page_num = t.root_page_num; cell_num = r; end_of_table = false }

-- A page in the cache is read without a change.
get_page_cached :
    (s : Pager) (n : ℕ) (p : Page)
    → n < table_max_pages
    → s.pages n ≡ some p
    → get_page n s ≡ done p s
unfolding get_page
get_page_cached s n p h e = ground arith

module _ (t : Table) (is : IsTable t) (s : Pager) (p : Page) (root : RootLeaf t s p) where
  -- The state behind the first look at the root.
  abbrev pub found : Pager
  found = with_cached s t.root_page_num p

  pub found-pages : found.pages t.root_page_num ≡ some p
  found-pages = with_cached-pages s t.root_page_num p root.shown

  pub found-Reads : Reads s found
  found-Reads = with_cached-Reads s t.root_page_num p root.shown

  get_page-root : get_page t.root_page_num s ≡ done p found
  get_page-root = get_page-done s t.root_page_num p root.shown root.in_range

  pub get_page-found : get_page t.root_page_num found ≡ done p found
  get_page-found = get_page_cached found t.root_page_num p root.in_range found-pages

  pub ascending : IsAscending (tbl_leaf_key t p) (leaf_node_num_cells p)
  unfolding leaf_rows
  ascending i j a b =
      rows_from-IsAscending t p (leaf_node_num_cells p) 0 root.sorted i j (omega arith) a
        (omega arith)

  key_found :
      (key : ℕ) → Finds (tbl_leaf_key t p) (leaf_node_num_cells p) key (leaf_find_index t p key)
  key_found key =
      leaf_find_index-Finds t p key ascending (omega (arith, root.few, max_cells-le t is))

  module _ (key r : ℕ) (index : leaf_find_index t p key ≡ some r) where
    pub table_find-root : table_find t key s ≡ done (root_cell t r) found
    unfolding table_find leaf_node_find or_out_of_fuel ◌>>=◌ pure
    table_find-root = rw (get_page-root, root.is_leaf, get_page-found, index)

  pub leaf_find_index-Splits :
      (key : ℕ)
      → (r : ℕ) × (leaf_find_index t p key ≡ some r)
        × Splits (tbl_leaf_key t p) (leaf_node_num_cells p) key r
  leaf_find_index-Splits key = from (leaf_find_index t p key) refl (key_found key)
    where
      from :
          (o : Option ℕ)
          → leaf_find_index t p key ≡ o
          → Finds (tbl_leaf_key t p) (leaf_node_num_cells p) key o
          → (r : ℕ) × (leaf_find_index t p key ≡ some r)
            × Splits (tbl_leaf_key t p) (leaf_node_num_cells p) key r
      from _ e (finds split) = (_, e, split)

  -- The cell that the search finds holds the key just if some row has it.
  pub found-has_key :
      (key r : ℕ)
      → Splits (tbl_leaf_key t p) (leaf_node_num_cells p) key r
      → (ltb r (leaf_node_num_cells p) && tbl_leaf_key t p r == key) ≡ has_key key (leaf_rows t p)
  unfolding leaf_rows
  found-has_key key r split = sym (
      has_key-Splits t p key r (leaf_node_num_cells p) split (leaf_node_num_cells p) 0 (omega arith)
        (omega arith) ascending)

  -- On a table whose root is a leaf with sorted rows, table_has_key returns, says whether a row has the key, and
  -- leaves the database as it found it.
  pub table_has_key-root :
      (key : ℕ) → (table_has_key t key s ≡ done (has_key key (leaf_rows t p)) found) × Reads s found
  unfolding table_has_key ◌>>=◌ pure
  table_has_key-root key =
      let (r, e, split) = leaf_find_index-Splits key in
      (rw (table_find-root key r e, get_page-found, found-has_key key r split), found-Reads)
