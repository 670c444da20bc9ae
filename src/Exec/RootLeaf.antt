-- ===== src/Exec/RootLeaf.antt =====
-- DELETE on a table whose root is a leaf, and an INSERT that a DELETE takes back.
mod Tests
use sqlyt.Base.{
  ℕ, ◌<◌, ◌≡◌, refl, sym, ap, subst, ◌∙◌, arith, Bool, true, false, not, Option, some, ltb, ◌==◌,
  ◌&&◌, ◌||◌, List, [], ◌∷◌, if◌then◌else◌, Bool-cases, inl, inr,
}
use sqlyt.Page.{Page, u32_mod, slice}
use sqlyt.Node.{leaf_node_num_cells}
use sqlyt.Pager.{Pager, Run, done, pure, ◌>>=◌}
use sqlyt.Pager.Returns
use sqlyt.Pager.Returns.{Returns, returns}
use sqlyt.Pager.Cache.Reads.{Reads}
use sqlyt.Table.{Table, tbl_leaf_key}
use sqlyt.Table.Layout.{IsTable}
use sqlyt.Leaf.{Row, leaf_rows}
use sqlyt.Leaf.Keyed.{has_key, place, remove_key}
use sqlyt.Search.{leaf_find_index}
use sqlyt.Tree.Grow.{ExecuteResult, execute_success, execute_duplicate_key, insert_row_into_table}
use sqlyt.Tree.Shrink.{leaf_node_delete}
use sqlyt.Tree.RootLeaf.{
  RootLeaf, found, found-Reads, get_page-found, root_cell, table_find-root, leaf_find_index-Splits,
  found-has_key,
}
use sqlyt.Tree.RootLeaf.Change.{
  Changed, leaf_node_delete-root, deleted-Changed, insert_row_into_table-root,
}
use sqlyt.Exec.{SqlExecuteResult, sql_exec_ok, sql_exec_delete_record_not_found}
use sqlyt.Exec.Change.{delete_row}

module _ (t : Table) (is : IsTable t) (s : Pager) (p : Page) (root : RootLeaf t s p) where
  delete_row_missing :
      (id r : ℕ)
      → leaf_find_index t p id ≡ some r
      → (ltb r (leaf_node_num_cells p) && tbl_leaf_key t p r == id) ≡ false
      → delete_row id t s ≡ done sql_exec_delete_record_not_found (found t is s p root)
  unfolding delete_row ◌>>=◌ pure
  delete_row_missing id r e absent =
      rw (table_find-root t is s p root id r e, get_page-found t is s p root, absent)

  delete_row_present :
      (id r : ℕ) (s' : Pager)
      → leaf_find_index t p id ≡ some r
      → (ltb r (leaf_node_num_cells p) && tbl_leaf_key t p r == id) ≡ true
      → leaf_node_delete (root_cell t r) (found t is s p root) ≡ done (root_cell t r) s'
      → delete_row id t s ≡ done sql_exec_ok s'
  unfolding delete_row ◌>>=◌ pure
  delete_row_present id r s' e here run =
      rw (table_find-root t is s p root id r e, get_page-found t is s p root, here, run)

  -- On a table whose root is a leaf with sorted rows, DELETE by key returns. If a row has the key, it takes that
  -- row out of the sorted rows, marks the root dirty, and touches no other page; otherwise it reports that there is none
  -- and leaves the database as it found it.
  pub delete_row-root :
      (id : ℕ)
      → Returns
          (λ r s'.
            if has_key id (leaf_rows t p)
            then (r ≡ sql_exec_ok) × Changed t s s' (remove_key id (leaf_rows t p))
            else (r ≡ sql_exec_delete_record_not_found) × Reads s s')
          (delete_row id t s)
  delete_row-root id =
      let (r, e, split) = leaf_find_index-Splits t is s p root id in
      elim (Bool-cases (has_key id (leaf_rows t p))) [
        | inl here ↦
            rw
              (
                here,
                delete_row_present id r _ e (found-has_key t is s p root id r split ∙ here)
                    (leaf_node_delete-root t is s p root id r split here),
              )
              (returns (refl, deleted-Changed t is s p root id r split here))
        | inr absent ↦
            rw (absent, delete_row_missing id r e (found-has_key t is s p root id r split ∙ absent))
              (returns (refl, found-Reads t is s p root))
      ]

has_key-place : (r : Row) (xs : List Row) → has_key r.key (place r xs) ≡ true
unfolding place
has_key-place r [] = ground arith
has_key-place r (x ∷ xs) = ground (arith, has_key-place r xs)

remove_key-place :
    (r : Row) (xs : List Row) → has_key r.key xs ≡ false → remove_key r.key (place r xs) ≡ xs
unfolding place remove_key
remove_key-place r [] n = ground arith
remove_key-place r (x ∷ xs) n = ground (arith, remove_key-place r xs)

module _ (t : Table) (is : IsTable t) (s : Pager) (p : Page) (root : RootLeaf t s p) where
  -- On a table whose root is a leaf with sorted rows and room for one more, inserting a row with a key below 2 ^ 32 that no row has and deleting
  -- it by its key returns, reports success, and leaves the rows that were there.
  pub insert_row_into_table-delete_row :
      (key : ℕ) (value : Page)
      → key < u32_mod
      → leaf_node_num_cells p < t.max_cells
      → has_key key (leaf_rows t p) ≡ false
      → Returns
          (λ r s'. (r ≡ sql_exec_ok) × Changed t s s' (leaf_rows t p))
          ((insert_row_into_table t key value >>= λ u. delete_row key t) s)
  unfolding ◌>>=◌
  insert_row_into_table-delete_row key value small room new =
      Returns.bind (rw new at (insert_row_into_table-root t is s p root key value small room))
        (λ r s' h.
          Returns.mono
            (rw (h.1.rows_are, has_key-place row (leaf_rows t p)) at
              (delete_row-root t is s' h.1.page h.1.root key))
            (λ r' s'' k. (
              k.0,
              back h.1 (subst (Changed t s' s'') (remove_key-place row (leaf_rows t p) new) k.1),
            )))
    where
      row : Row
      row = record { key = key; value = slice value 0 t.value_size }

      back :
          {s1 s2 : Pager} {xs ys : List Row}
          → Changed t s s1 xs
          → Changed t s1 s2 ys
          → Changed t s s2 ys
      back a b = record {
        page = b.page;
        root = b.root;
        rows_are = b.rows_are;
        is_dirty = b.is_dirty;
        others = λ m h. b.others m h ∙ a.others m h;
      }
