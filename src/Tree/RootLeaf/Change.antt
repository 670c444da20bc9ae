-- ===== src/Tree/RootLeaf/Change.antt =====
-- insert_row_into_table and leaf_node_delete on a table whose root is a leaf.
use sqlyt.Base.{
  ℕ, ◌≤◌, ◌<◌, ◌≡◌, ◌≢◌, refl, sym, ap, subst, ◌∙◌, arith, Bool, true, false, not, some, List, ltb,
  ◌==◌, ◌&&◌, if◌then◌else◌, update, Bool-cases, inl, inr,
}
use sqlyt.Page.{Page, u32_mod, slice}
use sqlyt.Node.{table_max_pages, get_node_type, is_node_root, leaf_node_num_cells}
use sqlyt.Pager.{Pager, done, pure, ◌>>=◌}
use sqlyt.Pager.Returns.{Returns, returns}
use sqlyt.Pager.Cache.{get_page, mark_page_dirty, poke, load_page}
use sqlyt.Pager.Cache.Load.{seen}
use sqlyt.Pager.Cache.Reads.{Reads}
use sqlyt.Table.{Table, tbl_leaf_key}
use sqlyt.Table.Layout.{IsTable}
use sqlyt.Leaf.{insert_cell, delete_cell, Row, leaf_rows}
use sqlyt.Leaf.Insert.{insert_cell-insert_at, insert_cell-header, leaf_node_num_cells-insert_cell}
use sqlyt.Leaf.Delete.{delete_cell-erase_at, delete_cell-header, leaf_node_num_cells-delete_cell}
use sqlyt.Leaf.Keyed.{
  has_key, place, remove_key, IsSorted, place-IsSorted, remove_key-IsSorted, place-insert_at,
  remove_key-erase_at,
}
use sqlyt.Search.{leaf_find_index}
use sqlyt.Search.Bound.{Splits}
use sqlyt.Tree.Grow.{
  execute_success, execute_duplicate_key, leaf_node_insert, insert_row_into_table,
}
use sqlyt.Tree.Shrink.{rebalance_leaf_after_delete, leaf_node_delete}
use sqlyt.Tree.RootLeaf.{
  RootLeaf, found, found-pages, found-Reads, get_page-found, root_cell, table_find-root,
  leaf_find_index-Splits, found-has_key,
}

-- The state with other bytes in page `n`, which is dirty.
unfoldable pub written : Pager → ℕ → Page → Pager
written s n q = record s {
  pages = update s.pages n (some q);
  page_dirty = update s.page_dirty n true;
}

module _ (s : Pager) (n : ℕ) (q : Page) where
  seen-written : seen (written s n q) n ≡ some q
  unfolding seen written
  seen-written = ground arith

  seen-written_ne : (m : ℕ) → m ≢ n → seen (written s n q) m ≡ seen s m
  unfolding seen written load_page
  seen-written_ne m h = ground arith

  dirty-written : (written s n q).page_dirty n ≡ true
  unfolding written
  dirty-written = ground arith

  mark-poke :
      (f : Page → Page) (p : Page)
      → n < table_max_pages
      → s.pages n ≡ some p
      → f p ≡ q
      → (mark_page_dirty n >>= λ u. get_page n >>= λ node. poke n f) s ≡ done tt (written s n q)
  unfolding mark_page_dirty get_page poke written ◌>>=◌
  mark-poke f p h e fp = ground arith

  poke-mark :
      (f : Page → Page) (p : Page)
      → n < table_max_pages
      → s.pages n ≡ some p
      → f p ≡ q
      → (poke n f >>= λ u. mark_page_dirty n) s ≡ done tt (written s n q)
  unfolding mark_page_dirty poke written ◌>>=◌
  poke-mark f p h e fp = ground arith

-- A page with the same first bytes is a root and a leaf as well.
header_ext :
    (p q : Page)
    → q 0 ≡ p 0
    → q 1 ≡ p 1
    → (get_node_type q ≡ get_node_type p) × (is_node_root q ≡ is_node_root p)
unfolding get_node_type is_node_root
header_ext p q a b = (a, ap (λ (c : ℕ). not (c == 0)) b)

-- What a change of the root leaf comes to: it has other rows, is dirty, and no other page is touched.
pub record Changed (t : Table) (s s' : Pager) (rows : List Row) : Type 0 where
  pub page : Page
  pub root : RootLeaf t s' page
  pub rows_are : leaf_rows t page ≡ rows
  pub is_dirty : s'.page_dirty t.root_page_num ≡ true
  pub others : (m : ℕ) → m ≢ t.root_page_num → seen s' m ≡ seen s m

module _ (t : Table) (is : IsTable t) (s : Pager) (p : Page) (root : RootLeaf t s p) where
  abbrev at_root : Pager
  at_root = found t is s p root

  written-Changed :
      (q : Page)
      → get_node_type q ≡ get_node_type p
      → is_node_root q ≡ is_node_root p
      → leaf_node_num_cells q ≤ t.max_cells
      → IsSorted (leaf_rows t q)
      → Changed t s (written at_root t.root_page_num q) (leaf_rows t q)
  written-Changed q leaf flag few sorted = record {
    page = q;
    root = record {
      shown = seen-written at_root t.root_page_num q;
      in_range = root.in_range;
      is_leaf = leaf ∙ root.is_leaf;
      is_root = flag ∙ root.is_root;
      few = few;
      sorted = sorted;
    };
    rows_are = refl;
    is_dirty = dirty-written at_root t.root_page_num q;
    others =
        λ m h. seen-written_ne at_root t.root_page_num q m h ∙ (found-Reads t is s p root).shows m;
  }

  module _ (key r : ℕ) (split : Splits (tbl_leaf_key t p) (leaf_node_num_cells p) key r) where
    -- The cell holds the key, as the code tests it.
    abbrev holds_key : Bool
    holds_key = ltb r (leaf_node_num_cells p) && tbl_leaf_key t p r == key

    module _ (value : Page) (small : key < u32_mod) (room : leaf_node_num_cells p < t.max_cells)
        (new : has_key key (leaf_rows t p) ≡ false) where
      abbrev row : Row
      row = record { key = key; value = slice value 0 t.value_size }

      abbrev with_row : Page
      with_row = insert_cell t r key value p

      rows-with_row : leaf_rows t with_row ≡ place row (leaf_rows t p)
      unfolding leaf_rows
      rows-with_row =
          insert_cell-insert_at t is r key value p room split.inside small
          ∙ sym (
              place-insert_at t p key r (leaf_node_num_cells p) split row (leaf_node_num_cells p) 0
                r refl (omega arith) (omega arith) other)
        where
          other : r < leaf_node_num_cells p → tbl_leaf_key t p r ≢ key
          other l e = absurd (ground (arith, found-has_key t is s p root key r split))

      inserted-Changed :
          Changed t s (written at_root t.root_page_num with_row) (place row (leaf_rows t p))
      inserted-Changed =
          let (leaf, flag) =
            header_ext p with_row (insert_cell-header t is r key value p 0 (omega arith))
              (insert_cell-header t is r key value p 1 (omega arith)) in
          subst (Changed t s (written at_root t.root_page_num with_row)) rows-with_row (
            written-Changed with_row leaf flag
              (omega (arith, leaf_node_num_cells-insert_cell t is r key value p room))
              (subst IsSorted (sym rows-with_row)
                (place-IsSorted row (leaf_rows t p) new root.sorted)))

      leaf_node_insert-root :
          leaf_node_insert (root_cell t r) key value at_root
          ≡ done tt (written at_root t.root_page_num with_row)
      unfolding leaf_node_insert mark_page_dirty get_page poke written ◌>>=◌
      leaf_node_insert-root = ground (arith, found-pages t is s p root, root.in_range)

    module _ (here : has_key key (leaf_rows t p) ≡ true) where
      abbrev without_row : Page
      without_row = delete_cell t r p

      found_here : (r < leaf_node_num_cells p) × (tbl_leaf_key t p r ≡ key)
      found_here = ground (arith, found-has_key t is s p root key r split)

      same_header :
          (get_node_type without_row ≡ get_node_type p)
          × (is_node_root without_row ≡ is_node_root p)
      same_header =
          header_ext p without_row (delete_cell-header t is r p 0 (omega arith))
            (delete_cell-header t is r p 1 (omega arith))

      still_root : is_node_root without_row ≡ true
      still_root = same_header.1 ∙ root.is_root

      pub leaf_node_delete-root :
          leaf_node_delete (root_cell t r) at_root
          ≡ done (root_cell t r) (written at_root t.root_page_num without_row)
      unfolding leaf_node_delete rebalance_leaf_after_delete mark_page_dirty get_page poke written
          ◌>>=◌ pure
      leaf_node_delete-root =
          ground (arith, found-pages t is s p root, root.in_range, found_here, still_root)

      rows-without_row : leaf_rows t without_row ≡ remove_key key (leaf_rows t p)
      unfolding leaf_rows
      rows-without_row =
          delete_cell-erase_at t is r p root.few found_here.0
          ∙ sym (
              remove_key-erase_at t p key r (leaf_node_num_cells p) split (leaf_node_num_cells p) 0
                r (omega arith) (omega arith) found_here.0 found_here.1)

      pub deleted-Changed :
          Changed t s (written at_root t.root_page_num without_row) (remove_key key (leaf_rows t p))
      deleted-Changed =
          let (leaf, flag) = same_header in
          subst (Changed t s (written at_root t.root_page_num without_row)) rows-without_row (
            written-Changed without_row leaf flag
              (omega (arith, leaf_node_num_cells-delete_cell t is r p root.few, root.few))
              (subst IsSorted (sym rows-without_row)
                (remove_key-IsSorted key (leaf_rows t p) root.sorted)))

  insert_row_into_table_taken :
      (key r : ℕ) (value : Page)
      → leaf_find_index t p key ≡ some r
      → (ltb r (leaf_node_num_cells p) && tbl_leaf_key t p r == key) ≡ true
      → insert_row_into_table t key value s ≡ done execute_duplicate_key at_root
  unfolding insert_row_into_table ◌>>=◌ pure
  insert_row_into_table_taken key r value e here =
      rw (table_find-root t is s p root key r e, get_page-found t is s p root, here)

  insert_row_into_table_new :
      (key r : ℕ) (value : Page) (s' : Pager)
      → leaf_find_index t p key ≡ some r
      → (ltb r (leaf_node_num_cells p) && tbl_leaf_key t p r == key) ≡ false
      → leaf_node_insert (root_cell t r) key value at_root ≡ done tt s'
      → insert_row_into_table t key value s ≡ done execute_success s'
  unfolding insert_row_into_table ◌>>=◌ pure
  insert_row_into_table_new key r value s' e new run =
      rw (table_find-root t is s p root key r e, get_page-found t is s p root, new, run)

  -- On a table whose root is a leaf with sorted rows and room for one more, insert_row_into_table returns for every
  -- key below 2 ^ 32. If a row has the key, it reports that and leaves the database as it found it. Otherwise it
  -- puts the row in its place among the sorted rows, marks the root dirty, and touches no other page.
  pub insert_row_into_table-root :
      (key : ℕ) (value : Page)
      → key < u32_mod
      → leaf_node_num_cells p < t.max_cells
      → Returns
          (λ r s'.
            if has_key key (leaf_rows t p)
            then (r ≡ execute_duplicate_key) × Reads s s'
            else (r ≡ execute_success)
              × Changed t s s' (
                  place (record { key = key; value = slice value 0 t.value_size }) (leaf_rows t p)))
          (insert_row_into_table t key value s)
  insert_row_into_table-root key value small room =
      let (r, e, split) = leaf_find_index-Splits t is s p root key in
      elim (Bool-cases (has_key key (leaf_rows t p))) [
        | inl here ↦
            rw
              (
                here,
                insert_row_into_table_taken key r value e
                    (found-has_key t is s p root key r split ∙ here),
              )
              (returns (refl, found-Reads t is s p root))
        | inr new ↦
            rw
              (
                new,
                insert_row_into_table_new key r value _ e
                    (found-has_key t is s p root key r split ∙ new)
                    (leaf_node_insert-root key r split value small room new),
              )
              (returns (refl, inserted-Changed key r split value small room new))
      ]
