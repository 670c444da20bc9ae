-- ===== src/Tree/RootLeaf/Scan.antt =====
-- A scan of a table whose root is a leaf: find_table_max_key ends and finds the largest key.
use sqlyt.Base.{
  ℕ, zero, suc, ◌+◌, ◌%◌, ◌≤◌, ◌<◌, ◌≡◌, refl, arith, Bool, true, false, List, [], ◌∷◌, leb, ◌==◌,
  Bool-cases, inl, inr, le→leb, gt→leb,
}
use sqlyt.Page.{Page, u32_mod}
use sqlyt.Node.{leaf_node_num_cells, leaf_node_next_leaf}
use sqlyt.Pager.{Pager, done, pure, ◌>>=◌}
use sqlyt.Pager.Returns.{Returns, returns}
use sqlyt.Pager.Cache.Reads.{Reads}
use sqlyt.Table.{Table, tbl_leaf_key}
use sqlyt.Table.Layout.{IsTable, max_cells-le}
use sqlyt.Leaf.{Row, row_at, rows_from, leaf_rows}
use sqlyt.Leaf.Keyed.{has_key, IsSorted}
use sqlyt.Cursor.{
  Cursor, cursor_key, cursor_advance, table_start, fold_keys, find_table_max_key, max_rows,
}
use sqlyt.Tree.RootLeaf.{
  RootLeaf, found, found-Reads, get_page-found, table_find-root, leaf_find_index-Splits,
}

-- The loop over the keys of some rows.
abbrev fold_key : {A : Type 0} → (ℕ → A → A) → A → List Row → A
fold_key step acc [] = acc
fold_key step acc (x ∷ xs) = fold_key step (step x.key acc) xs

-- No key is above `k`.
abbrev pub AllAtMost : ℕ → List Row → Type 0
AllAtMost k [] = Unit
AllAtMost k (x ∷ xs) = (x.key ≤ k) × AllAtMost k xs

module _ (t : Table) (is : IsTable t) (s : Pager) (p : Page) (root : RootLeaf t s p)
    (alone : leaf_node_next_leaf p ≡ 0) where
  abbrev n : ℕ
  n = leaf_node_num_cells p

  abbrev at_root : Pager
  at_root = found t is s p root

  abbrev at_cell : ℕ → Bool → Cursor
  at_cell i ends = record {
    table = t;
    page_num = t.root_page_num;
    cell_num = i;
    end_of_table = ends;
  }

  cursor_key-root :
      (i : ℕ) → cursor_key (at_cell i false) at_root ≡ done (tbl_leaf_key t p i) at_root
  unfolding cursor_key ◌>>=◌ pure
  cursor_key-root i = rw (get_page-found t is s p root)

  cursor_advance-root :
      (i : ℕ)
      → i < n
      → cursor_advance (at_cell i false) at_root ≡ done (at_cell (i + 1) (leb n (i + 1))) at_root
  unfolding cursor_advance ◌>>=◌ pure
  cursor_advance-root i h =
      let small : (i + 1) % u32_mod ≡ i + 1 = omega (arith, root.few, max_cells-le t is) in
      elim (Bool-cases (leb n (i + 1))) [
        | inl e ↦ rw (get_page-found t is s p root, small, alone, e)
        | inr e ↦ rw (get_page-found t is s p root, small, e)
      ]

  fold_keys-root :
      {A : Type 0} (step : ℕ → A → A) (m fuel i : ℕ) (acc : A)
      → i + m ≡ n
      → m < fuel
      → fold_keys fuel step (at_cell i (leb n i)) acc at_root
        ≡ done (fold_key step acc (rows_from t p m i)) at_root
  unfolding fold_keys ◌>>=◌ pure rows_from row_at
  fold_keys-root step m zero i acc e h = absurd (omega arith)
  fold_keys-root step zero (suc fuel) i acc e h =
      let ends : leb n i ≡ true = le→leb n i (omega arith) in rw ends
  fold_keys-root step (suc m) (suc fuel) i acc e h =
      let goes : leb n i ≡ false = gt→leb n i (omega arith) in
      rw (goes, cursor_key-root i, cursor_advance-root i (omega arith))
        (fold_keys-root step m fuel (i + 1) (step (tbl_leaf_key t p i) acc) (omega arith)
          (omega arith))

-- The last key, and whether there is one.
abbrev last_key : ℕ × Bool → List Row → ℕ × Bool
last_key = fold_key (λ key acc. (key, true))

-- The largest key of the rows, or that there is none.
pub record IsMaxKey (r : ℕ × Bool) (rows : List Row) : Type 0 where
  pub none_if_empty : r.1 ≡ false → rows ≡ []
  pub is_key : r.1 ≡ true → has_key r.0 rows ≡ true
  pub largest : r.1 ≡ true → AllAtMost r.0 rows

last_key-IsMaxKey :
    (x : Row) (xs : List Row) (acc : ℕ × Bool)
    → IsSorted (x ∷ xs)
    → ((last_key acc (x ∷ xs)).1 ≡ true)
      × (has_key (last_key acc (x ∷ xs)).0 (x ∷ xs) ≡ true)
      × AllAtMost (last_key acc (x ∷ xs)).0 (x ∷ xs)
last_key-IsMaxKey x [] acc sorted = (refl, ground arith, (omega arith, tt))
last_key-IsMaxKey x (y ∷ ys) acc sorted =
    let (some_key, among, most) = last_key-IsMaxKey y ys (x.key, true) sorted.1 in
    (some_key, ground arith, (omega (arith, most.0, sorted.0.0), most))

IsMaxKey-rows : (rows : List Row) → IsSorted rows → IsMaxKey (last_key (0, false) rows) rows
IsMaxKey-rows [] sorted = record {
  none_if_empty = λ e. refl;
  is_key = λ e. absurd cc;
  largest = λ e. absurd cc;
}
IsMaxKey-rows (x ∷ xs) sorted =
    let (some_key, among, most) = last_key-IsMaxKey x xs (0, false) sorted in
    record { none_if_empty = λ e. absurd cc; is_key = λ e. among; largest = λ e. most }

module _ (t : Table) (is : IsTable t) (s : Pager) (p : Page) (root : RootLeaf t s p)
    (alone : leaf_node_next_leaf p ≡ 0) where
  table_start-root :
      table_start t s
      ≡ done (at_cell t is s p root alone 0 (leb (leaf_node_num_cells p) 0)) (found t is s p root)
  unfolding table_start ◌>>=◌ pure
  table_start-root =
      let (r, e, split) = leaf_find_index-Splits t is s p root 0 in
      let first : r ≡ 0 = ground (arith, split.below 0) in
      let empty : (leaf_node_num_cells p == 0) ≡ leb (leaf_node_num_cells p) 0 = ground arith in
      rw (table_find-root t is s p root 0 r e, get_page-found t is s p root, first, empty)

  find_table_max_key-root :
      find_table_max_key t s ≡ done (last_key (0, false) (leaf_rows t p)) (found t is s p root)
  unfolding find_table_max_key ◌>>=◌ leaf_rows
  find_table_max_key-root = rw table_start-root (
      fold_keys-root t is s p root alone (λ key acc. (key, true)) (leaf_node_num_cells p) max_rows 0
        (0, false) (omega arith) (omega (arith, root.few, max_cells-le t is)))

  -- On a table whose root is a leaf with sorted rows and no next leaf, find_table_max_key returns the largest key of the
  -- rows, or that there is no row, and leaves the database as it found it.
  pub find_table_max_key-IsMaxKey :
      Returns (λ r s'. IsMaxKey r (leaf_rows t p) × Reads s s') (find_table_max_key t s)
  find_table_max_key-IsMaxKey =
      rw find_table_max_key-root
        (returns (IsMaxKey-rows (leaf_rows t p) root.sorted, found-Reads t is s p root))
