-- ===== src/Tree/Shrink.antt =====
-- Deletion from a table's tree: leaf_node_delete and the rebalancing after it in src/btree.c. The
-- result of the rebalancing is the cursor, which a merge moves.
use sqlyt.Base.{
  ℕ, zero, suc, ◌+◌, ◌-◌, ◌*◌, Bool, true, false, not, ◌&&◌, ◌||◌, Option, none, some, ltb, leb,
  ◌==◌, if◌then◌else◌,
}
use sqlyt.Page.{Page, page_size, memcpy}
use sqlyt.Node.{
  invalid_page_num, node_leaf, node_internal, get_node_type, is_node_root, set_node_root,
  node_parent, internal_node_num_keys, set_internal_node_num_keys, internal_node_right_child,
  set_internal_node_right_child, internal_node_cell, internal_node_cell_size, leaf_node_num_cells,
  set_leaf_node_num_cells, leaf_node_next_leaf, set_leaf_node_next_leaf,
}
use sqlyt.Pager.{M, pure, ◌>>=◌, ◌>>◌}
use sqlyt.Pager.Cache.{get_page, mark_page_dirty, peek, poke}
use sqlyt.Pager.FreeList.{pager_free_page}
use sqlyt.Table.{Table, tbl_leaf_cell}
use sqlyt.Leaf.{copy_cell, delete_cell}
use sqlyt.Cursor.{Cursor}
use sqlyt.Tree.{
  child_page, set_child_page, set_parent, leaf_node_min_cells, internal_node_child_page_at,
  internal_node_find_child_index, internal_node_recompute_keys,
}

-- The loop of the root collapse over the `n` children from child `i` on.
unfoldable pub readopt_children : (root n i : ℕ) → M (Unit {0})
readopt_children root zero i = pure tt
readopt_children root (suc n) i = do
  node ← peek root
  child ← internal_node_child_page_at node i
  get_page child
  set_parent child root
  mark_page_dirty child
  readopt_children root n (i + 1)

-- A root without keys takes over its only child.
unfoldable pub collapse_root : (root child_page_num : ℕ) → M (Unit {0})
unfolding readopt_children
collapse_root root child_page_num = do
  child ← get_page child_page_num
  poke root (λ p. memcpy p 0 child 0 page_size)
  poke root (λ p. set_node_root p true)
  mark_page_dirty root
  mark_page_dirty child_page_num
  pager_free_page child_page_num
  node ← peek root
  if get_node_type node == node_internal
      then readopt_children root (internal_node_num_keys node + 1) 0
      else pure tt

-- The parent of a node without keys gets its only child in its place.
unfoldable pub bypass_node :
    Table → (page_num child_page_num parent_page_num : ℕ) → Option ℕ → M (Unit {0})
bypass_node t page_num child_page_num parent_page_num none = pure tt
bypass_node t page_num child_page_num parent_page_num (some child_index) = do
  parent ← peek parent_page_num
  if child_index == internal_node_num_keys parent
      then poke parent_page_num (λ p. set_internal_node_right_child p child_page_num)
      else set_child_page parent_page_num child_index child_page_num
  get_page child_page_num
  set_parent child_page_num parent_page_num
  mark_page_dirty parent_page_num
  mark_page_dirty child_page_num
  mark_page_dirty page_num
  internal_node_recompute_keys t parent_page_num
  pager_free_page page_num

unfoldable pub internal_rebalance_after_delete : Table → (page_num : ℕ) → M (Unit {0})
unfolding collapse_root bypass_node
internal_rebalance_after_delete t page_num = do
  node ← get_page page_num
  let child_page_num = internal_node_right_child node
  if not (get_node_type node == node_internal)
        || not (internal_node_num_keys node == 0)
        || child_page_num == invalid_page_num
      then pure tt
      else if is_node_root node
      then collapse_root page_num child_page_num
      else (do
        parent ← get_page (node_parent node)
        child_index ← internal_node_find_child_index parent page_num
        bypass_node t page_num child_page_num (node_parent node) child_index)

-- `for (i = child_index; i + 1 < num_keys; i++)` with `n` rounds left.
unfoldable pub shift_internal_cells_down : (n i : ℕ) → Page → Page
shift_internal_cells_down zero i p = p
shift_internal_cells_down (suc n) i p =
    shift_internal_cells_down n (i + 1)
      (memcpy p (internal_node_cell i) p (internal_node_cell (i + 1)) internal_node_cell_size)

-- The right child goes, and the child before it takes its place.
unfoldable pub remove_right_child : (parent_page_num num_keys : ℕ) → M (Unit {0})
remove_right_child parent_page_num num_keys =
    if num_keys == 0
    then poke parent_page_num (λ p. set_internal_node_right_child p invalid_page_num)
    else do
      parent ← peek parent_page_num
      last ← child_page parent (num_keys - 1)
      poke parent_page_num (λ p. set_internal_node_right_child p last)
      poke parent_page_num (λ p. set_internal_node_num_keys p (num_keys - 1))

-- A child before the right one goes.
unfoldable pub remove_child_cell : (parent_page_num child_index num_keys : ℕ) → M (Unit {0})
unfolding shift_internal_cells_down
remove_child_cell parent_page_num child_index num_keys = do
  poke parent_page_num (shift_internal_cells_down (num_keys - (child_index + 1)) child_index)
  poke parent_page_num (λ p. set_internal_node_num_keys p (num_keys - 1))

unfoldable pub internal_node_remove_child : Table → (parent_page_num child_index : ℕ) → M (Unit {0})
unfolding remove_right_child remove_child_cell internal_rebalance_after_delete
internal_node_remove_child t parent_page_num child_index = do
  parent ← get_page parent_page_num
  let num_keys = internal_node_num_keys parent
  if ltb num_keys child_index then pure tt else do
    mark_page_dirty parent_page_num
    if child_index == num_keys
        then remove_right_child parent_page_num num_keys
        else remove_child_cell parent_page_num child_index num_keys
    internal_node_recompute_keys t parent_page_num
    internal_rebalance_after_delete t parent_page_num

-- The keys of the parent are made right, which is then dirty.
unfoldable pub refresh_parent : Table → (parent_page_num : ℕ) → M (Unit {0})
refresh_parent t parent_page_num = do
  internal_node_recompute_keys t parent_page_num
  mark_page_dirty parent_page_num

-- The last cell of the left leaf goes in front of the `num_cells` cells of the node.
unfoldable pub prepend_cell :
    Table → (num_cells : ℕ) → (left : Page) → (left_cells : ℕ) → Page → Page
prepend_cell t num_cells left left_cells node =
    copy_cell t (memcpy node (tbl_leaf_cell t 1) node (tbl_leaf_cell t 0) (num_cells * t.cell_size))
      0 left (left_cells - 1)

-- A cell from the left sibling, if it has one to spare; true if the rebalancing ends here.
unfoldable pub borrow_from_left :
    Table → (page_num parent_page_num left_page_num num_cells : ℕ) → M Bool
unfolding prepend_cell refresh_parent
borrow_from_left t page_num parent_page_num left_page_num num_cells = do
  left ← get_page left_page_num
  let left_cells = leaf_node_num_cells left
  if not (get_node_type left == node_leaf)
      then (do refresh_parent t parent_page_num; pure true)
      else if leb left_cells (leaf_node_min_cells t)
      then pure false
      else (do
        poke page_num (prepend_cell t num_cells left left_cells)
        poke left_page_num (λ p. set_leaf_node_num_cells p (left_cells - 1))
        poke page_num (λ p. set_leaf_node_num_cells p (num_cells + 1))
        mark_page_dirty left_page_num
        mark_page_dirty page_num
        refresh_parent t parent_page_num
        pure true)

-- What the right leaf keeps when its first cell is taken.
unfoldable pub drop_first_cell : Table → (right_cells : ℕ) → Page → Page
drop_first_cell t right_cells p =
    memcpy p (tbl_leaf_cell t 0) p (tbl_leaf_cell t 1) ((right_cells - 1) * t.cell_size)

unfoldable pub borrow_from_right :
    Table → (page_num parent_page_num right_page_num num_cells : ℕ) → M Bool
unfolding drop_first_cell refresh_parent
borrow_from_right t page_num parent_page_num right_page_num num_cells = do
  right ← get_page right_page_num
  let right_cells = leaf_node_num_cells right
  if not (get_node_type right == node_leaf)
      then (do refresh_parent t parent_page_num; pure true)
      else if leb right_cells (leaf_node_min_cells t)
      then pure false
      else (do
        poke page_num (λ p. copy_cell t p num_cells right 0)
        poke right_page_num (drop_first_cell t right_cells)
        poke right_page_num (λ p. set_leaf_node_num_cells p (right_cells - 1))
        poke page_num (λ p. set_leaf_node_num_cells p (num_cells + 1))
        mark_page_dirty right_page_num
        mark_page_dirty page_num
        refresh_parent t parent_page_num
        pure true)

-- The `n` cells from cell `i` on of the leaf `from`, copied behind the first `at` cells.
unfoldable pub append_cells : Table → (from : Page) → (at n i : ℕ) → Page → Page
append_cells t from at zero i p = p
append_cells t from at (suc n) i p =
    append_cells t from at n (i + 1) (copy_cell t p (at + i) from i)

-- The cells of the leaf `source` go behind those of the leaf `target`, which comes before it.
unfoldable pub merge_leaves : Table → (target source : ℕ) → M (Unit {0})
unfolding append_cells
merge_leaves t target source = do
  left ← peek target
  right ← peek source
  let left_cells = leaf_node_num_cells left
  let right_cells = leaf_node_num_cells right
  poke target (append_cells t right left_cells right_cells 0)
  poke target (λ p. set_leaf_node_num_cells p (left_cells + right_cells))
  poke target (λ p. set_leaf_node_next_leaf p (leaf_node_next_leaf right))
  poke source (λ p. set_leaf_node_num_cells p 0)
  mark_page_dirty source
  mark_page_dirty target

unfoldable pub merge_into_left : Cursor → (parent_page_num left_page_num child_index : ℕ) → M Cursor
unfolding merge_leaves internal_node_remove_child
merge_into_left cursor parent_page_num left_page_num child_index = do
  left ← get_page left_page_num
  merge_leaves (Cursor.table cursor) left_page_num (Cursor.page_num cursor)
  internal_node_remove_child (Cursor.table cursor) parent_page_num child_index
  pager_free_page (Cursor.page_num cursor)
  pure (record cursor { page_num = left_page_num; cell_num = leaf_node_num_cells left })

unfoldable pub merge_from_right :
    Cursor → (parent_page_num right_page_num child_index : ℕ) → M Cursor
unfolding merge_leaves internal_node_remove_child
merge_from_right cursor parent_page_num right_page_num child_index = do
  get_page right_page_num
  merge_leaves (Cursor.table cursor) (Cursor.page_num cursor) right_page_num
  internal_node_remove_child (Cursor.table cursor) parent_page_num (child_index + 1)
  pager_free_page right_page_num
  pure cursor

-- The siblings are asked for a cell, the left one first, and merged with if they have none to spare.
unfoldable pub refill_leaf : Cursor → (parent_page_num child_index num_cells : ℕ) → M Cursor
unfolding borrow_from_left borrow_from_right merge_into_left merge_from_right
refill_leaf cursor parent_page_num child_index num_cells = do
  parent ← peek parent_page_num
  let num_keys = internal_node_num_keys parent
  let t = Cursor.table cursor
  let page_num = Cursor.page_num cursor
  from_left ←
      if ltb 0 child_index
      then (do
        left ← internal_node_child_page_at parent (child_index - 1)
        borrow_from_left t page_num parent_page_num left num_cells)
      else pure false
  from_right ←
      if not from_left && ltb child_index num_keys
      then (do
        right ← internal_node_child_page_at parent (child_index + 1)
        borrow_from_right t page_num parent_page_num right num_cells)
      else pure from_left
  if from_right
      then pure cursor
      else if ltb 0 child_index
      then (do
        left ← internal_node_child_page_at parent (child_index - 1)
        merge_into_left cursor parent_page_num left child_index)
      else if ltb child_index num_keys
      then (do
        right ← internal_node_child_page_at parent (child_index + 1)
        merge_from_right cursor parent_page_num right child_index)
      else pure cursor

unfoldable pub rebalance_child : Cursor → (parent_page_num : ℕ) → Option ℕ → M Cursor
unfolding refill_leaf refresh_parent
rebalance_child cursor parent_page_num none = pure cursor
rebalance_child cursor parent_page_num (some child_index) = do
  node ← peek (Cursor.page_num cursor)
  if leb (leaf_node_min_cells (Cursor.table cursor)) (leaf_node_num_cells node)
      then (do refresh_parent (Cursor.table cursor) parent_page_num; pure cursor)
      else refill_leaf cursor parent_page_num child_index (leaf_node_num_cells node)

unfoldable pub rebalance_leaf_after_delete : Cursor → M Cursor
unfolding rebalance_child
rebalance_leaf_after_delete cursor = do
  node ← get_page (Cursor.page_num cursor)
  if is_node_root node then pure cursor else do
    parent ← get_page (node_parent node)
    child_index ← internal_node_find_child_index parent (Cursor.page_num cursor)
    rebalance_child cursor (node_parent node) child_index

unfoldable pub leaf_node_delete : Cursor → M Cursor
unfolding rebalance_leaf_after_delete
leaf_node_delete cursor = do
  node ← get_page (Cursor.page_num cursor)
  if (leaf_node_num_cells node == 0) || leb (leaf_node_num_cells node) (Cursor.cell_num cursor)
      then pure cursor
      else (do
        poke (Cursor.page_num cursor) (delete_cell (Cursor.table cursor) (Cursor.cell_num cursor))
        mark_page_dirty (Cursor.page_num cursor)
        rebalance_leaf_after_delete cursor)
