-- ===== src/Tree/Grow.antt =====
-- Insertion into a table's tree: internal_node_insert, the two splits, leaf_node_insert and
-- insert_row_into_table of src/btree.c. The page that a leaf is split into is another page.
--
-- internal_node_insert and internal_node_split_and_insert call each other, and each call goes to a new
-- node or to the parent of the node that was split; the fuel is the number of pages.
use sqlyt.Base.{
  ℕ, zero, suc, ◌+◌, ◌-◌, ◌/◌, ◌%◌, Bool, true, false, not, ltb, leb, ◌==◌, ◌&&◌, if◌then◌else◌,
}
use sqlyt.Page.{Page, u32_mod, u32_max, put_u32, memcpy}
use sqlyt.Node.{
  table_max_pages, invalid_page_num, is_node_root, node_parent, internal_node_num_keys,
  set_internal_node_num_keys, internal_node_right_child, set_internal_node_right_child,
  internal_node_cell, internal_node_cell_size, internal_node_child_ptr, set_internal_node_key,
  internal_node_max_keys, leaf_node_num_cells, initialize_internal_node,
}
use sqlyt.Pager.{M, pure, spent, ◌>>=◌, ◌>>◌, when}
use sqlyt.Pager.Cache.{get_page, mark_page_dirty, peek, poke}
use sqlyt.Pager.FreeList.{get_unused_page_num}
use sqlyt.Table.{Table, tbl_leaf_key}
use sqlyt.Leaf.{insert_cell, split_leaf}
use sqlyt.Search.{internal_node_find_child}
use sqlyt.Cursor.{Cursor, or_exit, or_out_of_fuel, table_find}
use sqlyt.Tree.{get_node_max_key, child_page, set_parent, create_new_root, update_internal_node_key}

-- `for (i = i0; i > index; i--)` with `n` rounds left.
unfoldable pub shift_internal_cells_up : (n i : ℕ) → Page → Page
shift_internal_cells_up zero i p = p
shift_internal_cells_up (suc n) i p =
    shift_internal_cells_up n (i - 1)
      (memcpy p (internal_node_cell i) p (internal_node_cell (i - 1)) internal_node_cell_size)

-- `*internal_node_child_ptr(page, child_num) = v`
unfoldable pub set_child_ptr : (page_num child_num v : ℕ) → M (Unit {0})
set_child_ptr page_num child_num v = do
  node ← peek page_num
  ptr ← or_exit (internal_node_child_ptr node child_num)
  poke page_num (λ p. put_u32 p ptr v)

-- The new child becomes the right child, the old one gets a cell.
unfoldable pub replace_right_child : Table → (parent right child num_keys : ℕ) → M (Unit {0})
unfolding set_child_ptr
replace_right_child t parent right child num_keys = do
  set_child_ptr parent num_keys right
  right_child ← peek right
  right_max ← get_node_max_key t right_child
  poke parent (λ p. set_internal_node_key p num_keys right_max)
  poke parent (λ p. set_internal_node_right_child p child)

-- The new child gets the cell `index`.
unfoldable pub insert_child_cell : (parent child child_max_key index num_keys : ℕ) → M (Unit {0})
unfolding set_child_ptr shift_internal_cells_up
insert_child_cell parent child child_max_key index num_keys = do
  poke parent (shift_internal_cells_up (num_keys - index) num_keys)
  set_child_ptr parent index child
  poke parent (λ p. set_internal_node_key p index child_max_key)

-- internal_node_insert on a node that is not full.
unfoldable pub internal_node_add_child :
    Table → (parent child child_max_key index : ℕ) → M (Unit {0})
unfolding replace_right_child insert_child_cell
internal_node_add_child t parent child child_max_key index = do
  node ← peek parent
  let num_keys = internal_node_num_keys node
  let right = internal_node_right_child node
  if right == invalid_page_num then poke parent (λ p. set_internal_node_right_child p child) else do
    get_page right
    poke parent (λ p. set_internal_node_num_keys p (num_keys + 1))
    right_child ← peek right
    right_max ← get_node_max_key t right_child
    if ltb right_max child_max_key
        then replace_right_child t parent right child num_keys
        else insert_child_cell parent child child_max_key index num_keys

abbrev pub decrement : ℕ → ℕ
decrement v = (v + u32_max) % u32_mod

unfoldable pub decrement_num_keys : (page_num : ℕ) → M (Unit {0})
decrement_num_keys page_num =
    poke page_num (λ p. set_internal_node_num_keys p (decrement (internal_node_num_keys p)))

-- A child under the new node.
unfoldable pub move_child : ((parent child : ℕ) → M (Unit {0})) → (new cur : ℕ) → M (Unit {0})
move_child insert new cur = do get_page cur; insert new cur; set_parent cur new

-- `for (i = i0; i > INTERNAL_NODE_MAX_KEYS / 2; i--)` with `n` rounds left.
unfoldable pub move_children :
    ((parent child : ℕ) → M (Unit {0})) → (old new n i : ℕ) → M (Unit {0})
unfolding move_child decrement_num_keys
move_children insert old new zero i = pure tt
move_children insert old new (suc n) i = do
  node ← peek old
  cur ← child_page node i
  move_child insert new cur
  decrement_num_keys old
  move_children insert old new n (i - 1)

-- The upper children of the node `old` go to the node `new`, and the last of the others becomes the
-- right child of `old`.
unfoldable pub share_children : ((parent child : ℕ) → M (Unit {0})) → (old new : ℕ) → M (Unit {0})
unfolding move_children
share_children insert old new = do
  old_node ← peek old
  move_child insert new (internal_node_right_child old_node)
  poke old (λ p. set_internal_node_right_child p invalid_page_num)
  move_children insert old new (internal_node_max_keys - 1 - internal_node_max_keys / 2)
      (internal_node_max_keys - 1)
  node ← peek old
  last ← child_page node (decrement (internal_node_num_keys node))
  poke old (λ p. set_internal_node_right_child p last)
  decrement_num_keys old

-- The parent of the two nodes and the page of the old node.
unfoldable pub prepare_split :
    Table → (splitting_root : Bool) → (page_num parent_page_num new : ℕ) → M (ℕ × ℕ)
prepare_split t true page_num parent_page_num new = do
  create_new_root t new
  root ← get_page t.root_page_num
  old ← child_page root 0
  get_page old
  pure (t.root_page_num, old)
prepare_split t false page_num parent_page_num new = do
  get_page parent_page_num
  get_page new
  poke new initialize_internal_node
  pure (parent_page_num, page_num)

-- The new node under the parent of the old node.
unfoldable pub insert_new_node : ((parent child : ℕ) → M (Unit {0})) → (old new : ℕ) → M (Unit {0})
insert_new_node insert old new = do
  old_node ← peek old
  insert (node_parent old_node) new
  linked ← peek old
  set_parent new (node_parent linked)

-- Both nodes once the parent is known: share the children, insert the child into one of the nodes, and
-- correct the key of the old node.
unfoldable pub split_node :
    ((parent child : ℕ) → M (Unit {0}))
    → Table
    → (parent old new child child_max old_max : ℕ) → M (Unit {0})
unfolding share_children
split_node insert t parent old new child child_max old_max = do
  share_children insert old new
  old_node ← peek old
  max_after_split ← get_node_max_key t old_node
  let destination = if ltb child_max max_after_split then old else new
  insert destination child
  set_parent child destination
  filled ← peek old
  new_max ← get_node_max_key t filled
  update_internal_node_key parent old_max new_max

-- With the recursive calls of internal_node_insert as an argument.
unfoldable pub internal_node_split_and_insert :
    ((parent child : ℕ) → M (Unit {0}))
    → Table
    → (parent_page_num child_page_num : ℕ) → M (Unit {0})
unfolding prepare_split split_node insert_new_node
internal_node_split_and_insert insert t page_num child_page_num = do
  mark_page_dirty page_num
  old_node ← get_page page_num
  old_max ← get_node_max_key t old_node
  child ← get_page child_page_num
  child_max ← get_node_max_key t child
  new ← get_unused_page_num
  node ← peek page_num
  (parent, old) ← prepare_split t (is_node_root node) page_num (node_parent node) new
  split_node insert t parent old new child_page_num child_max old_max
  when (not (is_node_root node)) (insert_new_node insert old new)

unfoldable pub internal_node_insert_on :
    ℕ → Table → (parent_page_num child_page_num : ℕ) → M (Unit {0})
unfolding internal_node_split_and_insert internal_node_add_child
internal_node_insert_on zero t parent_page_num child_page_num = spent
internal_node_insert_on (suc fuel) t parent_page_num child_page_num = do
  mark_page_dirty parent_page_num
  parent ← get_page parent_page_num
  child ← get_page child_page_num
  child_max_key ← get_node_max_key t child
  index ← or_out_of_fuel (internal_node_find_child parent child_max_key)
  if leb internal_node_max_keys (internal_node_num_keys parent)
      then internal_node_split_and_insert (internal_node_insert_on fuel t) t parent_page_num
          child_page_num
      else internal_node_add_child t parent_page_num child_page_num child_max_key index

unfoldable pub internal_node_insert : Table → (parent_page_num child_page_num : ℕ) → M (Unit {0})
unfolding internal_node_insert_on
internal_node_insert = internal_node_insert_on table_max_pages

unfoldable pub leaf_node_split_and_insert : Cursor → (key : ℕ) → (value : Page) → M (Unit {0})
unfolding internal_node_insert
leaf_node_split_and_insert cursor key value = do
  let t = Cursor.table cursor
  let page_num = Cursor.page_num cursor
  mark_page_dirty page_num
  full ← get_page page_num
  old_max ← get_node_max_key t full
  new_page_num ← get_unused_page_num
  new_node ← get_page new_page_num
  old_node ← peek page_num
  let pages = split_leaf t (Cursor.cell_num cursor) key value new_page_num (old_node, new_node)
  poke page_num (λ p. pages.0)
  poke new_page_num (λ p. pages.1)
  old ← peek page_num
  if is_node_root old then create_new_root t new_page_num else do
    new_max ← get_node_max_key t old
    get_page (node_parent old)
    update_internal_node_key (node_parent old) old_max new_max
    internal_node_insert t (node_parent old) new_page_num

unfoldable pub leaf_node_insert : Cursor → (key : ℕ) → (value : Page) → M (Unit {0})
unfolding leaf_node_split_and_insert
leaf_node_insert cursor key value = do
  mark_page_dirty (Cursor.page_num cursor)
  node ← get_page (Cursor.page_num cursor)
  if leb (Table.max_cells (Cursor.table cursor)) (leaf_node_num_cells node)
      then leaf_node_split_and_insert cursor key value
      else poke (Cursor.page_num cursor)
          (insert_cell (Cursor.table cursor) (Cursor.cell_num cursor) key value)

-- `ExecuteResult`
pub data ExecuteResult : Type 0 where
  execute_success : ExecuteResult
  execute_duplicate_key : ExecuteResult

unfoldable pub insert_row_into_table : Table → (key : ℕ) → (value : Page) → M ExecuteResult
insert_row_into_table t key value = do
  cursor ← table_find t key
  node ← get_page (Cursor.page_num cursor)
  if ltb (Cursor.cell_num cursor) (leaf_node_num_cells node)
        && tbl_leaf_key t node (Cursor.cell_num cursor) == key
      then pure execute_duplicate_key
      else (do leaf_node_insert cursor key value; pure execute_success)
