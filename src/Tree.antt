-- ===== src/Tree.antt =====
-- The nodes of a table's tree on the pager, in src/btree.c: the largest key under a node, a new root,
-- and the children of an internal node. A node that the code points to is the number of its page, and
-- its bytes are read again after other pages were written.
--
-- A path down a tree has fewer nodes than there are pages, which is the fuel of get_node_max_key.
pub mod Grow
pub mod Shrink
pub mod Unwritten
pub mod RootLeaf
pub mod NewRoot
pub mod Merge
use sqlyt.Base.{
  ℕ, zero, suc, ◌+◌, ◌-◌, ◌/◌, ◌%◌, Bool, true, false, not, ◌&&◌, Option, none, some, leb, ◌==◌,
  if◌then◌else◌,
}
use sqlyt.Page.{Page, page_size, get_u32, put_u32, memcpy}
use sqlyt.Node.{
  table_max_pages, invalid_page_num, node_leaf, node_internal, get_node_type, set_node_root,
  set_node_parent, internal_node_num_keys, set_internal_node_num_keys, internal_node_right_child,
  set_internal_node_right_child, internal_node_child, set_internal_node_key, leaf_node_num_cells,
  initialize_internal_node,
}
use sqlyt.Pager.{M, pure, spent, exit_failure, ◌>>=◌, ◌>>◌, when}
use sqlyt.Pager.Cache.{get_page, mark_page_dirty, peek, poke}
use sqlyt.Pager.FreeList.{get_unused_page_num}
use sqlyt.Table.{Table, tbl_leaf_key}
use sqlyt.Search.{internal_node_find_child}
use sqlyt.Cursor.{or_exit, or_out_of_fuel}

unfoldable pub get_node_max_key_on : ℕ → Table → (node : Page) → M ℕ
get_node_max_key_on zero t node = spent
get_node_max_key_on (suc fuel) t node =
    if get_node_type node == node_leaf
    then (if leaf_node_num_cells node == 0
        then pure 0
        else pure (tbl_leaf_key t node (leaf_node_num_cells node - 1)))
    else do
      right_child ← get_page (internal_node_right_child node)
      get_node_max_key_on fuel t right_child

unfoldable pub get_node_max_key : Table → (node : Page) → M ℕ
unfolding get_node_max_key_on
get_node_max_key = get_node_max_key_on table_max_pages

-- `*internal_node_child(node, child_num)`
unfoldable pub child_page : Page → (child_num : ℕ) → M ℕ
child_page node child_num = do
  ptr ← or_exit (internal_node_child node child_num)
  pure (get_u32 node ptr)

-- `*internal_node_child(node, child_num) = v` on page `page_num`.
unfoldable pub set_child_page : (page_num child_num v : ℕ) → M (Unit {0})
set_child_page page_num child_num v = do
  node ← peek page_num
  ptr ← or_exit (internal_node_child node child_num)
  poke page_num (λ p. put_u32 p ptr v)

-- `*node_parent(page_num) = parent`
unfoldable pub set_parent : (page_num parent : ℕ) → M (Unit {0})
set_parent page_num parent = poke page_num (λ p. set_node_parent p parent)

-- The loop of create_new_root over the `n` children from child `i` on of the page `left`.
unfoldable pub adopt_children : (left n i : ℕ) → M (Unit {0})
unfolding child_page set_parent
adopt_children left zero i = pure tt
adopt_children left (suc n) i = do
  node ← peek left
  child ← child_page node i
  get_page child
  set_parent child left
  adopt_children left n (i + 1)

-- The children of the left node of an internal root, the right child last.
unfoldable pub adopt_all_children : (left : ℕ) → M (Unit {0})
unfolding adopt_children set_parent
adopt_all_children left = do
  node ← peek left
  adopt_children left (internal_node_num_keys node) 0
  copied ← peek left
  get_page (internal_node_right_child copied)
  set_parent (internal_node_right_child copied) left

-- The root as an internal node with one key and two children.
unfoldable pub link_new_root : Table → (left right : ℕ) → M (Unit {0})
unfolding set_child_page set_parent get_node_max_key
link_new_root t left right = do
  poke t.root_page_num
      (λ p. set_internal_node_num_keys (set_node_root (initialize_internal_node p) true) 1)
  set_child_page t.root_page_num 0 left
  left_child ← peek left
  left_child_max_key ← get_node_max_key t left_child
  poke t.root_page_num (λ p. set_internal_node_key p 0 left_child_max_key)
  poke t.root_page_num (λ p. set_internal_node_right_child p right)
  set_parent left t.root_page_num
  set_parent right t.root_page_num

unfoldable pub create_new_root : Table → (right_child_page_num : ℕ) → M (Unit {0})
unfolding adopt_all_children link_new_root
create_new_root t right = do
  get_page t.root_page_num
  get_page right
  left ← get_unused_page_num
  get_page left
  root ← peek t.root_page_num
  when (get_node_type root == node_internal)
      (do poke right initialize_internal_node; poke left initialize_internal_node)
  copied ← peek t.root_page_num
  poke left (λ p. set_node_root (memcpy p 0 copied 0 page_size) false)
  left_child ← peek left
  when (get_node_type left_child == node_internal) (adopt_all_children left)
  link_new_root t left right

unfoldable pub update_internal_node_key : (page_num old_key new_key : ℕ) → M (Unit {0})
update_internal_node_key page_num old_key new_key = do
  node ← peek page_num
  old_child_index ← or_out_of_fuel (internal_node_find_child node old_key)
  poke page_num (λ p. set_internal_node_key p old_child_index new_key)

-- `(max_cells + 1) / 2`
unfoldable pub leaf_node_min_cells : Table → ℕ
leaf_node_min_cells t = (t.max_cells + 1) / 2

unfoldable pub internal_node_child_page_at : Page → (child_index : ℕ) → M ℕ
unfolding child_page
internal_node_child_page_at node child_index =
    if child_index == internal_node_num_keys node
    then (if not (internal_node_right_child node == invalid_page_num)
          && leb table_max_pages (internal_node_right_child node)
        then exit_failure
        else pure (internal_node_right_child node))
    else child_page node child_index

-- The loop over the `n` children from child `i` on; the right child comes last.
unfoldable pub find_child_index_from : Page → (child_page_num n i : ℕ) → M (Option ℕ)
unfolding child_page
find_child_index_from node child_page_num zero i =
    if internal_node_right_child node == child_page_num then pure (some i) else pure none
find_child_index_from node child_page_num (suc n) i = do
  child ← child_page node i
  if child == child_page_num
      then pure (some i)
      else find_child_index_from node child_page_num n (i + 1)

unfoldable pub internal_node_find_child_index : Page → (child_page_num : ℕ) → M (Option ℕ)
unfolding find_child_index_from
internal_node_find_child_index node child_page_num =
    find_child_index_from node child_page_num (internal_node_num_keys node) 0

-- The loop over the `n` keys from key `i` on.
unfoldable pub recompute_keys_from : Table → (page_num n i : ℕ) → M (Unit {0})
unfolding child_page get_node_max_key
recompute_keys_from t page_num zero i = pure tt
recompute_keys_from t page_num (suc n) i = do
  node ← peek page_num
  child_page_num ← child_page node i
  child ← get_page child_page_num
  key ← get_node_max_key t child
  poke page_num (λ p. set_internal_node_key p i key)
  recompute_keys_from t page_num n (i + 1)

unfoldable pub internal_node_recompute_keys : Table → (page_num : ℕ) → M (Unit {0})
unfolding recompute_keys_from
internal_node_recompute_keys t page_num = do
  node ← peek page_num
  recompute_keys_from t page_num (internal_node_num_keys node) 0
