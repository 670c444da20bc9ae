-- ===== src/Tree/Unwritten/Shrink.antt =====
-- A table's tree is changed in memory only.
use sqlyt.Base.{ℕ, zero, suc, Option, none, some}
use sqlyt.Pager.{Pager}
use sqlyt.Pager.Keeps.{Keeps}
use sqlyt.Pager.Unwritten.{Unwritten}
use sqlyt.Table.{Table}
use sqlyt.Cursor.{Cursor}
use sqlyt.Tree.Unwritten.{
  tree_rules, child_page-Unwritten, internal_node_child_page_at-Unwritten,
  internal_node_find_child_index-Unwritten, internal_node_recompute_keys-Unwritten,
  set_child_page-Unwritten, set_parent-Unwritten,
}
use sqlyt.Tree.Shrink.{
  readopt_children, collapse_root, bypass_node, internal_rebalance_after_delete, remove_right_child,
  remove_child_cell, internal_node_remove_child, refresh_parent, borrow_from_left,
  borrow_from_right, merge_leaves, merge_into_left, merge_from_right, refill_leaf, rebalance_child,
  rebalance_leaf_after_delete, leaf_node_delete,
}

module _ {s0 : Pager} where
  readopt_children-Unwritten : (root n i : ℕ) → Keeps (Unwritten s0) (readopt_children root n i)
  unfolding readopt_children
  readopt_children-Unwritten root zero i = search tree_rules depth 24
  readopt_children-Unwritten root (suc n) i =
      search
        (
          tree_rules,
          internal_node_child_page_at-Unwritten,
          set_parent-Unwritten,
          readopt_children-Unwritten root n,
        )
        depth 24

  collapse_root-Unwritten : (root child : ℕ) → Keeps (Unwritten s0) (collapse_root root child)
  unfolding collapse_root
  collapse_root-Unwritten root child = search (tree_rules, readopt_children-Unwritten) depth 24

  bypass_node-Unwritten :
      (t : Table) (page child parent : ℕ) (index : Option ℕ)
      → Keeps (Unwritten s0) (bypass_node t page child parent index)
  unfolding bypass_node
  bypass_node-Unwritten t page child parent none = search tree_rules depth 24
  bypass_node-Unwritten t page child parent (some i) =
      search
        (
          tree_rules, internal_node_recompute_keys-Unwritten, set_child_page-Unwritten,
          set_parent-Unwritten,
        )
        depth 24

  internal_rebalance_after_delete-Unwritten :
      (t : Table) (page : ℕ) → Keeps (Unwritten s0) (internal_rebalance_after_delete t page)
  unfolding internal_rebalance_after_delete
  internal_rebalance_after_delete-Unwritten t page =
      search
        (
          tree_rules, bypass_node-Unwritten, collapse_root-Unwritten,
          internal_node_find_child_index-Unwritten,
        )
        depth 24

  remove_right_child-Unwritten : (parent n : ℕ) → Keeps (Unwritten s0) (remove_right_child parent n)
  unfolding remove_right_child
  remove_right_child-Unwritten parent n = search (tree_rules, child_page-Unwritten) depth 24

  remove_child_cell-Unwritten :
      (parent i n : ℕ) → Keeps (Unwritten s0) (remove_child_cell parent i n)
  unfolding remove_child_cell
  remove_child_cell-Unwritten parent i n = search (tree_rules) depth 24

  internal_node_remove_child-Unwritten :
      (t : Table) (parent i : ℕ) → Keeps (Unwritten s0) (internal_node_remove_child t parent i)
  unfolding internal_node_remove_child
  internal_node_remove_child-Unwritten t parent i =
      search
        (
          tree_rules, internal_node_recompute_keys-Unwritten,
          internal_rebalance_after_delete-Unwritten, remove_child_cell-Unwritten,
          remove_right_child-Unwritten,
        )
        depth 24

  refresh_parent-Unwritten :
      (t : Table) (parent : ℕ) → Keeps (Unwritten s0) (refresh_parent t parent)
  unfolding refresh_parent
  refresh_parent-Unwritten t parent =
      search (tree_rules, internal_node_recompute_keys-Unwritten) depth 24

  borrow_from_left-Unwritten :
      (t : Table) (page parent left n : ℕ)
      → Keeps (Unwritten s0) (borrow_from_left t page parent left n)
  unfolding borrow_from_left
  borrow_from_left-Unwritten t page parent left n =
      search (tree_rules, refresh_parent-Unwritten) depth 24

  borrow_from_right-Unwritten :
      (t : Table) (page parent right n : ℕ)
      → Keeps (Unwritten s0) (borrow_from_right t page parent right n)
  unfolding borrow_from_right
  borrow_from_right-Unwritten t page parent right n =
      search (tree_rules, refresh_parent-Unwritten) depth 24

  merge_leaves-Unwritten :
      (t : Table) (target source : ℕ) → Keeps (Unwritten s0) (merge_leaves t target source)
  unfolding merge_leaves
  merge_leaves-Unwritten t target source = search (tree_rules) depth 24

  merge_into_left-Unwritten :
      (c : Cursor) (parent left i : ℕ) → Keeps (Unwritten s0) (merge_into_left c parent left i)
  unfolding merge_into_left
  merge_into_left-Unwritten c parent left i =
      search (tree_rules, internal_node_remove_child-Unwritten, merge_leaves-Unwritten) depth 24

  merge_from_right-Unwritten :
      (c : Cursor) (parent right i : ℕ) → Keeps (Unwritten s0) (merge_from_right c parent right i)
  unfolding merge_from_right
  merge_from_right-Unwritten c parent right i =
      search (tree_rules, internal_node_remove_child-Unwritten, merge_leaves-Unwritten) depth 24

  refill_leaf-Unwritten :
      (c : Cursor) (parent i n : ℕ) → Keeps (Unwritten s0) (refill_leaf c parent i n)
  unfolding refill_leaf
  refill_leaf-Unwritten c parent i n =
      search
        (
          tree_rules, borrow_from_left-Unwritten, borrow_from_right-Unwritten,
          internal_node_child_page_at-Unwritten, merge_from_right-Unwritten,
          merge_into_left-Unwritten,
        )
        depth 24

  rebalance_child-Unwritten :
      (c : Cursor) (parent : ℕ) (index : Option ℕ)
      → Keeps (Unwritten s0) (rebalance_child c parent index)
  unfolding rebalance_child
  rebalance_child-Unwritten c parent none = search tree_rules depth 24
  rebalance_child-Unwritten c parent (some i) =
      search (tree_rules, refill_leaf-Unwritten, refresh_parent-Unwritten) depth 24

  rebalance_leaf_after_delete-Unwritten :
      (c : Cursor) → Keeps (Unwritten s0) (rebalance_leaf_after_delete c)
  unfolding rebalance_leaf_after_delete
  rebalance_leaf_after_delete-Unwritten c =
      search (tree_rules, internal_node_find_child_index-Unwritten, rebalance_child-Unwritten) depth
        24

  pub leaf_node_delete-Unwritten : (c : Cursor) → Keeps (Unwritten s0) (leaf_node_delete c)
  unfolding leaf_node_delete
  leaf_node_delete-Unwritten c = search (tree_rules, rebalance_leaf_after_delete-Unwritten) depth 24
