-- ===== src/Tree/Unwritten/Grow.antt =====
-- A table's tree is changed in memory only.
use sqlyt.Base.{ℕ, zero, suc, Bool, true, false}
use sqlyt.Page.{Page}
use sqlyt.Pager.{Pager, M}
use sqlyt.Pager.Keeps.{Keeps}
use sqlyt.Pager.Unwritten.{Unwritten, Reads-Unwritten}
use sqlyt.Table.{Table}
use sqlyt.Cursor.{Cursor, table_find}
use sqlyt.Cursor.ReadOnly.{table_find-Reads}
use sqlyt.Tree.Unwritten.{
  tree_rules, child_page-Unwritten, create_new_root-Unwritten, get_node_max_key-Unwritten,
  set_parent-Unwritten, update_internal_node_key-Unwritten,
}
use sqlyt.Tree.Grow.{
  set_child_ptr, replace_right_child, insert_child_cell, internal_node_add_child,
  decrement_num_keys, move_child, move_children, share_children, prepare_split, insert_new_node,
  split_node, internal_node_split_and_insert, internal_node_insert_on, internal_node_insert,
  leaf_node_split_and_insert, leaf_node_insert, insert_row_into_table,
}

module _ {s0 : Pager} where
  pub table_find-Unwritten : (t : Table) (key : ℕ) → Keeps (Unwritten s0) (table_find t key)
  table_find-Unwritten t key = Reads-Unwritten (table_find t key) (λ s. table_find-Reads t key)

  set_child_ptr-Unwritten : (n i v : ℕ) → Keeps (Unwritten s0) (set_child_ptr n i v)
  unfolding set_child_ptr
  set_child_ptr-Unwritten n i v = search (tree_rules)

  replace_right_child-Unwritten :
      (t : Table) (parent right child n : ℕ)
      → Keeps (Unwritten s0) (replace_right_child t parent right child n)
  unfolding replace_right_child
  replace_right_child-Unwritten t parent right child n =
      search (tree_rules, get_node_max_key-Unwritten, set_child_ptr-Unwritten) depth 24

  insert_child_cell-Unwritten :
      (parent child key i n : ℕ) → Keeps (Unwritten s0) (insert_child_cell parent child key i n)
  unfolding insert_child_cell
  insert_child_cell-Unwritten parent child key i n =
      search (tree_rules, set_child_ptr-Unwritten) depth 24

  internal_node_add_child-Unwritten :
      (t : Table) (parent child key i : ℕ)
      → Keeps (Unwritten s0) (internal_node_add_child t parent child key i)
  unfolding internal_node_add_child
  internal_node_add_child-Unwritten t parent child key i =
      search
        (
          tree_rules, get_node_max_key-Unwritten, insert_child_cell-Unwritten,
          replace_right_child-Unwritten,
        )
        depth 24

  decrement_num_keys-Unwritten : (n : ℕ) → Keeps (Unwritten s0) (decrement_num_keys n)
  unfolding decrement_num_keys
  decrement_num_keys-Unwritten n = search (tree_rules)

  move_child-Unwritten :
      (insert : (parent child : ℕ) → M (Unit {0}))
      (keeps : (parent child : ℕ) → Keeps (Unwritten s0) (insert parent child)) (new cur : ℕ)
      → Keeps (Unwritten s0) (move_child insert new cur)
  unfolding move_child
  move_child-Unwritten insert keeps new cur =
      search (tree_rules, keeps, set_parent-Unwritten) depth 24

  move_children-Unwritten :
      (insert : (parent child : ℕ) → M (Unit {0}))
      (keeps : (parent child : ℕ) → Keeps (Unwritten s0) (insert parent child)) (old new n i : ℕ)
      → Keeps (Unwritten s0) (move_children insert old new n i)
  unfolding move_children
  move_children-Unwritten insert keeps old new zero i = search tree_rules depth 24
  move_children-Unwritten insert keeps old new (suc n) i =
      search
        (
          tree_rules,
          child_page-Unwritten,
          move_child-Unwritten insert keeps,
          move_children-Unwritten insert keeps old new n,
        )
        depth 24

  share_children-Unwritten :
      (insert : (parent child : ℕ) → M (Unit {0}))
      (keeps : (parent child : ℕ) → Keeps (Unwritten s0) (insert parent child)) (old new : ℕ)
      → Keeps (Unwritten s0) (share_children insert old new)
  unfolding share_children
  share_children-Unwritten insert keeps old new =
      search
        (
          tree_rules,
          child_page-Unwritten,
          move_child-Unwritten insert keeps,
          move_children-Unwritten insert keeps,
        )
        depth 24

  prepare_split-Unwritten :
      (t : Table) (root : Bool) (page parent new : ℕ)
      → Keeps (Unwritten s0) (prepare_split t root page parent new)
  unfolding prepare_split
  prepare_split-Unwritten t true page parent new =
      search (tree_rules, child_page-Unwritten, create_new_root-Unwritten) depth 24
  prepare_split-Unwritten t false page parent new = search tree_rules depth 24

  insert_new_node-Unwritten :
      (insert : (parent child : ℕ) → M (Unit {0}))
      (keeps : (parent child : ℕ) → Keeps (Unwritten s0) (insert parent child)) (old new : ℕ)
      → Keeps (Unwritten s0) (insert_new_node insert old new)
  unfolding insert_new_node
  insert_new_node-Unwritten insert keeps old new =
      search (tree_rules, keeps, set_parent-Unwritten) depth 24

  split_node-Unwritten :
      (insert : (parent child : ℕ) → M (Unit {0}))
      (keeps : (parent child : ℕ) → Keeps (Unwritten s0) (insert parent child)) (t : Table)
      (parent old new child child_max old_max : ℕ)
      → Keeps (Unwritten s0) (split_node insert t parent old new child child_max old_max)
  unfolding split_node
  split_node-Unwritten insert keeps t parent old new child child_max old_max =
      search
        (
          tree_rules,
          keeps,
          get_node_max_key-Unwritten,
          set_parent-Unwritten,
          share_children-Unwritten insert keeps,
          update_internal_node_key-Unwritten,
        )
        depth 24

  internal_node_split_and_insert-Unwritten :
      (insert : (parent child : ℕ) → M (Unit {0}))
      (keeps : (parent child : ℕ) → Keeps (Unwritten s0) (insert parent child)) (t : Table)
      (page child : ℕ)
      → Keeps (Unwritten s0) (internal_node_split_and_insert insert t page child)
  unfolding internal_node_split_and_insert
  internal_node_split_and_insert-Unwritten insert keeps t page child =
      search
        (
          tree_rules,
          get_node_max_key-Unwritten,
          insert_new_node-Unwritten insert keeps,
          prepare_split-Unwritten,
          split_node-Unwritten insert keeps,
        )
        depth 24

  internal_node_insert_on-Unwritten :
      (fuel : ℕ) (t : Table) (parent child : ℕ)
      → Keeps (Unwritten s0) (internal_node_insert_on fuel t parent child)
  unfolding internal_node_insert_on
  internal_node_insert_on-Unwritten zero t parent child = search tree_rules
  internal_node_insert_on-Unwritten (suc fuel) t parent child =
      search
        (
          tree_rules,
          get_node_max_key-Unwritten,
          internal_node_add_child-Unwritten,
          internal_node_split_and_insert-Unwritten (internal_node_insert_on fuel t)
              (internal_node_insert_on-Unwritten fuel t),
        )
        depth 24

  internal_node_insert-Unwritten :
      (t : Table) (parent child : ℕ) → Keeps (Unwritten s0) (internal_node_insert t parent child)
  unfolding internal_node_insert
  internal_node_insert-Unwritten t parent child =
      search (tree_rules, internal_node_insert_on-Unwritten)

  leaf_node_split_and_insert-Unwritten :
      (c : Cursor) (key : ℕ) (value : Page)
      → Keeps (Unwritten s0) (leaf_node_split_and_insert c key value)
  unfolding leaf_node_split_and_insert
  leaf_node_split_and_insert-Unwritten c key value =
      search
        (
          tree_rules, create_new_root-Unwritten, get_node_max_key-Unwritten,
          internal_node_insert-Unwritten, update_internal_node_key-Unwritten,
        )
        depth 24

  leaf_node_insert-Unwritten :
      (c : Cursor) (key : ℕ) (value : Page) → Keeps (Unwritten s0) (leaf_node_insert c key value)
  unfolding leaf_node_insert
  leaf_node_insert-Unwritten c key value =
      search (tree_rules, leaf_node_split_and_insert-Unwritten) depth 24

  pub insert_row_into_table-Unwritten :
      (t : Table) (key : ℕ) (value : Page)
      → Keeps (Unwritten s0) (insert_row_into_table t key value)
  unfolding insert_row_into_table
  insert_row_into_table-Unwritten t key value =
      search (tree_rules, leaf_node_insert-Unwritten, table_find-Unwritten) depth 24
