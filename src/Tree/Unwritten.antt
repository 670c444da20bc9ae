-- ===== src/Tree/Unwritten.antt =====
-- A table's tree is changed in memory only.
pub mod Grow
pub mod Shrink
use sqlyt.Base.{ℕ, zero, suc, ◌+◌, ◌-◌, Bool, true, false, Option, none, some}
use sqlyt.Page.{Page}
use sqlyt.Pager.{Pager, M}
use sqlyt.Pager.Keeps.{Keeps}
use sqlyt.Pager.Unwritten.{
  Unwritten, memory_rules, Keeps-when, get_unused_page_num-Unwritten, pager_free_page-Unwritten,
  Reads-Unwritten,
}
use sqlyt.Table.{Table}
use sqlyt.Cursor.{Cursor, or_exit, or_out_of_fuel, table_find}
use sqlyt.Cursor.ReadOnly.{or_exit-Reads, or_out_of_fuel-Reads, table_find-Reads}
use sqlyt.Tree.{
  get_node_max_key_on, get_node_max_key, child_page, set_child_page, set_parent, adopt_children,
  adopt_all_children, link_new_root, create_new_root, update_internal_node_key,
  internal_node_child_page_at, find_child_index_from, internal_node_find_child_index,
  recompute_keys_from, internal_node_recompute_keys,
}

module _ {s0 : Pager} where
  pub or_exit-Unwritten : {A : Type 0} (o : Option A) → Keeps (Unwritten s0) (or_exit o)
  or_exit-Unwritten o = Reads-Unwritten (or_exit o) (λ s. or_exit-Reads o)

  pub or_out_of_fuel-Unwritten :
      {A : Type 0} (o : Option A) → Keeps (Unwritten s0) (or_out_of_fuel o)
  or_out_of_fuel-Unwritten o = Reads-Unwritten (or_out_of_fuel o) (λ s. or_out_of_fuel-Reads o)

pub ruleset tree_rules = (
  memory_rules, Keeps-when, or_exit-Unwritten, or_out_of_fuel-Unwritten,
  get_unused_page_num-Unwritten, pager_free_page-Unwritten,
)

module _ {s0 : Pager} where
  get_node_max_key_on-Unwritten :
      (fuel : ℕ) (t : Table) (node : Page) → Keeps (Unwritten s0) (get_node_max_key_on fuel t node)
  unfolding get_node_max_key_on
  get_node_max_key_on-Unwritten zero t node = search (tree_rules) depth 24
  get_node_max_key_on-Unwritten (suc fuel) t node =
      search (tree_rules, get_node_max_key_on-Unwritten fuel t) depth 24

  pub get_node_max_key-Unwritten :
      (t : Table) (node : Page) → Keeps (Unwritten s0) (get_node_max_key t node)
  unfolding get_node_max_key
  get_node_max_key-Unwritten t node = search (tree_rules, get_node_max_key_on-Unwritten)

  pub child_page-Unwritten : (node : Page) (i : ℕ) → Keeps (Unwritten s0) (child_page node i)
  unfolding child_page
  child_page-Unwritten node i = search (tree_rules)

  pub set_child_page-Unwritten : (n i v : ℕ) → Keeps (Unwritten s0) (set_child_page n i v)
  unfolding set_child_page
  set_child_page-Unwritten n i v = search (tree_rules)

  pub set_parent-Unwritten : (n v : ℕ) → Keeps (Unwritten s0) (set_parent n v)
  unfolding set_parent
  set_parent-Unwritten n v = search (tree_rules)

  adopt_children-Unwritten : (left n i : ℕ) → Keeps (Unwritten s0) (adopt_children left n i)
  unfolding adopt_children
  adopt_children-Unwritten left zero i = search tree_rules depth 24
  adopt_children-Unwritten left (suc n) i =
      search (tree_rules, child_page-Unwritten, adopt_children-Unwritten left n) depth 24

  adopt_all_children-Unwritten : (left : ℕ) → Keeps (Unwritten s0) (adopt_all_children left)
  unfolding adopt_all_children
  adopt_all_children-Unwritten left = search (tree_rules, adopt_children-Unwritten) depth 24

  link_new_root-Unwritten :
      (t : Table) (left right : ℕ) → Keeps (Unwritten s0) (link_new_root t left right)
  unfolding link_new_root
  link_new_root-Unwritten t left right =
      search (tree_rules, get_node_max_key-Unwritten, set_child_page-Unwritten) depth 24

  pub create_new_root-Unwritten :
      (t : Table) (right : ℕ) → Keeps (Unwritten s0) (create_new_root t right)
  unfolding create_new_root
  create_new_root-Unwritten t right =
      search (tree_rules, adopt_all_children-Unwritten, link_new_root-Unwritten) depth 24

  pub update_internal_node_key-Unwritten :
      (n old_key new_key : ℕ) → Keeps (Unwritten s0) (update_internal_node_key n old_key new_key)
  unfolding update_internal_node_key
  update_internal_node_key-Unwritten n old_key new_key = search (tree_rules) depth 24

  pub internal_node_child_page_at-Unwritten :
      (node : Page) (i : ℕ) → Keeps (Unwritten s0) (internal_node_child_page_at node i)
  unfolding internal_node_child_page_at
  internal_node_child_page_at-Unwritten node i = search (tree_rules, child_page-Unwritten)

  find_child_index_from-Unwritten :
      (node : Page) (child n i : ℕ) → Keeps (Unwritten s0) (find_child_index_from node child n i)
  unfolding find_child_index_from
  find_child_index_from-Unwritten node child zero i = search tree_rules depth 24
  find_child_index_from-Unwritten node child (suc n) i =
      search (tree_rules, child_page-Unwritten, find_child_index_from-Unwritten node child n) depth
        24

  pub internal_node_find_child_index-Unwritten :
      (node : Page) (child : ℕ) → Keeps (Unwritten s0) (internal_node_find_child_index node child)
  unfolding internal_node_find_child_index
  internal_node_find_child_index-Unwritten node child =
      search (tree_rules, find_child_index_from-Unwritten)

  recompute_keys_from-Unwritten :
      (t : Table) (page n i : ℕ) → Keeps (Unwritten s0) (recompute_keys_from t page n i)
  unfolding recompute_keys_from
  recompute_keys_from-Unwritten t page zero i = search tree_rules depth 24
  recompute_keys_from-Unwritten t page (suc n) i =
      search
        (
          tree_rules,
          child_page-Unwritten,
          get_node_max_key-Unwritten,
          recompute_keys_from-Unwritten t page n,
        )
        depth 24

  pub internal_node_recompute_keys-Unwritten :
      (t : Table) (page : ℕ) → Keeps (Unwritten s0) (internal_node_recompute_keys t page)
  unfolding internal_node_recompute_keys
  internal_node_recompute_keys-Unwritten t page =
      search (tree_rules, recompute_keys_from-Unwritten) depth 24
