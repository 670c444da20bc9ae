-- ===== src/Search.antt =====
-- The two binary searches of src/btree.c, over the keys of a node as a function of the index. The
-- loops run on fuel; `none` is an unfinished loop.
pub mod Bound
mod Tests
use sqlyt.Base.{ℕ, zero, suc, ◌+◌, ◌/◌, ◌%◌, ◌<◌, Option, none, some, ltb, leb, ◌==◌, if◌then◌else◌}
use sqlyt.Page.{Page, u32_mod}
use sqlyt.Node.{internal_node_num_keys, internal_node_key, leaf_node_num_cells}
use sqlyt.Table.{Table, tbl_leaf_key}

-- The loop of leaf_node_find: it ends where it meets the key.
unfoldable pub leaf_find_loop :
    (keys : ℕ → ℕ) (key : ℕ) → (fuel min_index one_past_max_index : ℕ) → Option ℕ
leaf_find_loop keys key zero min_index one_past_max_index = none
leaf_find_loop keys key (suc fuel) min_index one_past_max_index =
    let index = (min_index + one_past_max_index) % u32_mod / 2 in
    let key_at_index = keys index in
    let lower = leaf_find_loop keys key fuel min_index index in
    let upper = leaf_find_loop keys key fuel (index + 1) one_past_max_index in
    if one_past_max_index == min_index
    then some min_index
    else if key == key_at_index
    then some index
    else if ltb key key_at_index
    then lower
    else upper

-- The loop of internal_node_find_child: the first child whose key is not below the key.
unfoldable pub child_find_loop :
    (keys : ℕ → ℕ) (key : ℕ) → (fuel min_index max_index : ℕ) → Option ℕ
child_find_loop keys key zero min_index max_index = none
child_find_loop keys key (suc fuel) min_index max_index =
    let index = (min_index + max_index) % u32_mod / 2 in
    let key_to_right = keys index in
    let lower = child_find_loop keys key fuel min_index index in
    let upper = child_find_loop keys key fuel (index + 1) max_index in
    if min_index == max_index then some min_index else if leb key key_to_right then lower else upper

-- Each round makes the range smaller, so one round more than its width is enough.
unfoldable pub leaf_find_index : Table → Page → ℕ → Option ℕ
unfolding leaf_find_loop
leaf_find_index t node key =
    leaf_find_loop (tbl_leaf_key t node) key (leaf_node_num_cells node + 1) 0
      (leaf_node_num_cells node)

unfoldable pub internal_node_find_child : Page → ℕ → Option ℕ
unfolding child_find_loop
internal_node_find_child node key =
    child_find_loop (internal_node_key node) key (internal_node_num_keys node + 1) 0
      (internal_node_num_keys node)
