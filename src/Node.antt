-- ===== src/Node.antt =====
-- Node layout and field access of src/btree.c: the header that leaf and internal nodes share, the
-- cells behind it, and the checks on a child index. A node is the bytes of its page; a pointer
-- into it is an offset.
pub mod Fields
use sqlyt.Base.{
  ℕ, ◌+◌, ◌-◌, ◌*◌, Bool, true, false, not, Option, none, some, ltb, leb, ◌==◌, if◌then◌else◌,
}
use sqlyt.Page.{Page, page_size, u32_max, get_u32, put_u32, put_u8}

abbrev pub table_max_pages : ℕ
table_max_pages = 2000

abbrev pub invalid_page_num : ℕ
invalid_page_num = u32_max

-- `enum NodeType`, as the byte that is stored.
abbrev pub node_internal : ℕ
node_internal = 0

abbrev pub node_leaf : ℕ
node_leaf = 1

abbrev pub node_type_offset : ℕ
node_type_offset = 0

abbrev pub is_root_offset : ℕ
is_root_offset = node_type_offset + 1

abbrev pub parent_pointer_offset : ℕ
parent_pointer_offset = is_root_offset + 1

abbrev pub common_node_header_size : ℕ
common_node_header_size = 1 + 1 + 4

abbrev pub internal_node_num_keys_offset : ℕ
internal_node_num_keys_offset = common_node_header_size

abbrev pub internal_node_right_child_offset : ℕ
internal_node_right_child_offset = internal_node_num_keys_offset + 4

abbrev pub internal_node_header_size : ℕ
internal_node_header_size = common_node_header_size + 4 + 4

abbrev pub internal_node_child_size : ℕ
internal_node_child_size = 4

abbrev pub internal_node_cell_size : ℕ
internal_node_cell_size = internal_node_child_size + 4

abbrev pub internal_node_max_keys : ℕ
internal_node_max_keys = 20

abbrev pub leaf_node_num_cells_offset : ℕ
leaf_node_num_cells_offset = common_node_header_size

abbrev pub leaf_node_next_leaf_offset : ℕ
leaf_node_next_leaf_offset = leaf_node_num_cells_offset + 4

abbrev pub leaf_node_header_size : ℕ
leaf_node_header_size = common_node_header_size + 4 + 4

abbrev pub leaf_node_key_size : ℕ
leaf_node_key_size = 4

abbrev pub leaf_node_space_for_cells : ℕ
leaf_node_space_for_cells = page_size - leaf_node_header_size

unfoldable pub get_node_type : Page → ℕ
get_node_type node = node node_type_offset

unfoldable pub set_node_type : Page → ℕ → Page
set_node_type node type = put_u8 node node_type_offset type

unfoldable pub is_node_root : Page → Bool
is_node_root node = not (node is_root_offset == 0)

unfoldable pub set_node_root : Page → Bool → Page
set_node_root node is_root = put_u8 node is_root_offset (if is_root then 1 else 0)

unfoldable pub node_parent : Page → ℕ
node_parent node = get_u32 node parent_pointer_offset

unfoldable pub set_node_parent : Page → ℕ → Page
set_node_parent node v = put_u32 node parent_pointer_offset v

unfoldable pub internal_node_num_keys : Page → ℕ
internal_node_num_keys node = get_u32 node internal_node_num_keys_offset

unfoldable pub set_internal_node_num_keys : Page → ℕ → Page
set_internal_node_num_keys node v = put_u32 node internal_node_num_keys_offset v

unfoldable pub internal_node_right_child : Page → ℕ
internal_node_right_child node = get_u32 node internal_node_right_child_offset

unfoldable pub set_internal_node_right_child : Page → ℕ → Page
set_internal_node_right_child node v = put_u32 node internal_node_right_child_offset v

-- The offset of a cell; its child pointer comes first.
unfoldable pub internal_node_cell : ℕ → ℕ
internal_node_cell cell_num = internal_node_header_size + cell_num * internal_node_cell_size

-- `none` is `exit(EXIT_FAILURE)`.
unfoldable pub internal_node_child_ptr : Page → ℕ → Option ℕ
unfolding internal_node_num_keys internal_node_cell
internal_node_child_ptr node child_num =
    let num_keys = internal_node_num_keys node in
    if ltb num_keys child_num
    then none
    else if child_num == num_keys
    then some internal_node_right_child_offset
    else some (internal_node_cell child_num)

-- The checked pointer: a stored page number that is invalid or out of range ends the program.
unfoldable pub internal_node_child : Page → ℕ → Option ℕ
unfolding internal_node_child_ptr
internal_node_child node child_num = elim (internal_node_child_ptr node child_num) [
  | none ↦ none
  | some p ↦
      if get_u32 node p == invalid_page_num
      then none
      else if leb table_max_pages (get_u32 node p)
      then none
      else some p
]

unfoldable pub internal_node_key : Page → ℕ → ℕ
unfolding internal_node_cell
internal_node_key node key_num =
    get_u32 node (internal_node_cell key_num + internal_node_child_size)

unfoldable pub set_internal_node_key : Page → ℕ → ℕ → Page
unfolding internal_node_cell
set_internal_node_key node key_num v =
    put_u32 node (internal_node_cell key_num + internal_node_child_size) v

unfoldable pub leaf_node_num_cells : Page → ℕ
leaf_node_num_cells node = get_u32 node leaf_node_num_cells_offset

unfoldable pub set_leaf_node_num_cells : Page → ℕ → Page
set_leaf_node_num_cells node v = put_u32 node leaf_node_num_cells_offset v

unfoldable pub leaf_node_next_leaf : Page → ℕ
leaf_node_next_leaf node = get_u32 node leaf_node_next_leaf_offset

unfoldable pub set_leaf_node_next_leaf : Page → ℕ → Page
set_leaf_node_next_leaf node v = put_u32 node leaf_node_next_leaf_offset v

unfoldable pub initialize_leaf_node : Page → Page
unfolding set_node_type set_node_root set_leaf_node_num_cells set_leaf_node_next_leaf
initialize_leaf_node node =
    set_leaf_node_next_leaf
      (set_leaf_node_num_cells (set_node_root (set_node_type node node_leaf) false) 0) 0

unfoldable pub initialize_internal_node : Page → Page
unfolding set_node_type set_node_root set_internal_node_num_keys set_internal_node_right_child
initialize_internal_node node =
    set_internal_node_right_child
      (set_internal_node_num_keys (set_node_root (set_node_type node node_internal) false) 0)
      invalid_page_num
