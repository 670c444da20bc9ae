-- ===== src/Node/Fields.antt =====
-- What the initialisers and the checked child pointer of a node give.
use sqlyt.Base.{◌≡◌, refl, false}
use sqlyt.Page.{Page, get_u32, put_u32, put_u8}
use sqlyt.Node.{
  node_leaf, get_node_type, is_node_root, leaf_node_num_cells, leaf_node_next_leaf,
  initialize_leaf_node,
}

-- A leaf node that was initialised is an empty leaf, not a root, with no sibling.
pub record IsEmptyLeaf (p : Page) : Type 0 where
  pub type : get_node_type p ≡ node_leaf
  pub cells : leaf_node_num_cells p ≡ 0
  pub next : leaf_node_next_leaf p ≡ 0

pub initialize_leaf_node-IsEmptyLeaf : (p : Page) → IsEmptyLeaf (initialize_leaf_node p)
unfolding initialize_leaf_node get_node_type leaf_node_num_cells leaf_node_next_leaf put_u32 put_u8
    get_u32
initialize_leaf_node-IsEmptyLeaf p = record { type = refl; cells = refl; next = refl }

pub is_node_root-initialize_leaf_node : (p : Page) → is_node_root (initialize_leaf_node p) ≡ false
unfolding initialize_leaf_node is_node_root put_u32 put_u8
is_node_root-initialize_leaf_node p = refl
