-- ===== src/Tree/NewRoot.antt =====
-- The new root that create_new_root makes of a root leaf: its first child pointer is set through a check
-- of the bytes that were there before, which are the first key of the old leaf.
mod Tests
use sqlyt.Base.{
  ℕ, ◌+◌, ◌*◌, ◌≤◌, ◌<◌, ◌≡◌, ◌≢◌, refl, sym, ap, ◌∙◌, arith, Bool, true, false, Option, none, some,
  leb, ltb, ◌==◌, if◌then◌else◌, update, le→leb,
}
use sqlyt.Page.{Page, u32_max, get_u32, put_u32, put_u8}
use sqlyt.Node.{
  table_max_pages, invalid_page_num, set_node_type, set_node_root, set_internal_node_num_keys,
  set_internal_node_right_child, initialize_internal_node, internal_node_num_keys,
  internal_node_child, internal_node_child_ptr, internal_node_cell,
}
use sqlyt.Pager.{Pager, Run, done, exited, exit_failure, M, pure, ◌>>=◌, ◌>>◌}
use sqlyt.Pager.Cache.{peek, poke}
use sqlyt.Pager.Cache.Steps.{peek-done, poke-done}
use sqlyt.Table.{Table, tbl_leaf_key, tbl_leaf_cell}
use sqlyt.Cursor.{or_exit}
use sqlyt.Tree.{set_child_page, link_new_root}

abbrev one_key : Page → Page
one_key p = set_internal_node_num_keys (set_node_root (initialize_internal_node p) true) 1

-- The header of the new root covers nothing of the first cell.
first_pointer : (p : Page) → get_u32 (one_key p) 14 ≡ get_u32 p 14
unfolding initialize_internal_node set_node_type set_node_root set_internal_node_num_keys
    set_internal_node_right_child get_u32 put_u32 put_u8
first_pointer p = refl

one_key-num_keys : (p : Page) → internal_node_num_keys (one_key p) ≡ 1
unfolding initialize_internal_node set_node_type set_node_root set_internal_node_num_keys
    set_internal_node_right_child get_u32 put_u32 put_u8 internal_node_num_keys
one_key-num_keys p = refl

first_key : (t : Table) (p : Page) → tbl_leaf_key t p 0 ≡ get_u32 p 14
unfolding tbl_leaf_key tbl_leaf_cell
first_key t p = ap (get_u32 p) (omega arith)

internal_node_child-one_key :
    (p : Page) → table_max_pages ≤ get_u32 p 14 → internal_node_child (one_key p) 0 ≡ none
unfolding internal_node_child internal_node_child_ptr internal_node_cell
internal_node_child-one_key p h = ground (arith, one_key-num_keys p, first_pointer p)

set_child_page-exited :
    (n i v : ℕ) (s : Pager) (q : Page)
    → s.pages n ≡ some q
    → internal_node_child q i ≡ none
    → set_child_page n i v s ≡ exited
unfolding set_child_page or_exit exit_failure ◌>>=◌
set_child_page-exited n i v s q e h = rw (peek-done n s q e, h)

-- If the first key of a leaf in the cache is 2000 or more, making the new root over it ends the program: the
-- key is read as a page number that is out of range.
pub link_new_root-exited :
    (t : Table) (left right : ℕ) (s : Pager) (p : Page)
    → s.pages t.root_page_num ≡ some p
    → table_max_pages ≤ tbl_leaf_key t p 0
    → link_new_root t left right s ≡ exited
unfolding link_new_root ◌>>=◌
link_new_root-exited t left right s p e h =
    let poked : Pager = record s { pages = update s.pages t.root_page_num (some (one_key p)) } in
    let cached : poked.pages t.root_page_num ≡ some (one_key p) = ground arith in
    rw (
      poke-done t.root_page_num one_key s p e,
      set_child_page-exited t.root_page_num 0 left poked (one_key p) cached
          (internal_node_child-one_key p (omega (arith, first_key t p))),
    )
