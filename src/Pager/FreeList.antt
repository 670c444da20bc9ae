-- ===== src/Pager/FreeList.antt =====
-- The list of free pages of src/pager.c: the head is in the header, and each free page holds the
-- number of the next in its last four bytes.
pub mod Stack
pub mod Pop
pub mod Push
use sqlyt.Base.{
  ℕ, ◌+◌, ◌-◌, Bool, true, false, not, ◌&&◌, ◌||◌, ltb, leb, ◌==◌, if◌then◌else◌, update,
}
use sqlyt.Page.{Page, page_size, get_u32, put_u32, put_u8, memset}
use sqlyt.Node.{table_max_pages, node_leaf}
use sqlyt.Pager.{Pager, Run, done, M, pure, ◌>>=◌, ◌>>◌, gets, modify}
use sqlyt.Pager.Cache.{mark_page_dirty, get_page, poke}
use sqlyt.Pager.Header.{version_offset, free_page_head_offset, db_format_version}

-- `PAGE_SIZE - sizeof(uint32_t)`
abbrev pub next_free_offset : ℕ
next_free_offset = page_size - 4

abbrev pub set_header_free_page_head : ℕ → Page → Page
set_header_free_page_head next header = put_u32 header free_page_head_offset next

-- The branch that takes the first free page, with the header that was read.
unfoldable pub take_free_page : Page → M ℕ
unfolding pure ◌>>=◌ modify
take_free_page header = do
  let page_num = get_u32 header free_page_head_offset
  free_page ← get_page page_num
  let next = get_u32 free_page next_free_offset
  poke 0 (set_header_free_page_head next)
  modify (λ s. record s { free_page_head = next })
  mark_page_dirty 0
  poke page_num (λ p. memset p 0 0 page_size)
  mark_page_dirty page_num
  modify (λ s. record s { page_to_wal_frame = update s.page_to_wal_frame page_num 0 })
  pure page_num

unfoldable pub take_new_page : M ℕ
unfolding pure ◌>>=◌ gets
take_new_page = do num_pages ← gets (λ s. s.num_pages); mark_page_dirty num_pages; pure num_pages

unfoldable pub get_unused_page_num : M ℕ
unfolding take_free_page take_new_page ◌>>=◌
get_unused_page_num = do
  header ← get_page 0
  if (get_u32 header version_offset == db_format_version)
        && not (get_u32 header free_page_head_offset == 0)
      then take_free_page header
      else take_new_page

-- What pager_free_page makes of the page: zeros, the type of a leaf, and the next free page.
unfoldable pub free_node : ℕ → Page → Page
free_node next p =
    put_u32 (put_u8 (put_u8 (memset p 0 0 page_size) 0 node_leaf) 1 0) next_free_offset next

unfoldable pub pager_free_page : ℕ → M (Unit {0})
unfolding free_node pure ◌>>=◌ gets modify
pager_free_page page_num = if (page_num == 0) || leb table_max_pages page_num then pure tt else do
  master_root_page ← gets (λ s. s.master_root_page)
  if page_num == master_root_page then pure tt else do
    header ← get_page 0
    if not (get_u32 header version_offset == db_format_version) then pure tt else do
      page ← get_page page_num
      let next = get_u32 header free_page_head_offset
      poke page_num (free_node next)
      poke 0 (set_header_free_page_head page_num)
      modify (λ s. record s { free_page_head = page_num })
      mark_page_dirty page_num
      mark_page_dirty 0
