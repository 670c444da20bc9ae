-- ===== src/Pager/Cache.antt =====
-- The page cache: get_page and mark_page_dirty of src/btree.c, and reads and writes through the
-- pointer that get_page returned. Pages are never evicted while the program runs, so such a pointer
-- is the page number; `fault` stands for a pointer that get_page never gave.
pub mod Load
pub mod Reads
pub mod Steps
use sqlyt.Base.{
  ℕ, suc, ◌+◌, ◌/◌, ◌%◌, ◌-◌, Bool, true, Option, none, some, ltb, leb, ◌==◌, if◌then◌else◌, update,
  get_elem?,
}
use sqlyt.Page.{Page, page_size, zero_page}
use sqlyt.Node.{table_max_pages}
use sqlyt.Pager.{
  Frame, Pager, Run, done, exited, fault, M, pure, exit_failure, ◌>>=◌, modify, read_page,
}

unfoldable pub mark_page_dirty : ℕ → M (Unit {0})
mark_page_dirty page_num s =
    if ltb page_num table_max_pages
    then done tt (record s { page_dirty = update s.page_dirty page_num true })
    else done tt s

-- `file_length / PAGE_SIZE`, rounded up.
unfoldable pub pages_in_file : ℕ → ℕ
pages_in_file file_length =
    if file_length % page_size == 0 then file_length / page_size else file_length / page_size + 1

-- What a cache miss reads: the mapped WAL frame, else the database file, else zeros. A mapped frame
-- that is not in the WAL leaves the buffer as malloc gave it.
unfoldable pub load_page : Pager → ℕ → Option Page
unfolding pages_in_file
load_page s page_num =
    if ltb 0 (s.page_to_wal_frame page_num)
    then elim (get_elem? s.wal.frames (s.page_to_wal_frame page_num - 1)) [
      | none ↦ none
      | some f ↦ some f.content
    ]
    else if ltb page_num (pages_in_file s.file_length)
    then some (read_page s.file page_num)
    else some zero_page

unfoldable pub cache_page : ℕ → Page → Pager → Pager
cache_page page_num p s = record s {
  pages = update s.pages page_num (some p);
  num_pages = if leb s.num_pages page_num then page_num + 1 else s.num_pages;
}

unfoldable pub get_page : ℕ → M Page
get_page page_num s = if leb table_max_pages page_num then exited else elim (s.pages page_num) [
  | some p ↦ done p s
  | none ↦ elim (load_page s page_num) [ none ↦ fault | some p ↦ done p (cache_page page_num p s) ]
]

-- The bytes behind a pointer, read again.
unfoldable pub peek : ℕ → M Page
peek page_num s = elim (s.pages page_num) [ none ↦ fault | some p ↦ done p s ]

-- A write through a pointer.
unfoldable pub poke : ℕ → (Page → Page) → M (Unit {0})
poke page_num f s = elim (s.pages page_num) [
  | none ↦ fault
  | some p ↦ done tt (record s { pages = update s.pages page_num (some (f p)) })
]
