-- ===== src/Pager/Header.antt =====
-- The header on page 0 (`DbFileHeader` in include/sqlyt.h) and its check in src/pager.c.
pub mod Fields
use Prim.Native.Char.{code}
use Prim.Native.String.{String}
use sqlyt.Base.{ℕ, Bool, true, false, not, ◌&&◌, ◌||◌, List, [], ◌∷◌, leb, ◌==◌, if◌then◌else◌}
use sqlyt.Page.{Page, page_size, get_u32, put_u32, memcpy, memset, of_bytes, slice}
use sqlyt.Node.{table_max_pages}

-- The bytes of a text literal.
abbrev pub codes : String → List ℕ
codes String.[] = []
codes (String.◌∷◌ c s) = code c ∷ codes s

-- DB_HEADER_MAGIC
abbrev pub db_header_magic : List ℕ
db_header_magic = codes "SQLYTDB1"

abbrev pub db_format_version : ℕ
db_format_version = 3

abbrev pub db_header_master_root_page : ℕ
db_header_master_root_page = 1

abbrev pub db_header_first_user_root_page : ℕ
db_header_first_user_root_page = 2

abbrev pub version_offset : ℕ
version_offset = 8

abbrev pub master_root_page_offset : ℕ
master_root_page_offset = 12

abbrev pub next_root_page_offset : ℕ
next_root_page_offset = 16

abbrev pub free_page_head_offset : ℕ
free_page_head_offset = 20

unfoldable pub same_bytes : List ℕ → List ℕ → Bool
same_bytes [] [] = true
same_bytes [] (y ∷ ys) = false
same_bytes (x ∷ xs) [] = false
same_bytes (x ∷ xs) (y ∷ ys) = (x == y) && same_bytes xs ys

unfoldable pub header_is_valid : Page → Bool
unfolding same_bytes slice
header_is_valid header =
    let master = get_u32 header master_root_page_offset in
    let next_root = get_u32 header next_root_page_offset in
    if not (same_bytes (slice header 0 8) db_header_magic)
    then false
    else if not (get_u32 header version_offset == db_format_version)
    then false
    else if (master == 0)
        || (leb table_max_pages master || (leb next_root master || leb table_max_pages next_root))
    then false
    else if leb table_max_pages (get_u32 header free_page_head_offset)
    then false
    else true

-- `memset` of the page and the assignments to the fields, in db_open.
unfoldable pub write_header : Page → (master next_root : ℕ) → Page
write_header p master next_root =
    put_u32
      (put_u32
        (put_u32
          (put_u32 (memcpy (memset p 0 0 page_size) 0 (of_bytes db_header_magic) 0 8) version_offset
            db_format_version)
          master_root_page_offset master)
        next_root_page_offset next_root)
      free_page_head_offset 0
