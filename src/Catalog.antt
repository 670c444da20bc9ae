-- ===== src/Catalog.antt =====
-- Rows of the catalog: catalog_write_value and catalog_read_value of src/btree.c, with strncpy.
mod Tests
pub mod Reads
use sqlyt.Base.{ℕ, zero, suc, ◌+◌, ◌-◌, Bool, List, [], ◌∷◌, ◌==◌, if◌then◌else◌, length, take}
use sqlyt.Page.{Page, get_u32, put_u32, memcpy, memset, of_bytes}
use sqlyt.Table.{catalog_table_name_size, catalog_schema_storage, max_table_name_length, Text}

-- `strncpy(p + off, text, n)`: the text, cut to `n` bytes, and zeros.
unfoldable pub strncpy : Page → (off : ℕ) → Text → (n : ℕ) → Page
strncpy p off text n = memcpy p off (of_bytes (take n text)) 0 n

-- The text that strncpy of `n` bytes from `p + off` leaves in a buffer with a zero behind it.
unfoldable pub read_text : Page → (off n : ℕ) → Text
read_text p off zero = []
read_text p off (suc n) =
    let rest = read_text p (off + 1) n in if p off == 0 then [] else p off ∷ rest

abbrev pub catalog_name_offset : ℕ
catalog_name_offset = 4

abbrev pub catalog_schema_offset : ℕ
catalog_schema_offset = catalog_name_offset + catalog_table_name_size

unfoldable pub catalog_write_value :
    (root_page_key : ℕ) (table_name schema_text : Text) (dest_value : Page) → Page
unfolding strncpy
catalog_write_value root_page_key table_name schema_text dest_value =
    let keyed = put_u32 dest_value 0 root_page_key in
    let cleared = memset keyed catalog_name_offset 0 catalog_table_name_size in
    let named = strncpy cleared catalog_name_offset table_name (catalog_table_name_size - 1) in
    let emptied = memset named catalog_schema_offset 0 catalog_schema_storage in
    strncpy emptied catalog_schema_offset schema_text (catalog_schema_storage - 1)

-- The key, the name and the schema of the value at `value + off`.
unfoldable pub catalog_read_value : (value : Page) (off schema_cap : ℕ) → ℕ × Text × Text
unfolding read_text
catalog_read_value value off schema_cap = (
  get_u32 value off,
  read_text value (off + catalog_name_offset) max_table_name_length,
  read_text value (off + catalog_schema_offset) (schema_cap - 1),
)
