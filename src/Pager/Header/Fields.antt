-- ===== src/Pager/Header/Fields.antt =====
-- The header that db_open writes, read again.
use sqlyt.Base.{ℕ, ◌<◌, ◌≡◌, refl, ◌∙◌, arith, true, ==_ne, gt→leb}
use sqlyt.Page.{Page, u32_mod, get_u32, put_u32, memcpy, of_bytes, slice}
use sqlyt.Page.Words.{get_u32-put_u32_self, get_u32-put_u32_ne}
use sqlyt.Node.{table_max_pages}
use sqlyt.Pager.Header.{db_header_magic, same_bytes, header_is_valid, write_header}

module _ (p : Page) (master next_root : ℕ) where
  header_version : get_u32 (write_header p master next_root) 8 ≡ 3
  unfolding write_header
  header_version =
      get_u32-put_u32_ne _ 20 0 8 (omega arith)
      ∙ get_u32-put_u32_ne _ 16 next_root 8 (omega arith)
      ∙ get_u32-put_u32_ne _ 12 master 8 (omega arith)
      ∙ get_u32-put_u32_self _ 8 3 (omega arith)

  header_master : master < u32_mod → get_u32 (write_header p master next_root) 12 ≡ master
  unfolding write_header
  header_master h =
      get_u32-put_u32_ne _ 20 0 12 (omega arith)
      ∙ get_u32-put_u32_ne _ 16 next_root 12 (omega arith)
      ∙ get_u32-put_u32_self _ 12 master h

  header_next_root : next_root < u32_mod → get_u32 (write_header p master next_root) 16 ≡ next_root
  unfolding write_header
  header_next_root h =
      get_u32-put_u32_ne _ 20 0 16 (omega arith) ∙ get_u32-put_u32_self _ 16 next_root h

  header_free_page_head : get_u32 (write_header p master next_root) 20 ≡ 0
  unfolding write_header
  header_free_page_head = get_u32-put_u32_self _ 20 0 (omega arith)

  header_magic : slice (write_header p master next_root) 0 8 ≡ db_header_magic
  unfolding write_header slice put_u32 memcpy of_bytes
  header_magic = refl

  -- The header that db_open writes is valid, for a root page of the catalog that is not 0 and a next
  -- root page above it and below the limit, whatever the page held before.
  pub header_is_valid-write_header :
      0 < master
      → master < next_root
      → next_root < table_max_pages
      → header_is_valid (write_header p master next_root) ≡ true
  unfolding header_is_valid same_bytes write_header put_u32 memcpy of_bytes
  header_is_valid-write_header lo order hi =
      rw
        (
          header_magic,
          header_version,
          header_master (omega arith),
          header_next_root (omega arith),
          header_free_page_head,
          ==_ne master 0 (λ e. absurd (omega arith)),
          gt→leb table_max_pages master (omega arith),
          gt→leb next_root master order,
          gt→leb table_max_pages next_root hi,
        )
        refl
