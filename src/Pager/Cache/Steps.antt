-- ===== src/Pager/Cache/Steps.antt =====
-- Single steps on the cache, as equations on runs.
use sqlyt.Base.{ℕ, ◌<◌, ◌≡◌, arith, true, some, update}
use sqlyt.Page.{Page}
use sqlyt.Node.{table_max_pages}
use sqlyt.Pager.{Pager, done}
use sqlyt.Pager.Cache.{mark_page_dirty, peek, poke}

pub peek-done : (n : ℕ) (s : Pager) (q : Page) → s.pages n ≡ some q → peek n s ≡ done q s
unfolding peek
peek-done n s q e = rw (peek, e)

pub poke-done :
    (n : ℕ) (f : Page → Page) (s : Pager) (p : Page)
    → s.pages n ≡ some p
    → poke n f s ≡ done tt (record s { pages = update s.pages n (some (f p)) })
unfolding poke
poke-done n f s p e = rw (poke, e)

pub mark_page_dirty-done :
    (n : ℕ) (s : Pager)
    → n < table_max_pages
    → mark_page_dirty n s ≡ done tt (record s { page_dirty = update s.page_dirty n true })
unfolding mark_page_dirty
mark_page_dirty-done n s h = ground arith
