-- ===== src/Pager/Cache/Load.antt =====
-- get_page as a read of the store: what it returns, and what it leaves alone.
use sqlyt.Base.{ℕ, ◌≤◌, ◌<◌, ◌≡◌, ◌≢◌, Option, none, some, arith}
use sqlyt.Page.{Page}
use sqlyt.Node.{table_max_pages}
use sqlyt.Pager.{Pager, done, exited}
use sqlyt.Pager.Cache.{load_page, cache_page, get_page}

-- What a reader sees of a page: the cached bytes, else what a cache miss would load.
unfoldable pub seen : Pager → ℕ → Option Page
seen s n = elim (s.pages n) [ some p ↦ some p | none ↦ load_page s n ]

pub get_page-exited : (s : Pager) (n : ℕ) → table_max_pages ≤ n → get_page n s ≡ exited
unfolding get_page
get_page-exited s n h = ground arith

-- The state behind a read of page `n`, whose bytes are `p`.
unfoldable pub with_cached : Pager → ℕ → Page → Pager
unfolding cache_page
with_cached s n p = elim (s.pages n) [ some _ ↦ s | none ↦ cache_page n p s ]

module _ (s : Pager) (n : ℕ) (p : Page) (shown : seen s n ≡ some p) where
  pub get_page-done : n < table_max_pages → get_page n s ≡ done p (with_cached s n p)
  unfolding get_page seen with_cached
  get_page-done h = ground arith

  pub with_cached-pages : (with_cached s n p).pages n ≡ some p
  unfolding seen with_cached
  with_cached-pages = ground arith

  pub seen-with_cached : (m : ℕ) → seen (with_cached s n p) m ≡ seen s m
  unfolding seen with_cached load_page
  seen-with_cached m = ground arith

pub with_cached-pages_ne :
    (s : Pager) (n : ℕ) (p : Page) (m : ℕ) → m ≢ n → (with_cached s n p).pages m ≡ s.pages m
unfolding with_cached
with_cached-pages_ne s n p m h = ground arith
