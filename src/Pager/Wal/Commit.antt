-- ===== src/Pager/Wal/Commit.antt =====
-- pager_commit_transaction_sync as a whole: it returns, and the store then holds the dirty pages.
use sqlyt.Base.{
  ℕ, ◌+◌, ◌≡◌, refl, ◌∙◌, true, false, not, ◌&&◌, none, some, arith, leb, if◌then◌else◌, length,
  ◌<◌, inl, inr, Bool-cases, ==_ne,
}
use sqlyt.Page.{Page, page_size, u32_mod}
use sqlyt.Node.{table_max_pages}
use sqlyt.Pager.{Pager}
use sqlyt.Pager.Returns
use sqlyt.Pager.Returns.{Returns, returns}
use sqlyt.Pager.Wal.{
  count_dirty, checkpoint_if_needed, pager_commit_transaction_sync, wal_checkpoint_threshold,
}
use sqlyt.Pager.Wal.Transaction.{AllCached, overlay-dirty_frames, count_dirty-Counted, NoneDirty}
use sqlyt.Pager.Wal.Flush.{IsWalOk, wal_view, Flushed, flush_dirty-Flushed}
use sqlyt.Pager.Wal.Checkpoint.{stored, SameStore, background_checkpoint_task-Checkpointed}

checkpoint_if_needed-store :
    (s : Pager)
    → IsWalOk s
    → Returns
        (λ _ s'.
          IsWalOk s'
          × SameStore (wal_view s') (wal_view s) s'.file s.file
          × (s'.pages ≡ s.pages)
          × (s'.page_dirty ≡ s.page_dirty))
        (checkpoint_if_needed s)
unfolding checkpoint_if_needed
checkpoint_if_needed-store s ok =
    elim (Bool-cases
      (leb wal_checkpoint_threshold s.wal_frame_count && not s.checkpoint_in_progress)) [
        | inr below ↦ rw below (returns (ok, λ n k hn hk. refl, refl, refl))
        | inl reached ↦ rw reached (
            Returns.mono
              (background_checkpoint_task-Checkpointed (record s { checkpoint_in_progress = true })
                (record { counted = ok.counted; mapped = ok.mapped }))
              (λ u s' c. (c.ok, c.store, c.pages, c.dirty)))
      ]

-- What a commit leaves behind: the cache as it was, no dirty page, and the store with the bytes of
-- the pages that were dirty and of the others as it held them.
pub record Committed (s s' : Pager) : Type 0 where
  pub ok : IsWalOk s'
  pub pages : s'.pages ≡ s.pages
  pub clean : (n : ℕ) → n < table_max_pages → s'.page_dirty n ≡ false
  pub written :
      (n k : ℕ) (p : Page)
      → n < table_max_pages
      → k < page_size
      → s.page_dirty n ≡ true
      → s.pages n ≡ some p
      → stored (wal_view s') s'.file n k ≡ p k
  pub kept :
      (n k : ℕ)
      → n < table_max_pages
      → k < page_size
      → s.page_dirty n ≡ false
      → stored (wal_view s') s'.file n k ≡ stored (wal_view s) s.file n k

Flushed-stored :
    (s s' : Pager) (last n k : ℕ)
    → AllCached s.page_dirty s.pages
    → Flushed s table_max_pages 0 last tt s'
    → n < table_max_pages
    → stored (wal_view s') s'.file n k ≡ (
        if s.page_dirty n
        then elim (s.pages n) [ none ↦ stored (wal_view s) s.file n k | some p ↦ p k ]
        else stored (wal_view s) s.file n k)
unfolding stored
Flushed-stored s s' last n k cached (a, d) hn =
    rw (a.view, a.file)
      (ground (
        arith,
        cached n,
        overlay-dirty_frames s.page_dirty s.pages last cached table_max_pages 0 (wal_view s) n,
      ))

module _ (s : Pager) (ok : IsWalOk s) (cached : AllCached s.page_dirty s.pages) where
  nothing_to_commit : NoneDirty s.page_dirty table_max_pages 0 → Committed s s
  nothing_to_commit none_dirty = record {
    ok = ok;
    pages = refl;
    clean = λ n hn. none_dirty n (omega arith) hn;
    written = λ n k p hn hk d e. cc (none_dirty n (omega arith) hn);
    kept = λ n k hn hk d. refl;
  }

  Flushed-Committed :
      (t s' : Pager) (last : ℕ)
      → Flushed s table_max_pages 0 last tt t
      → IsWalOk s'
      → SameStore (wal_view s') (wal_view t) s'.file t.file
      → s'.pages ≡ t.pages
      → s'.page_dirty ≡ t.page_dirty
      → Committed s s'
  Flushed-Committed t s' last (a, d) ok' same p e = record {
    ok = ok';
    pages = p ∙ a.pages;
    clean = λ n hn. rw e (ground (arith, d n));
    written = λ n k q hn hk marked found.
        same n k hn hk ∙ (Flushed-stored s t last n k cached (a, d) hn ∙ rw (marked, found));
    kept = λ n k hn hk unmarked.
        same n k hn hk ∙ (Flushed-stored s t last n k cached (a, d) hn ∙ rw unmarked);
  }

  -- From a pager in order whose dirty pages are cached, with room for frame numbers below 2 ^ 32, the
  -- commit returns, on all three ways
  -- through it (nothing dirty, no checkpoint, a checkpoint): no page is dirty any more, the cache
  -- is as it was, and the store holds the cached bytes of the pages that were dirty and what it
  -- held before of the others.
  pub pager_commit_transaction_sync-Committed :
      length s.wal.frames + table_max_pages < u32_mod
      → Returns (λ _ s'. Committed s s') (pager_commit_transaction_sync s)
  unfolding pager_commit_transaction_sync
  pager_commit_transaction_sync-Committed few =
      elim (count_dirty-Counted s.page_dirty table_max_pages 0 0 0) [
        | inl (clean, none_counted) ↦ rw none_counted (returns (nothing_to_commit clean))
        | inr (more, is_last) ↦
            rw (==_ne (count_dirty s.page_dirty table_max_pages 0 (0, 0)).0 0 (λ e. omega arith)) (
              Returns.bind
                (flush_dirty-Flushed table_max_pages 0
                  (count_dirty s.page_dirty table_max_pages 0 (0, 0)).1 s ok few cached)
                (λ u t f.
                  Returns.mono (checkpoint_if_needed-store t f.0.ok)
                    (λ u' s' c. Flushed-Committed t s' _ f c.0 c.1 c.2 c.3)))
      ]
