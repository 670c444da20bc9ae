-- ===== src/Pager/Wal/Kept.antt =====
-- The commit of src/pager.c goes on with a WAL that tells all that the mapping in memory does.
use sqlyt.Base.{
  ℕ, ◌+◌, ◌≡◌, refl, sym, ◌∙◌, ap, not, ◌&&◌, leb, true, some, List, [], ◌∷◌, arith, length, ◌<◌,
  inl, inr, Bool-cases, length-append, update, ==_ne,
}
use sqlyt.Page.{u32_mod}
use sqlyt.Node.{table_max_pages}
use sqlyt.Pager.{Frame, Pager}
use sqlyt.Pager.Returns
use sqlyt.Pager.Returns.{Returns, returns}
use sqlyt.Pager.Wal.{
  count_dirty, checkpoint_if_needed, pager_commit_transaction_sync, wal_checkpoint_threshold,
}
use sqlyt.Pager.Wal.Durable.{View, overlay, durable, committed_length}
use sqlyt.Pager.Wal.Recovery.{mapped_view}
use sqlyt.Pager.Wal.Append.{append-IsCommitted, durable-append_whole}
use sqlyt.Pager.Wal.Transaction.{
  AllCached, IsLastDirty, dirty_frames, dirty_frames-Commits, length-dirty_frames,
  count_dirty-Counted,
}
use sqlyt.Pager.Wal.Flush.{wal_view, Flushed, flush_dirty-Flushed}
use sqlyt.Pager.Wal.Checkpoint.{Checkpointed, background_checkpoint_task-Checkpointed}
use sqlyt.Pager.Wal.Interrupted.{IsLogged}

-- What frames show of a page depends on that page of the view only.
overlay_ext : (v w : View) (fs : List Frame) (n : ℕ) → v n ≡ w n → overlay v fs n ≡ overlay w fs n
unfolding overlay
overlay_ext v w [] n e = e
overlay_ext v w (f ∷ fs) n e =
    overlay_ext (update v f.page_num (some f.content)) (update w f.page_num (some f.content)) fs n
      (ground (arith, e))

Checkpointed-IsLogged : (s s' : Pager) → Checkpointed s s' → IsLogged s'
unfolding mapped_view durable committed_length
Checkpointed-IsLogged s s' c = record {
  ok = c.ok;
  committed = rw c.frames refl;
  few = rw c.frames (omega arith);
  torn = rw c.torn (omega arith);
  shown = λ n hn. rw c.frames (ground arith);
}

checkpoint_if_needed-IsLogged :
    (s : Pager) → IsLogged s → Returns (λ _ s'. IsLogged s') (checkpoint_if_needed s)
unfolding checkpoint_if_needed
checkpoint_if_needed-IsLogged s l =
    elim (Bool-cases
      (leb wal_checkpoint_threshold s.wal_frame_count && not s.checkpoint_in_progress)) [
        | inr below ↦ rw below (returns l)
        | inl reached ↦ rw reached (
            Returns.mono
              (background_checkpoint_task-Checkpointed (record s { checkpoint_in_progress = true })
                (record { counted = l.ok.counted; mapped = l.ok.mapped }))
              (λ u s' c. Checkpointed-IsLogged _ s' c))
      ]

module _ (s : Pager) (l : IsLogged s) (cached : AllCached s.page_dirty s.pages)
    (few : length s.wal.frames + table_max_pages < u32_mod) where
  Flushed-IsLogged :
      (t : Pager) (last : ℕ)
      → IsLastDirty s.page_dirty last table_max_pages 0
      → Flushed s table_max_pages 0 last tt t
      → IsLogged t
  Flushed-IsLogged t last is_last (a, d) =
      let c = dirty_frames-Commits s.page_dirty s.pages last cached table_max_pages 0 is_last in
      record {
        ok = a.ok;
        committed = rw a.frames (append-IsCommitted s.wal.frames _ l.committed c);
        few = rw a.frames (
            omega (
              arith,
              length-append {0} s.wal.frames
                  (dirty_frames s.page_dirty s.pages last table_max_pages 0),
              length-dirty_frames s.page_dirty s.pages last table_max_pages 0,
            ));
        torn = omega (arith, a.torn, l.torn);
        shown = λ n hn.
            ap (λ (v : View). v n) a.view
            ∙ (overlay_ext (wal_view s) (durable s.wal.frames) _ n (l.shown n hn)
                ∙ rw a.frames (sym (durable-append_whole s.wal.frames _ l.committed c n)));
      }

  -- From a pager whose WAL ends in a commit and whose mapping shows what is durable in it, whose dirty
  -- pages are cached, with room for frame numbers below 2 ^ 32, a commit, with a checkpoint or without,
  -- returns and leaves a pager that is so again.
  pub pager_commit_transaction_sync-IsLogged :
      Returns (λ _ s'. IsLogged s') (pager_commit_transaction_sync s)
  unfolding pager_commit_transaction_sync
  pager_commit_transaction_sync-IsLogged =
      elim (count_dirty-Counted s.page_dirty table_max_pages 0 0 0) [
        | inl (clean, none_counted) ↦ rw none_counted (returns l)
        | inr (more, is_last) ↦
            rw (==_ne (count_dirty s.page_dirty table_max_pages 0 (0, 0)).0 0 (λ e. omega arith)) (
              Returns.bind
                (flush_dirty-Flushed table_max_pages 0
                  (count_dirty s.page_dirty table_max_pages 0 (0, 0)).1 s l.ok few cached)
                (λ u t f. checkpoint_if_needed-IsLogged t (Flushed-IsLogged t _ is_last f)))
      ]
