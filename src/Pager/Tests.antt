-- ===== src/Pager/Tests.antt =====
-- Runs of the pager on small stores, and its theorems at them.
use sqlyt.Base.{◌<◌, ◌≡◌, refl, true, false, none, some, [], ◌∷◌, arith, update}
use sqlyt.Page.{Page, put_u32, get_u32, zero_page}
use sqlyt.Node.{table_max_pages}
use sqlyt.Pager.{File, Pager}
use sqlyt.Pager.Returns.{Returns}
use sqlyt.Pager.Cache.Load.{seen}
use sqlyt.Pager.Header.{header_is_valid, write_header}
use sqlyt.Pager.Header.Fields.{header_is_valid-write_header}
use sqlyt.Pager.Wal.{
  count_page, count_dirty, flush_dirty, pager_commit_transaction_sync, background_checkpoint_task,
  copy_frames, pager_open,
}
use sqlyt.Pager.Wal.Durable.{durable, committed_length}
use sqlyt.Pager.Wal.Recovery.{mapped_view}
use sqlyt.Pager.Wal.Append.{IsCommitted}
use sqlyt.Pager.Wal.Transaction.{AllCached}
use sqlyt.Pager.Wal.Flush.{IsWalOk, wal_view}
use sqlyt.Pager.Wal.Atomic.{AllOrNothing, commit_atomic}
use sqlyt.Pager.Wal.Checkpoint.{
  SameStore, Copied, Checkpointed, background_checkpoint_task-Checkpointed,
}
use sqlyt.Pager.Wal.Kept.{pager_commit_transaction_sync-IsLogged}
use sqlyt.Pager.Wal.Interrupted.{IsLogged, checkpoint_interrupted}
use sqlyt.Pager.Wal.Commit.{Committed, pager_commit_transaction_sync-Committed}
use sqlyt.Pager.FreeList.{get_unused_page_num, pager_free_page}
use sqlyt.Pager.FreeList.Stack.{FreeStack}
use sqlyt.Pager.FreeList.Pop.{Popped, get_unused_page_num-pop}
use sqlyt.Pager.FreeList.Push.{Pushed, pager_free_page-push}

abbrev header : Page
header = write_header zero_page 1 2

-- One committed frame in the WAL, and two dirty pages in the cache.
abbrev two_dirty : Pager
two_dirty = record {
  file = record { size = 0; byte = λ k. 0 };
  file_length = 0;
  num_pages = 3;
  master_root_page = 1;
  next_root_page = 2;
  free_page_head = 0;
  pages = update (update (λ i. none) 0 (some header)) 2 (some (λ k. 7));
  wal = record { frames = record { page_num = 0; is_commit = 1; content = header } ∷ []; torn = 0 };
  page_to_wal_frame = update (λ i. 0) 0 1;
  wal_frame_count = 1;
  page_dirty = update (update (λ i. false) 0 true) 2 true;
  checkpoint_in_progress = false;
}

two_dirty-IsWalOk : IsWalOk two_dirty
two_dirty-IsWalOk = record { counted = refl; mapped = λ n. ground arith }

two_dirty-IsCommitted : IsCommitted two_dirty.wal.frames
unfolding committed_length
two_dirty-IsCommitted = refl

two_dirty-AllCached : AllCached two_dirty.page_dirty two_dirty.pages
two_dirty-AllCached i h = ground arith

two_dirty_counted : count_dirty two_dirty.page_dirty table_max_pages 0 (0, 0) ≡ (2, 2)
unfolding count_dirty count_page
two_dirty_counted = refl

some_dirty : 0 < (count_dirty two_dirty.page_dirty table_max_pages 0 (0, 0)).0
some_dirty = rw two_dirty_counted (omega arith)

commit_atomic_example :
    Returns
      (λ _ s'. AllOrNothing two_dirty s')
      (flush_dirty table_max_pages 0
        (count_dirty two_dirty.page_dirty table_max_pages 0 (0, 0)).1
        two_dirty)
commit_atomic_example =
    commit_atomic two_dirty two_dirty-IsWalOk two_dirty-IsCommitted (omega arith)
      two_dirty-AllCached some_dirty

commit_example : Returns (λ _ s'. Committed two_dirty s') (pager_commit_transaction_sync two_dirty)
commit_example =
    pager_commit_transaction_sync-Committed two_dirty two_dirty-IsWalOk two_dirty-AllCached
      (omega arith)

checkpoint_example :
    Returns (λ _ s'. Checkpointed two_dirty s') (background_checkpoint_task two_dirty)
checkpoint_example = background_checkpoint_task-Checkpointed two_dirty two_dirty-IsWalOk

two_dirty-IsLogged : IsLogged two_dirty
unfolding mapped_view durable
two_dirty-IsLogged = record {
  ok = two_dirty-IsWalOk;
  committed = two_dirty-IsCommitted;
  few = omega arith;
  torn = omega arith;
  shown = λ n hn. ground arith;
}

commit-IsLogged_example : Returns (λ _ s'. IsLogged s') (pager_commit_transaction_sync two_dirty)
commit-IsLogged_example =
    pager_commit_transaction_sync-IsLogged two_dirty two_dirty-IsLogged two_dirty-AllCached
      (omega arith)

checkpoint_interrupted_example :
    (file' : File) × (copy_frames two_dirty.wal.frames two_dirty.page_to_wal_frame 1 0
        two_dirty.file
      ≡ some file')
    × Copied two_dirty.wal.frames two_dirty.page_to_wal_frame two_dirty.file 1 0 file'
    × (s' : Pager) × (pager_open file' two_dirty.wal ≡ some s')
    × SameStore (wal_view s') (wal_view two_dirty) s'.file two_dirty.file
checkpoint_interrupted_example =
    checkpoint_interrupted two_dirty 1 two_dirty-IsLogged refl (omega arith)

-- Page 2 is free.
abbrev one_free : Pager
one_free = record two_dirty {
  pages = update (update (λ i. none) 0 (some (put_u32 header 20 2))) 2 (some zero_page);
}

one_free-FreeStack : FreeStack one_free (2 ∷ [])
unfolding seen write_header put_u32 get_u32
one_free-FreeStack = record {
  header = put_u32 header 20 2;
  shown = refl;
  version = refl;
  chain = (refl, omega arith, omega arith, (zero_page, refl, refl));
  distinct = (tt, tt);
}

get_unused_page_num_example : Returns (Popped one_free 2 []) (get_unused_page_num one_free)
get_unused_page_num_example = get_unused_page_num-pop one_free 2 [] one_free-FreeStack

two_dirty-FreeStack : FreeStack two_dirty []
unfolding seen write_header put_u32 get_u32
two_dirty-FreeStack = record {
  header = header;
  shown = refl;
  version = refl;
  chain = refl;
  distinct = tt;
}

two_dirty_shown : seen two_dirty 2 ≡ some (λ k. 7)
unfolding seen
two_dirty_shown = refl

pager_free_page_example : Returns (Pushed two_dirty 2 []) (pager_free_page 2 two_dirty)
pager_free_page_example =
    pager_free_page-push two_dirty 2 [] (λ k. 7) two_dirty-FreeStack two_dirty_shown (omega arith)
      (omega arith) (omega arith) tt

header_is_valid-write_header_example : header_is_valid (write_header zero_page 1 2) ≡ true
header_is_valid-write_header_example =
    header_is_valid-write_header zero_page 1 2 (omega arith) (omega arith) (omega arith)
