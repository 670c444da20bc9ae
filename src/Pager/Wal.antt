-- ===== src/Pager/Wal.antt =====
-- The write-ahead log of src/pager.c: pager_flush, pager_commit_transaction_sync, the checkpoint,
-- and the scan of the WAL in pager_open. The mutex is held for the whole of each step and there is
-- no second thread, so it has no counterpart. Failing system calls are not modelled.
pub mod Durable
pub mod Recovery
pub mod Append
pub mod Flush
pub mod Atomic
pub mod Checkpoint
pub mod Interrupted
pub mod Commit
pub mod Transaction
pub mod Logged
pub mod Kept
mod Tests
use sqlyt.Base.{
  ℕ, zero, suc, ◌+◌, ◌-◌, ◌*◌, ◌/◌, ◌%◌, Bool, true, false, not, ◌&&◌, Option, none, some, List, [],
  ◌∷◌, ltb, leb, ◌==◌, if◌then◌else◌, update, get_elem?, length, take,
}
use sqlyt.Page.{Page, page_size, u32_mod}
use sqlyt.Node.{table_max_pages}
use sqlyt.Pager.{
  File, Frame, frame_size, WalFile, wal_length, write_frame, write_page, truncate, Pager, Run, done,
  exited, M, pure, exit_failure, ◌>>=◌, ◌>>◌, gets, modify, when,
}

abbrev pub wal_checkpoint_threshold : ℕ
wal_checkpoint_threshold = 100

unfoldable pub pager_flush : ℕ → ℕ → M (Unit {0})
pager_flush page_num is_commit s = elim (s.pages page_num) [
  | none ↦ exited
  | some p ↦ done tt (record s {
    wal =
        write_frame s.wal s.wal_frame_count
          (record { page_num = page_num; is_commit = is_commit; content = p });
    page_to_wal_frame = update s.page_to_wal_frame page_num ((s.wal_frame_count + 1) % u32_mod);
    wal_frame_count = (s.wal_frame_count + 1) % u32_mod;
  })
]

-- The first loop of background_checkpoint_task, `n` pages from page `i` on; `none` is a short read
-- of the WAL.
unfoldable pub copy_frames : List Frame → (ℕ → ℕ) → ℕ → ℕ → File → Option File
copy_frames frames mapped zero i file = some file
copy_frames frames mapped (suc n) i file =
    if ltb 0 (mapped i)
    then elim (get_elem? frames (mapped i - 1)) [
      | none ↦ none
      | some f ↦ copy_frames frames mapped n (i + 1) (write_page file i f.content)
    ]
    else copy_frames frames mapped n (i + 1) file

unfoldable pub background_checkpoint_task : M (Unit {0})
background_checkpoint_task s =
    elim (copy_frames s.wal.frames s.page_to_wal_frame table_max_pages 0 s.file) [
      | none ↦ exited
      | some file ↦ done tt (record s {
        file = file;
        wal = record { frames = []; torn = 0 };
        page_to_wal_frame = λ i. 0;
        wal_frame_count = 0;
        checkpoint_in_progress = false;
      })
    ]

unfoldable pub pager_checkpoint : M (Unit {0})
pager_checkpoint = background_checkpoint_task

-- The first loop of pager_commit_transaction_sync: how many pages are dirty, and the last of them.
unfoldable pub count_page : (ℕ → Bool) → ℕ → ℕ × ℕ → ℕ × ℕ
count_page dirty i (count, last) = if dirty i then (count + 1, i) else (count, last)

unfoldable pub count_dirty : (ℕ → Bool) → ℕ → ℕ → ℕ × ℕ → ℕ × ℕ
count_dirty dirty zero i acc = acc
count_dirty dirty (suc n) i acc = count_dirty dirty n (i + 1) (count_page dirty i acc)

-- The second loop, `n` pages from page `i` on.
unfoldable pub flush_dirty : ℕ → ℕ → ℕ → M (Unit {0})
unfolding pure ◌>>=◌ gets modify
flush_dirty zero i last = pure tt
flush_dirty (suc n) i last = do
  dirty ← gets (λ s. s.page_dirty i)
  when dirty (do
    pager_flush i (if i == last then 1 else 0)
    modify (λ s. record s { page_dirty = update s.page_dirty i false }))
  flush_dirty n (i + 1) last

unfoldable pub checkpoint_if_needed : M (Unit {0})
unfolding pure ◌>>=◌ gets modify
checkpoint_if_needed = do
  should_checkpoint ←
      gets (λ s. leb wal_checkpoint_threshold s.wal_frame_count && not s.checkpoint_in_progress)
  when should_checkpoint
      (do modify (λ s. record s { checkpoint_in_progress = true }); background_checkpoint_task)

unfoldable pub pager_commit_transaction_sync : M (Unit {0})
unfolding pure ◌>>=◌ gets
pager_commit_transaction_sync = do
  (dirty_count, last_dirty_page) ← gets (λ s. count_dirty s.page_dirty table_max_pages 0 (0, 0))
  if dirty_count == 0
      then pure tt
      else do flush_dirty table_max_pages 0 last_dirty_page; checkpoint_if_needed

-- What the scan of the WAL in pager_open keeps.
pub record Scan : Type 0 where
  pub page_to_wal_frame : ℕ → ℕ
  pub last_commit_frame : ℕ

-- The body of the reading loops of pager_open.
unfoldable pub scan_frame : Frame → ℕ → Scan → Scan
scan_frame f i r = record {
  page_to_wal_frame =
      if ltb f.page_num table_max_pages
      then update r.page_to_wal_frame f.page_num (i + 1)
      else r.page_to_wal_frame;
  last_commit_frame = if f.is_commit == 0 then r.last_commit_frame else i + 1;
}

-- The loops, over the frames from frame `i` on.
unfoldable pub scan_frames : List Frame → ℕ → Scan → Scan
unfolding scan_frame
scan_frames [] i r = r
scan_frames (f ∷ fs) i r = scan_frames fs (i + 1) (scan_frame f i r)

abbrev pub empty_scan : Scan
empty_scan = record { page_to_wal_frame = λ i. 0; last_commit_frame = 0 }

-- `ftruncate` of the WAL to `n` bytes, no more than it has.
unfoldable pub truncate_wal : WalFile → ℕ → WalFile
truncate_wal w n = record { frames = take (n / frame_size) w.frames; torn = n % frame_size }

-- The part of pager_open that reads the WAL: frames behind the last commit are cut off, at a length
-- that is a product of 32-bit numbers, and the mapping is built again from the headers that are
-- still whole: a header is 8 of the `frame_size` bytes of a frame.
unfoldable pub recover_wal : WalFile → WalFile × Scan
unfolding scan_frames truncate_wal
recover_wal w =
    let complete_frames = (wal_length w / frame_size) % u32_mod in
    let first = scan_frames (take complete_frames w.frames) 0 empty_scan in
    let kept_bytes = first.last_commit_frame * frame_size % u32_mod in
    let headers = take ((kept_bytes + page_size) / frame_size) w.frames in
    if ltb first.last_commit_frame complete_frames
    then (
      truncate_wal w kept_bytes,
      record {
        page_to_wal_frame = (scan_frames headers 0 empty_scan).page_to_wal_frame;
        last_commit_frame = first.last_commit_frame;
      },
    )
    else (w, first)

-- `sizeof(DbFileHeader)`
abbrev pub db_file_header_size : ℕ
db_file_header_size = 24

-- The Pager that pager_open fills in. Its header fields are set by db_open.
unfoldable pub opened : File → ℕ → WalFile → Pager
unfolding recover_wal
opened file num_pages wal = record {
  file = file;
  file_length = file.size % u32_mod;
  num_pages = num_pages;
  master_root_page = 0;
  next_root_page = 0;
  free_page_head = 0;
  pages = λ i. none;
  wal = (recover_wal wal).0;
  page_to_wal_frame = (recover_wal wal).1.page_to_wal_frame;
  wal_frame_count = (recover_wal wal).1.last_commit_frame;
  page_dirty = λ i. false;
  checkpoint_in_progress = false;
}

-- pager_open on the contents of the two files. A file that is only a header is filled up to a page;
-- any other length that is no whole number of pages ends the program.
unfoldable pub pager_open : File → WalFile → Option Pager
unfolding opened truncate
pager_open file wal =
    if ltb 0 file.size && not (file.size % page_size == 0)
    then (if file.size == db_file_header_size
        then some (opened (truncate file page_size) 1 wal)
        else none)
    else some (opened file (file.size / page_size % u32_mod) wal)
