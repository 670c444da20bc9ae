-- ===== src/Pager/Wal/Logged.antt =====
-- pager_open of src/pager.c as a whole: the pager that it gives, on the files that it finds.
use sqlyt.Base.{
  ◌⊎◌, ℕ, ◌+◌, ◌*◌, ◌/◌, ◌%◌, ◌≡◌, refl, sym, ◌∙◌, inl, inr, some, List, [], ◌∷◌, arith, length,
  take, take_all, ◌<◌, ◌≤◌,
}
use sqlyt.Page.{page_size, u32_mod}
use sqlyt.Node.{table_max_pages}
use sqlyt.Pager.{File, Frame, frame_size, truncate, read_page, WalFile, Pager}
use sqlyt.Pager.Wal.{
  Scan, scan_frame, scan_frames, empty_scan, recover_wal, truncate_wal, opened, pager_open,
  db_file_header_size,
}
use sqlyt.Pager.Wal.Durable.{durable, durable-overlay, committed_length, committed_length-le}
use sqlyt.Pager.Wal.Recovery.{
  recover_wal-eq, recover_wal-frames, recover_wal-last, recover_wal-scan, recover_wal-durable,
}
use sqlyt.Pager.Wal.Flush.{wal_view}
use sqlyt.Pager.Wal.Interrupted.{IsLogged, IsWhole, pager_open-opened}

-- A scan names no frame that it has not read.
scan_frames-le :
    (fs : List Frame) (i : ℕ) (r : Scan)
    → ((n : ℕ) → r.page_to_wal_frame n ≤ i)
    → (n : ℕ) → (scan_frames fs i r).page_to_wal_frame n ≤ i + length fs
unfolding scan_frames
scan_frames-le [] i r h n = omega (arith, h n)
scan_frames-le (f ∷ fs) i r h n = omega (
  arith,
  scan_frames-le fs (i + 1) (scan_frame f i r) (unfold scan_frame in λ m. ground (arith, h m)) n,
)

committed_length-take :
    (fs : List Frame) → committed_length (take (committed_length fs) fs) ≡ committed_length fs
unfolding committed_length
committed_length-take [] = refl
committed_length-take (f ∷ fs) = ground (arith, committed_length-take fs)

length-take_committed :
    (fs : List Frame) → length (take (committed_length fs) fs) ≡ committed_length fs
unfolding committed_length
length-take_committed [] = refl
length-take_committed (f ∷ fs) = ground (arith, length-take_committed fs)

durable-take : (fs : List Frame) (n : ℕ) → durable (take (committed_length fs) fs) n ≡ durable fs n
durable-take fs n = rw (
  durable-overlay fs n,
  durable-overlay (take (committed_length fs) fs) n,
  committed_length-take,
  take_all (committed_length fs) (take (committed_length fs) fs)
      (omega (arith, length-take_committed fs)),
)

module _ (w : WalFile) (few : length w.frames < u32_mod) (torn : w.torn < frame_size)
    (fits : committed_length w.frames < length w.frames
      → committed_length w.frames * frame_size < u32_mod) where
  abbrev kept : List Frame
  kept = take (committed_length w.frames) w.frames

  recover_wal-torn : (recover_wal w).0.torn < frame_size
  unfolding truncate_wal
  recover_wal-torn = rw (recover_wal-eq w few torn) (ground arith)

  opened-IsLogged : (file : File) (pages : ℕ) → IsLogged (opened file pages w)
  unfolding opened
  opened-IsLogged file pages =
      let frames : (recover_wal w).0.frames ≡ kept = recover_wal-frames w few torn fits in
      record {
        ok = record {
          counted =
              rw (frames, recover_wal-last w few torn fits) (sym (length-take_committed w.frames));
          mapped = λ n.
              rw (frames, recover_wal-scan w few torn fits)
                (omega (arith, scan_frames-le kept 0 empty_scan (λ m. omega arith) n));
        };
        committed =
            rw frames (committed_length-take w.frames ∙ sym (length-take_committed w.frames));
        few =
            rw frames (omega (arith, length-take_committed w.frames, committed_length-le w.frames));
        torn = recover_wal-torn;
        shown = λ n hn.
            recover_wal-durable w few torn fits n hn ∙ rw frames (sym (durable-take w.frames n));
      }

-- The pager that was opened on a database file and a WAL: its WAL tells all that its mapping does, the
-- mapping shows what was durable in the WAL, and the file reads as before.
pub record Opened (file : File) (w : WalFile) (s : Pager) : Type 0 where
  logged : IsLogged s
  pub shown : (n : ℕ) → n < table_max_pages → wal_view s n ≡ durable w.frames n
  pub read : (n k : ℕ) → k < page_size → read_page s.file n k ≡ read_page file n k

-- A file that is only a header reads as before when it is filled up to a page.
read_page-truncate :
    (file : File) (n k : ℕ)
    → file.size ≡ db_file_header_size
    → k < page_size
    → read_page (truncate file page_size) n k ≡ read_page file n k
unfolding read_page truncate
read_page-truncate file n k e hk = ground arith

module _ (w : WalFile) (few : length w.frames < u32_mod) (torn : w.torn < frame_size)
    (fits : committed_length w.frames < length w.frames
      → committed_length w.frames * frame_size < u32_mod)
    (file : File) where
  opened-Opened :
      (f : File) (pages : ℕ)
      → ((n k : ℕ) → k < page_size → read_page f n k ≡ read_page file n k)
      → Opened file w (opened f pages w)
  unfolding opened
  opened-Opened f pages read = record {
    logged = opened-IsLogged w few torn fits f pages;
    shown = recover_wal-durable w few torn fits;
    read = read;
  }

  -- If the database file is a whole number of pages or only a header, the WAL has fewer than 2 ^ 32
  -- frames, with less than a frame torn behind them, and its frames up to the last commit are shorter
  -- than 2 ^ 32 bytes if others follow, pager_open opens them: it gives a pager whose WAL ends in a
  -- commit and whose mapping shows what is durable in that WAL, which is what was durable in the WAL
  -- that it found; and the database file reads as before.
  pub pager_open-Opened :
      IsWhole file ⊎ (file.size ≡ db_file_header_size)
      → (s : Pager) × (pager_open file w ≡ some s) × Opened file w s
  pager_open-Opened (inl whole) = (
    opened file (file.size / page_size % u32_mod) w,
    pager_open-opened file w whole,
    opened-Opened file (file.size / page_size % u32_mod) (λ n k hk. refl),
  )
  pager_open-Opened (inr header) = (
    opened (truncate file page_size) 1 w,
    unfold pager_open in rw header,
    opened-Opened (truncate file page_size) 1 (λ n k hk. read_page-truncate file n k header hk),
  )
