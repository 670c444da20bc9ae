-- ===== src/Pager/Wal/Tests.antt =====
-- Recovery in pager_open (src/pager.c) on small logs, and on one of more than 4 GiB.
use sqlyt.Base.{
  inr, ℕ, zero, suc, ◌+◌, List, length, ◌<◌, ◌≡◌, refl, false, none, some, [], ◌∷◌, arith, update,
  ltb, if◌then◌else◌,
}
use sqlyt.Pager.{truncate, File, Frame, WalFile, Pager}
use sqlyt.Pager.Wal.{recover_wal, pager_open, opened, truncate_wal, scan_frames, scan_frame}
use sqlyt.Pager.Wal.Durable.{durable, committed_length}
use sqlyt.Pager.Wal.Recovery.{mapped_view, recover_wal-durable, recover_wal-wraps}
use sqlyt.Pager.Wal.Logged.{Opened, pager_open-Opened}

-- A committed frame, one that was not committed, and a torn one.
abbrev crashed : WalFile
crashed = record {
  frames =
      record { page_num = 4; is_commit = 1; content = λ k. 1 }
      ∷ record { page_num = 4; is_commit = 0; content = λ k. 2 }
      ∷ [];
  torn = 17;
}

crashed_committed : committed_length crashed.frames ≡ 1
unfolding committed_length
crashed_committed = refl

recover_wal-durable_example :
    mapped_view (recover_wal crashed).0.frames (recover_wal crashed).1.page_to_wal_frame 4
    ≡ durable crashed.frames 4
recover_wal-durable_example =
    recover_wal-durable crashed (omega arith) (omega arith)
      (λ tail. rw crashed_committed (omega arith)) 4 (omega arith)

commit_frame : Frame
commit_frame = record { page_num = 4; is_commit = 1; content = λ k. 1 }

open_frame : Frame
open_frame = record { page_num = 4; is_commit = 0; content = λ k. 2 }

-- `n` frames that commit, and one behind them that does not.
many_frames : ℕ → List Frame
many_frames zero = open_frame ∷ []
many_frames (suc n) = commit_frame ∷ many_frames n

length-many_frames : (n : ℕ) → length (many_frames n) ≡ n + 1
unfolding many_frames
length-many_frames zero = omega arith
length-many_frames (suc n) = omega (arith, length-many_frames n)

committed_length-many_frames : (n : ℕ) → committed_length (many_frames n) ≡ n
unfolding many_frames committed_length commit_frame open_frame
committed_length-many_frames zero = refl
committed_length-many_frames (suc n) = ground (arith, committed_length-many_frames n)

-- Just over 4 GiB of committed frames, and one more frame.
large_wal : WalFile
large_wal = record { frames = many_frames 1046532; torn = 0 }

length-large_wal : length large_wal.frames ≡ 1046533
unfolding large_wal
length-large_wal = omega (arith, length-many_frames 1046532)

committed_length-large_wal : committed_length large_wal.frames ≡ 1046532
unfolding large_wal
committed_length-large_wal = committed_length-many_frames 1046532

large_wal-torn : large_wal.torn ≡ 0
unfolding large_wal
large_wal-torn = refl

recover_wal-wraps_example :
    (length (recover_wal large_wal).0.frames < committed_length large_wal.frames)
    × ((recover_wal large_wal).1.last_commit_frame ≡ committed_length large_wal.frames)
recover_wal-wraps_example =
    recover_wal-wraps large_wal (omega (arith, length-large_wal)) (omega (arith, large_wal-torn))
      (omega (arith, length-large_wal, committed_length-large_wal))
      (omega (arith, committed_length-large_wal))

-- What pager_open gives of a database file that is only a header, and this WAL.
abbrev only_header : File
only_header = record { size = 24; byte = λ k. 5 }

abbrev reopened : Pager
reopened = record {
  file = record { size = 4096; byte = λ k. if ltb k 24 then 5 else 0 };
  file_length = 4096;
  num_pages = 1;
  master_root_page = 0;
  next_root_page = 0;
  free_page_head = 0;
  pages = λ i. none;
  wal = record { frames = record { page_num = 4; is_commit = 1; content = λ k. 1 } ∷ []; torn = 0 };
  page_to_wal_frame = update (λ i. 0) 4 1;
  wal_frame_count = 1;
  page_dirty = λ i. false;
  checkpoint_in_progress = false;
}

crashed_opened : pager_open only_header crashed ≡ some reopened
unfolding pager_open opened recover_wal truncate_wal scan_frames scan_frame truncate
crashed_opened = refl

pager_open-Opened_example :
    (s : Pager) × (pager_open only_header crashed ≡ some s) × Opened only_header crashed s
pager_open-Opened_example =
    pager_open-Opened crashed (omega arith) (omega arith)
      (λ tail. rw crashed_committed (omega arith)) only_header (inr refl)

crashed_durable : durable crashed.frames 4 ≡ some (λ k. 1)
unfolding durable
crashed_durable = refl
