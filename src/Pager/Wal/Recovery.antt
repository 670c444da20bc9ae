-- ===== src/Pager/Wal/Recovery.antt =====
-- The WAL scan of pager_open recovers exactly what is durable.
use sqlyt.Base.{
  ℕ, suc, ◌+◌, ◌-◌, ◌*◌, ◌/◌, ◌%◌, ◌≡◌, refl, sym, none, some, List, [], ◌∷◌, arith, ltb, ◌==◌,
  if◌then◌else◌, update, take, length, get_elem?, ◌<◌, take_all, false, inl, inr, Bool-cases,
  ltb→lt, length-take, ◌≤◌, lt→ltb,
}
use sqlyt.Page.{page_size, u32_mod}
use sqlyt.Node.{table_max_pages}
use sqlyt.Pager.{Frame, frame_size, WalFile, wal_length}
use sqlyt.Pager.Wal.{Scan, scan_frame, empty_scan, scan_frames, recover_wal, truncate_wal}
use sqlyt.Pager.Wal.Durable.{
  View, nothing, overlay, durable, committed_length, committed_length-le, durable-overlay,
}

-- What the mapping of a pager shows of the frames in the WAL.
unfoldable pub mapped_view : List Frame → (ℕ → ℕ) → View
mapped_view frames mapped n =
    if ltb 0 (mapped n)
    then elim (get_elem? frames (mapped n - 1)) [ none ↦ none | some f ↦ some f.content ]
    else none

module _ (all : List Frame) (n : ℕ) (small : n < table_max_pages) where
  scan_frames-overlay :
      (fs : List Frame) (i : ℕ) (r : Scan) (v : View)
      → ((j : ℕ) → get_elem? all (i + j) ≡ get_elem? fs j)
      → mapped_view all r.page_to_wal_frame n ≡ v n
      → mapped_view all (scan_frames fs i r).page_to_wal_frame n ≡ overlay v fs n
  unfolding scan_frames overlay
  scan_frames-overlay [] i r v at e = e
  scan_frames-overlay (f ∷ fs) i r v at e =
      scan_frames-overlay fs (i + 1) (scan_frame f i r) (update v f.page_num (some f.content))
        (λ j. ground (arith, at (suc j))) (unfold mapped_view in ground (arith, at 0))

-- The mapping that a scan of all frames builds shows the frames laid over one another.
scan-overlay :
    (fs : List Frame) (n : ℕ)
    → n < table_max_pages
    → mapped_view fs (scan_frames fs 0 empty_scan).page_to_wal_frame n ≡ overlay nothing fs n
scan-overlay fs n small =
    scan_frames-overlay fs n small fs 0 empty_scan nothing (λ j. ground arith)
      (unfold mapped_view in refl)

last_commit-committed_length :
    (fs : List Frame) (i : ℕ) (r : Scan)
    → (scan_frames fs i r).last_commit_frame
      ≡ (if committed_length fs == 0 then r.last_commit_frame else i + committed_length fs)
unfolding scan_frames committed_length
last_commit-committed_length [] i r = refl
last_commit-committed_length (f ∷ fs) i r =
    ground (arith, last_commit-committed_length fs (i + 1) (scan_frame f i r))

last_commit-scan :
    (fs : List Frame) → (scan_frames fs 0 empty_scan).last_commit_frame ≡ committed_length fs
last_commit-scan fs = ground (arith, last_commit-committed_length fs 0 empty_scan)

-- Bytes of a torn frame at the end do not count.
complete_frames :
    (w : WalFile)
    → length w.frames < u32_mod
    → w.torn < frame_size
    → wal_length w / frame_size % u32_mod ≡ length w.frames
complete_frames w few torn = omega arith

-- The cut is at the last commit, where the length that is kept does not wrap.
kept_frames : (c : ℕ) → c * frame_size < u32_mod → c * frame_size % u32_mod / frame_size ≡ c
kept_frames c fits = omega arith

kept_headers :
    (c : ℕ) → c * frame_size < u32_mod → (c * frame_size % u32_mod + page_size) / frame_size ≡ c
kept_headers c fits = omega arith

module _ (w : WalFile) (few : length w.frames < u32_mod) (torn : w.torn < frame_size) where
  -- The two ways out of the scan, in terms of the committed length.
  pub recover_wal-eq : recover_wal w ≡ (
      if ltb (committed_length w.frames) (length w.frames)
      then (
        truncate_wal w (committed_length w.frames * frame_size % u32_mod),
        record {
          page_to_wal_frame =
              (scan_frames
                (take
                  ((committed_length w.frames * frame_size % u32_mod + page_size) / frame_size)
                  w.frames)
                0
                empty_scan).page_to_wal_frame;
          last_commit_frame = committed_length w.frames;
        },
      )
      else (w, scan_frames w.frames 0 empty_scan))
  unfolding recover_wal
  recover_wal-eq = rw (
    complete_frames w few torn,
    take_all (length w.frames) w.frames (omega arith),
    last_commit-scan,
  )

  -- Where the length that is kept wraps, recovery loses frames that are committed. For a WAL of fewer
  -- than 2 ^ 32 frames, with less than a frame torn behind them, whose frames up to the last commit are
  -- 2 ^ 32 bytes or more, if others follow, fewer frames are left than are committed, and the scan
  -- counts those that are gone.
  pub recover_wal-wraps :
      committed_length w.frames < length w.frames
      → u32_mod ≤ committed_length w.frames * frame_size
      → (length (recover_wal w).0.frames < committed_length w.frames)
        × ((recover_wal w).1.last_commit_frame ≡ committed_length w.frames)
  unfolding truncate_wal
  recover_wal-wraps more wide =
      rw (recover_wal-eq, lt→ltb _ _ more)
        (
          omega (
            arith,
            length-take {0} (committed_length w.frames * frame_size % u32_mod / frame_size)
                w.frames,
          ),
          refl,
        )

  module _
      (fits : committed_length w.frames < length w.frames
        → committed_length w.frames * frame_size < u32_mod) where
    uncut :
        ltb (committed_length w.frames) (length w.frames) ≡ false
        → take (committed_length w.frames) w.frames ≡ w.frames
    uncut e =
        ground (arith, committed_length-le w.frames, take_all (committed_length w.frames) w.frames)

    -- The WAL file is cut to the frames up to the last commit.
    pub recover_wal-frames : (recover_wal w).0.frames ≡ take (committed_length w.frames) w.frames
    unfolding truncate_wal
    recover_wal-frames = elim (Bool-cases (ltb (committed_length w.frames) (length w.frames))) [
      | inl tail ↦
          rw
            (recover_wal-eq, tail, kept_frames (committed_length w.frames) (fits (ltb→lt _ _ tail)))
      | inr whole ↦ rw (recover_wal-eq, whole) (sym (uncut whole))
    ]

    pub recover_wal-last : (recover_wal w).1.last_commit_frame ≡ committed_length w.frames
    recover_wal-last = rw recover_wal-eq (ground (arith, last_commit-scan w.frames))

    pub recover_wal-scan :
        (recover_wal w).1.page_to_wal_frame
        ≡ (scan_frames (take (committed_length w.frames) w.frames) 0 empty_scan).page_to_wal_frame
    recover_wal-scan = elim (Bool-cases (ltb (committed_length w.frames) (length w.frames))) [
      | inl tail ↦
          rw (
            recover_wal-eq,
            tail,
            kept_headers (committed_length w.frames) (fits (ltb→lt _ _ tail)),
          )
      | inr whole ↦ rw (recover_wal-eq, whole, uncut whole)
    ]

    -- For a WAL of fewer than 2 ^ 32 frames, with less than a frame torn behind them, of which the
    -- frames up to the last commit are shorter than 2 ^ 32 bytes if others follow, the mapping and the
    -- frames that recovery leaves show of each page what is durable in the log, and nothing else.
    pub recover_wal-durable :
        (n : ℕ)
        → n < table_max_pages
        → mapped_view (recover_wal w).0.frames (recover_wal w).1.page_to_wal_frame n
          ≡ durable w.frames n
    recover_wal-durable n small =
        rw (recover_wal-frames, recover_wal-scan, durable-overlay)
          (scan-overlay (take (committed_length w.frames) w.frames) n small)
