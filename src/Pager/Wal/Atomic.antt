-- ===== src/Pager/Wal/Atomic.antt =====
-- Commits against crashes: a commit that is cut short at any byte is as if it had not begun.
use sqlyt.Base.{
  ℕ, ◌+◌, ◌-◌, ◌*◌, ◌≡◌, ◌∙◌, ap, List, ◌++◌, arith, ltb, if◌then◌else◌, take, length, ◌<◌, ◌≤◌,
  inl, inr, length-append, take_all, length-take, Bool-cases, ltb→lt, ltb→ge,
}
use sqlyt.Page.{u32_mod}
use sqlyt.Node.{table_max_pages}
use sqlyt.Pager.{Frame, frame_size, WalFile, Pager}
use sqlyt.Pager.Returns
use sqlyt.Pager.Returns.{Returns}
use sqlyt.Pager.Wal.{recover_wal, count_dirty, flush_dirty}
use sqlyt.Pager.Wal.Durable.{View, durable, overlay, committed_length}
use sqlyt.Pager.Wal.Recovery.{mapped_view, recover_wal-durable}
use sqlyt.Pager.Wal.Append.{
  IsCommitted, take-append_right, durable-append_part, durable-append_whole, append-IsCommitted,
  committed_length-append,
}
use sqlyt.Pager.Wal.Transaction.{
  dirty_frames, AllCached, IsLastDirty, Commits, dirty_frames-Commits, overlay-dirty_frames,
  length-dirty_frames, count_dirty-Counted,
}
use sqlyt.Pager.Wal.Flush.{IsWalOk, Flushed, flush_dirty-Flushed}

-- A WAL of which `k` frames and `t` bytes of the next one reached the disk.
abbrev pub cut : WalFile → (k t : ℕ) → WalFile
cut w k t = record { frames = take k w.frames; torn = t }

-- What pager_open shows of a WAL.
unfoldable pub recovered : WalFile → View
recovered w = mapped_view (recover_wal w).0.frames (recover_wal w).1.page_to_wal_frame

module _ (old fs : List Frame) (committed : IsCommitted old) (c : Commits fs) where
  committed_length-cut :
      (k : ℕ)
      → length old ≤ k
      → k < length (old ++ fs)
      → committed_length (take k (old ++ fs)) ≡ length old
  committed_length-cut k lo hi =
      let j : ℕ = k - length old in
      let split : k ≡ length old + j = omega arith in
      rw
        (
          split,
          take-append_right old fs j,
          committed_length-append old (take j fs),
          c.part j (omega (arith, length-append {0} old fs)),
        )
        committed

  cut_part :
      (n k : ℕ)
      → length old ≤ k
      → k < length (old ++ fs)
      → durable (take k (old ++ fs)) n ≡ durable old n
  cut_part n k lo hi =
      let j : ℕ = k - length old in
      let split : k ≡ length old + j = omega arith in
      rw (split, take-append_right old fs j)
        (durable-append_part old (take j fs) n (c.part j (omega (arith, length-append {0} old fs))))

  cut_whole :
      (n k : ℕ)
      → length (old ++ fs) ≤ k
      → durable (take k (old ++ fs)) n ≡ overlay (durable old) fs n
  cut_whole n k hi = rw (take_all k (old ++ fs) hi) (durable-append_whole old fs committed c n)

-- What a crash leaves to be recovered, when `k` frames of a longer WAL reached the disk.
abbrev pub AllOrNothing : Pager → Pager → Type 0
AllOrNothing s s' =
    (k t n : ℕ)
    → length s.wal.frames ≤ k
    → t < frame_size
    → n < table_max_pages
    → recovered (cut s'.wal k t) n ≡ (
        if ltb k (length s'.wal.frames)
        then durable s.wal.frames n
        else if s.page_dirty n
        then s.pages n
        else durable s.wal.frames n)

module _ (s s' : Pager) (last : ℕ) (cached : AllCached s.page_dirty s.pages)
    (committed : IsCommitted s.wal.frames) (fits : length s.wal.frames * frame_size < u32_mod)
    (is_last : IsLastDirty s.page_dirty last table_max_pages 0) where
  abbrev new : List Frame
  new = dirty_frames s.page_dirty s.pages last table_max_pages 0

  length-new : (k : ℕ) → length (take k (s.wal.frames ++ new)) < u32_mod
  length-new k = omega (
    arith,
    length-take {0} k (s.wal.frames ++ new),
    length-append {0} s.wal.frames new,
    length-dirty_frames s.page_dirty s.pages last table_max_pages 0,
  )

  cut_new :
      (k n : ℕ)
      → length s.wal.frames ≤ k
      → n < table_max_pages
      → durable (take k (s.wal.frames ++ new)) n ≡ (
          if ltb k (length (s.wal.frames ++ new))
          then durable s.wal.frames n
          else if s.page_dirty n
          then s.pages n
          else durable s.wal.frames n)
  cut_new k n lo hn =
      let c = dirty_frames-Commits s.page_dirty s.pages last cached table_max_pages 0 is_last in
      elim (Bool-cases (ltb k (length (s.wal.frames ++ new)))) [
        | inl short ↦ rw short (cut_part s.wal.frames new committed c n k lo (ltb→lt _ _ short))
        | inr whole ↦
            rw (whole, cut_whole s.wal.frames new committed c n k (ltb→ge _ _ whole))
              (ground (
                arith,
                overlay-dirty_frames s.page_dirty s.pages last cached table_max_pages 0
                    (durable s.wal.frames) n,
              ))
      ]

  -- Where frames are missing, what recovery cuts off is all that was appended.
  cut-fits :
      (k : ℕ)
      → length s.wal.frames ≤ k
      → committed_length (take k (s.wal.frames ++ new)) < length (take k (s.wal.frames ++ new))
      → committed_length (take k (s.wal.frames ++ new)) * frame_size < u32_mod
  cut-fits k lo more =
      let c = dirty_frames-Commits s.page_dirty s.pages last cached table_max_pages 0 is_last in
      elim (Bool-cases (ltb k (length (s.wal.frames ++ new)))) [
        | inl short ↦
            rw (committed_length-cut s.wal.frames new committed c k lo (ltb→lt _ _ short)) fits
        | inr whole ↦
            let all : take k (s.wal.frames ++ new) ≡ s.wal.frames ++ new =
              take_all k (s.wal.frames ++ new) (ltb→ge _ _ whole) in
            absurd (ground (arith, more, all, append-IsCommitted s.wal.frames new committed c))
      ]

  Flushed-AllOrNothing : Flushed s table_max_pages 0 last tt s' → AllOrNothing s s'
  unfolding recovered
  Flushed-AllOrNothing (a, d) k t n lo ht hn = rw a.frames (
      recover_wal-durable (cut (record s'.wal { frames = s.wal.frames ++ new }) k t) (length-new k)
        ht (cut-fits k lo) n hn
      ∙ cut_new k n lo hn)

-- The flushing part of a commit is atomic. From a pager in order, whose WAL ends in a commit and
-- whose dirty pages, of which there is one at least, are cached, and whose frames take fewer than 2 ^ 32
-- bytes, it returns; and if a crash leaves
-- any number of its frames, and any number of bytes of the next one, pager_open shows each page as
-- it was durable before, unless all frames are there: then it shows the committed pages.
pub commit_atomic :
    (s : Pager)
    → IsWalOk s
    → IsCommitted s.wal.frames
    → length s.wal.frames * frame_size < u32_mod
    → AllCached s.page_dirty s.pages
    → 0 < (count_dirty s.page_dirty table_max_pages 0 (0, 0)).0
    → Returns
        (λ _ s'. AllOrNothing s s')
        (flush_dirty table_max_pages 0 (count_dirty s.page_dirty table_max_pages 0 (0, 0)).1 s)
commit_atomic s ok committed fits cached some_dirty =
    elim (count_dirty-Counted s.page_dirty table_max_pages 0 0 0) [
      | inl (clean, none_counted) ↦ absurd (omega (arith, ap (λ (r : ℕ × ℕ). r.0) none_counted))
      | inr (more, is_last) ↦
          Returns.mono
            (flush_dirty-Flushed table_max_pages 0
              (count_dirty s.page_dirty table_max_pages 0 (0, 0)).1 s ok (omega arith) cached)
            (λ u s'. Flushed-AllOrNothing s s' _ cached committed fits is_last)
    ]
