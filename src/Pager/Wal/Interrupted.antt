-- ===== src/Pager/Wal/Interrupted.antt =====
-- A checkpoint of src/pager.c that is cut off, and pager_open on the files that it leaves.
use sqlyt.Base.{
  ℕ, Option, zero, suc, ◌+◌, ◌-◌, ◌/◌, ◌%◌, ◌≡◌, none, some, List, arith, length, get_elem?, ◌<◌,
  ◌≤◌, Bool-cases, Option-cases, inl, inr, ltb, ◌∙◌, sym,
}
use sqlyt.Page.{Page, page_size, u32_mod}
use sqlyt.Node.{table_max_pages}
use sqlyt.Pager.{File, Frame, frame_size, write_page, WalFile, Pager}
use sqlyt.Pager.Wal.{copy_frames, opened, pager_open}
use sqlyt.Pager.Wal.Durable.{View, durable}
use sqlyt.Pager.Wal.Recovery.{recover_wal-durable}
use sqlyt.Pager.Wal.Append.{IsCommitted}
use sqlyt.Pager.Wal.Flush.{IsWalOk, wal_view}
use sqlyt.Pager.Wal.Checkpoint.{stored, SameStore, Copied, copy_frames-Copied}

-- The WAL on the disk tells all that the mapping in memory does: it ends in a commit, with less
-- than a frame torn behind it, and the mapping shows what is durable.
pub record IsLogged (s : Pager) : Type 0 where
  pub ok : IsWalOk s
  pub committed : IsCommitted s.wal.frames
  pub few : length s.wal.frames < u32_mod
  pub torn : s.wal.torn < frame_size
  pub shown : (n : ℕ) → n < table_max_pages → wal_view s n ≡ durable s.wal.frames n

-- The file is a whole number of pages.
abbrev pub IsWhole : File → Type 0
IsWhole file = file.size % page_size ≡ 0

write_page-IsWhole : (file : File) (n : ℕ) (p : Page) → IsWhole file → IsWhole (write_page file n p)
unfolding write_page
write_page-IsWhole file n p whole = ground arith

copy_frames-IsWhole :
    (frames : List Frame) (mapped : ℕ → ℕ) (n i : ℕ) (file file' : File)
    → IsWhole file
    → copy_frames frames mapped n i file ≡ some file'
    → IsWhole file'
unfolding copy_frames
copy_frames-IsWhole frames mapped zero i file file' whole e = ground arith
copy_frames-IsWhole frames mapped (suc n) i file file' whole e =
    elim (Bool-cases (ltb 0 (mapped i))) [
      | inr unmapped ↦
          copy_frames-IsWhole frames mapped n (i + 1) file file' whole (rw unmapped at e)
      | inl is_mapped ↦ elim (Option-cases (get_elem? frames (mapped i - 1))) [
        | inl missing ↦
            let none_left : ◌≡◌ {A = Option File} none (some file') =
              rw (is_mapped, missing) at e in
            absurd cc
        | inr (f, found) ↦
            copy_frames-IsWhole frames mapped n (i + 1) (write_page file i f.content) file'
              (write_page-IsWhole file i f.content whole) (rw (is_mapped, found) at e)
      ]
    ]

pub pager_open-opened :
    (file : File) (w : WalFile)
    → IsWhole file
    → pager_open file w ≡ some (opened file (file.size / page_size % u32_mod) w)
unfolding pager_open
pager_open-opened file w whole = rw whole (ground arith)

opened-view :
    (file : File) (pages : ℕ) (s : Pager) (n : ℕ)
    → IsLogged s
    → n < table_max_pages
    → wal_view (opened file pages s.wal) n ≡ wal_view s n
unfolding opened
opened-view file pages s n l hn =
    recover_wal-durable s.wal l.few l.torn (λ more. absurd (omega (arith, more, l.committed))) n hn
    ∙ sym (l.shown n hn)

stored_ext : (v w : View) (f : File) (n k : ℕ) → v n ≡ w n → stored v f n k ≡ stored w f n k
unfolding stored
stored_ext v w f n k e = rw (e, stored)

-- pager_open on a file shows what the file and the mapping showed before.
opened-SameStore :
    (s : Pager) (file : File) (pages : ℕ)
    → IsLogged s
    → SameStore
        (wal_view (opened file pages s.wal))
        (wal_view s)
        (opened file pages s.wal).file
        file
unfolding opened
opened-SameStore s file pages l n k hn hk =
    stored_ext (wal_view (opened file pages s.wal)) (wal_view s) file n k
      (opened-view file pages s n l hn)

-- A checkpoint that is cut off after any number of pages, with the WAL still there, loses nothing,
-- if the WAL tells all that the mapping does and the file is a whole number of pages: of the pages
-- that it came to the file holds the bytes that the store held, the others are as they were in the
-- file, and pager_open, which builds the mapping again from the WAL, shows every page as before.
pub checkpoint_interrupted :
    (s : Pager) (rounds : ℕ)
    → IsLogged s
    → IsWhole s.file
    → rounds ≤ table_max_pages
    → (file' : File) × (copy_frames s.wal.frames s.page_to_wal_frame rounds 0 s.file ≡ some file')
      × Copied s.wal.frames s.page_to_wal_frame s.file rounds 0 file'
      × (s' : Pager) × (pager_open file' s.wal ≡ some s')
      × SameStore (wal_view s') (wal_view s) s'.file s.file
unfolding stored
checkpoint_interrupted s rounds l whole few =
    let (file', e, c) =
      copy_frames-Copied s.wal.frames s.page_to_wal_frame l.ok.mapped rounds 0 s.file in
    let again : IsWhole file' =
      copy_frames-IsWhole s.wal.frames s.page_to_wal_frame rounds 0 s.file file' whole e in
    (
      file',
      e,
      c,
      opened file' (file'.size / page_size % u32_mod) s.wal,
      pager_open-opened file' s.wal again,
      λ n k hn hk.
          opened-SameStore s file' (file'.size / page_size % u32_mod) l n k hn hk
          ∙ ground (arith, c n k),
    )
