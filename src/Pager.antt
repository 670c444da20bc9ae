-- ===== src/Pager.antt =====
-- State of the pager (`Pager`, `WalFrameHeader` in include/sqlyt.h), the two files under it, and
-- the outcomes of code that runs on it.
--
-- The database file is its bytes and its length. The WAL file is the frames that are complete in
-- it, each a header and a page, and the number of bytes of a frame that was cut off behind them.
-- Arrays of TABLE_MAX_PAGES entries are functions of the page number.
pub mod Cache
mod Tests
pub mod Header
pub mod FreeList
pub mod Returns
pub mod Keeps
pub mod Unwritten
pub mod Wal
use sqlyt.Base.{
  ℕ, zero, suc, ◌+◌, ◌-◌, ◌*◌, ◌/◌, ◌%◌, ◌<◌, ◌≡◌, max, Bool, true, false, ◌&&◌, Option, none, some,
  List, [], ◌∷◌, ◌++◌, ltb, leb, ◌==◌, if◌then◌else◌, update, length, take, drop,
}
use sqlyt.Page.{Page, page_size}

pub record File : Type 0 where
  pub size : ℕ
  pub byte : ℕ → ℕ

-- lseek to page `n` and read PAGE_SIZE bytes; what lies past the end of the file reads as zero,
-- which is how the code fills a short read.
unfoldable pub read_page : File → ℕ → Page
read_page f n k = if ltb (n * page_size + k) f.size then f.byte (n * page_size + k) else 0

-- lseek to page `n` and write PAGE_SIZE bytes; a gap that this leaves in the file holds zeros.
unfoldable pub write_page : File → ℕ → Page → File
write_page f n p = record {
  size = max f.size (n * page_size + page_size);
  byte = λ a.
      if leb (n * page_size) a && ltb a (n * page_size + page_size)
      then p (a - n * page_size)
      else if ltb a f.size
      then f.byte a
      else 0;
}

-- `ftruncate` of the database file.
unfoldable pub truncate : File → ℕ → File
truncate f n = record { size = n; byte = λ a. if ltb a f.size then f.byte a else 0 }

pub record Frame : Type 0 where
  pub page_num : ℕ
  pub is_commit : ℕ
  pub content : Page

-- `sizeof(WalFrameHeader) + PAGE_SIZE`
abbrev pub frame_size : ℕ
frame_size = 8 + page_size

pub record WalFile : Type 0 where
  pub frames : List Frame
  pub torn : ℕ

abbrev pub wal_length : WalFile → ℕ
wal_length w = length w.frames * frame_size + w.torn

-- Two writes at frame `i`, which is at most the number of frames, the header and the page; a torn
-- frame at the end is written over.
unfoldable pub write_frame : WalFile → ℕ → Frame → WalFile
write_frame w i f = record {
  frames = take i w.frames ++ f ∷ drop (i + 1) w.frames;
  torn = if leb (length w.frames) i then 0 else w.torn;
}

pub record Pager : Type 0 where
  pub file : File
  pub file_length : ℕ
  pub num_pages : ℕ
  pub master_root_page : ℕ
  pub next_root_page : ℕ
  pub free_page_head : ℕ
  pub pages : ℕ → Option Page
  pub wal : WalFile
  pub page_to_wal_frame : ℕ → ℕ
  pub wal_frame_count : ℕ
  pub page_dirty : ℕ → Bool
  pub checkpoint_in_progress : Bool

-- `exited` is `exit(EXIT_FAILURE)`; `fault` is an access that C leaves undefined; `out_of_fuel` is
-- no outcome of the program.
pub data Run (A : Type 0) : Type 0 where
  done : A → Pager → Run A
  exited : Run A
  fault : Run A
  out_of_fuel : Run A

abbrev pub M : Type 0 → Type 0
M A = Pager → Run A

module _ {A B : Type 0} where
  abbrev pub and_then : Run A → (A → M B) → Run B
  and_then (done a s) k = k a s
  and_then exited k = exited
  and_then fault k = fault
  and_then out_of_fuel k = out_of_fuel

  infixl 5 ◌>>=◌ ◌>>◌
  unfoldable pub ◌>>=◌ : M A → (A → M B) → M B
  m >>= k = λ s. and_then (m s) k

  abbrev pub ◌>>◌ : M A → M B → M B
  m >> n = m >>= λ _. n

unfoldable pub pure : {A : Type 0} → A → M A
pure = done

unfoldable pub exit_failure : {A : Type 0} → M A
exit_failure s = exited

-- A loop that has no fuel left.
unfoldable pub spent : {A : Type 0} → M A
spent s = out_of_fuel

unfoldable pub gets : {A : Type 0} → (Pager → A) → M A
gets f s = done (f s) s

unfoldable pub modify : (Pager → Pager) → M (Unit {0})
modify f s = done tt (f s)

abbrev pub when : Bool → M (Unit {0}) → M (Unit {0})
when b m = if b then m else pure tt
