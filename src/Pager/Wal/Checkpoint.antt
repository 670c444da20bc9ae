-- ===== src/Pager/Wal/Checkpoint.antt =====
-- The checkpoint of src/pager.c keeps what the store holds.
use sqlyt.Base.{
  ℕ, zero, suc, ◌+◌, ◌-◌, ◌≡◌, ◌≢◌, refl, true, ◌&&◌, none, some, List, [], ◌∷◌, arith, leb, ltb,
  ◌==◌, if◌then◌else◌, get_elem?, length, ◌<◌, ◌≤◌, inl, inr, Bool-cases, Option-cases,
}
use sqlyt.Page.{Page, page_size}
use sqlyt.Node.{table_max_pages}
use sqlyt.Pager.{File, read_page, write_page, Frame, Pager}
use sqlyt.Pager.Returns.{Returns, returns}
use sqlyt.Pager.Wal.{copy_frames, background_checkpoint_task}
use sqlyt.Pager.Wal.Durable.{View}
use sqlyt.Pager.Wal.Recovery.{mapped_view}
use sqlyt.Pager.Wal.Flush.{IsWalOk, wal_view}

-- The bytes that the store holds of a page: the mapped frame of the WAL, else the database file.
unfoldable pub stored : View → File → ℕ → Page
stored v f n = elim (v n) [ none ↦ read_page f n | some p ↦ p ]

read_page-write_page :
    (f : File) (i : ℕ) (p : Page) (n k : ℕ)
    → k < page_size
    → read_page (write_page f i p) n k ≡ (if n == i then p k else read_page f n k)
unfolding read_page write_page
read_page-write_page f i p n k h = ground arith

-- The file behind the rounds of the copying loop on `n` pages from page `i` on.
abbrev pub Copied : List Frame → (ℕ → ℕ) → File → (n i : ℕ) → File → Type 0
Copied frames mapped file n i file' =
    (m k : ℕ)
    → k < page_size
    → read_page file' m k ≡ (
        if leb i m && ltb m (i + n)
        then stored (mapped_view frames mapped) file m k
        else read_page file m k)

module _ (frames : List Frame) (mapped : ℕ → ℕ) (there : (n : ℕ) → mapped n ≤ length frames) where
  get_elem?_there : (i : ℕ) → ltb 0 (mapped i) ≡ true → get_elem? frames (mapped i - 1) ≢ none
  get_elem?_there i h = in_list frames (mapped i - 1) (ground (arith, there i))
    where
      in_list : (xs : List Frame) (j : ℕ) → j < length xs → get_elem? xs j ≢ none
      in_list [] j l = absurd (omega arith)
      in_list (x ∷ xs) zero l = λ e. cc
      in_list (x ∷ xs) (suc j) l = in_list xs j (omega arith)

  pub copy_frames-Copied :
      (n i : ℕ) (file : File)
      → (file' : File) × (copy_frames frames mapped n i file ≡ some file')
        × Copied frames mapped file n i file'
  unfolding copy_frames stored mapped_view
  copy_frames-Copied zero i file = (file, refl, λ m k h. ground arith)
  copy_frames-Copied (suc n) i file = elim (Bool-cases (ltb 0 (mapped i))) [
    | inr unmapped ↦
        let (file', e, c) = copy_frames-Copied n (i + 1) file in
        (file', rw unmapped e, λ m k h. ground (arith, c m k))
    | inl is_mapped ↦ elim (Option-cases (get_elem? frames (mapped i - 1))) [
      | inl missing ↦ absurd (get_elem?_there i is_mapped missing)
      | inr (f, found) ↦
          let (file', e, c) = copy_frames-Copied n (i + 1) (write_page file i f.content) in
          (
            file',
            rw (is_mapped, found) e,
            λ m k h. ground (arith, c m k, read_page-write_page file i f.content m k h),
          )
    ]
  ]

-- Both pagers hold the same bytes of every page.
abbrev pub SameStore : (v w : View) (f g : File) → Type 0
SameStore v w f g =
    (n k : ℕ) → n < table_max_pages → k < page_size → stored v f n k ≡ stored w g n k

-- A checkpoint of a pager in order ends with an empty WAL, and the database file alone holds what
-- the file and the WAL held before; the cache and the flags are as they were.
pub record Checkpointed (s s' : Pager) : Type 0 where
  pub frames : s'.wal.frames ≡ []
  pub torn : s'.wal.torn ≡ 0
  pub ok : IsWalOk s'
  pub store : SameStore (wal_view s') (wal_view s) s'.file s.file
  pub pages : s'.pages ≡ s.pages
  pub dirty : s'.page_dirty ≡ s.page_dirty

-- From a pager in order, background_checkpoint_task returns with an empty WAL and mapping, and the
-- database file alone holds what the file and the WAL held before.
pub background_checkpoint_task-Checkpointed :
    (s : Pager) → IsWalOk s → Returns (λ _ s'. Checkpointed s s') (background_checkpoint_task s)
unfolding background_checkpoint_task stored mapped_view
background_checkpoint_task-Checkpointed s ok =
    let (file', e, c) =
      copy_frames-Copied s.wal.frames s.page_to_wal_frame ok.mapped table_max_pages 0 s.file in
    rw (e, background_checkpoint_task)
      (returns (record {
        frames = refl;
        torn = refl;
        ok = record { counted = refl; mapped = λ n. omega arith };
        store = λ n k hn hk. ground (arith, c n k);
        pages = refl;
        dirty = refl;
      }))
