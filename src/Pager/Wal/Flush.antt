-- ===== src/Pager/Wal/Flush.antt =====
-- The flush of one page, and of all dirty pages in order.
use Prim.Native.Nat.add
use sqlyt.Base.{
  ℕ, zero, suc, ◌+◌, ◌-◌, ◌%◌, ◌≡◌, refl, sym, ◌∙◌, ap, subst, fun_ext, Bool, true, false, ◌&&◌,
  Option, some, List, [], ◌∷◌, ◌++◌, arith, leb, ltb, ◌==◌, if◌then◌else◌, update, drop, length,
  ◌<◌, ◌≤◌, inl, inr, Bool-cases, Option-cases, length-append, take_all, get_elem?-append_left,
  get_elem?-append_at,
}
use mathlib.Core.List.{append-nil, append_assoc}
use sqlyt.Page.{Page, u32_mod}
use sqlyt.Pager.{Frame, WalFile, write_frame, Pager, Run, done}
use sqlyt.Pager.Returns
use sqlyt.Pager.Returns.{Returns, returns}
use sqlyt.Pager.Wal.{pager_flush, flush_dirty}
use sqlyt.Pager.Wal.Durable.{View, overlay, overlay-append}
use sqlyt.Pager.Wal.Recovery.{mapped_view}
use sqlyt.Pager.Wal.Transaction.{page_frame, dirty_frames, AllCached}

-- The pager counts the frames of its WAL, and maps pages to frames that are there.
pub record IsWalOk (s : Pager) : Type 0 where
  pub counted : s.wal_frame_count ≡ length s.wal.frames
  pub mapped : (n : ℕ) → s.page_to_wal_frame n ≤ length s.wal.frames

abbrev pub wal_view : Pager → View
wal_view s = mapped_view s.wal.frames s.page_to_wal_frame

drop_end {ℓ} : {A : Type ℓ} (xs : List A) → drop (length xs + 1) xs ≡ []
drop_end [] = refl
drop_end (x ∷ xs) = rw add.suc (drop_end xs)

write_frame_end :
    (w : WalFile) (f : Frame) → (write_frame w (length w.frames) f).frames ≡ w.frames ++ f ∷ []
unfolding write_frame
write_frame_end w f = rw (take_all (length w.frames) w.frames (omega arith), drop_end w.frames)

-- What one flush does to a pager that is in order.
pub record Appended (s s' : Pager) (fs : List Frame) : Type 0 where
  pub frames : s'.wal.frames ≡ s.wal.frames ++ fs
  pub torn : s'.wal.torn ≤ s.wal.torn
  pub ok : IsWalOk s'
  pub view : wal_view s' ≡ overlay (wal_view s) fs
  pub file : s'.file ≡ s.file
  pub pages : s'.pages ≡ s.pages
  pub in_progress : s'.checkpoint_in_progress ≡ s.checkpoint_in_progress

mapped_view-append :
    (xs : List Frame) (f : Frame) (mapped : ℕ → ℕ) (n : ℕ)
    → ((k : ℕ) → mapped k ≤ length xs)
    → mapped_view (xs ++ f ∷ []) (update mapped f.page_num (length xs + 1)) n
      ≡ update (mapped_view xs mapped) f.page_num (some f.content) n
unfolding mapped_view
mapped_view-append xs f mapped n h = ground (
  arith,
  h n,
  get_elem?-append_left xs (f ∷ []) (mapped n - 1),
  get_elem?-append_at xs [] f (length xs),
)

-- The pager behind a flush of page `i` with bytes `p`, where the count does not wrap.
flushed : Pager → ℕ → ℕ → Page → Pager
flushed s i c p = record s {
  wal = write_frame s.wal s.wal_frame_count (record { page_num = i; is_commit = c; content = p });
  page_to_wal_frame = update s.page_to_wal_frame i (s.wal_frame_count + 1);
  wal_frame_count = s.wal_frame_count + 1;
}

pager_flush-flushed :
    (s : Pager) (i c : ℕ) (p : Page)
    → s.wal_frame_count + 1 < u32_mod
    → s.pages i ≡ some p
    → pager_flush i c s ≡ done tt (flushed s i c p)
unfolding pager_flush flushed
pager_flush-flushed s i c p few e =
    let count : (s.wal_frame_count + 1) % u32_mod ≡ s.wal_frame_count + 1 = omega arith in
    rw (e, pager_flush)
      (ap {B = Run (Unit {0})}
        (λ n. done tt (record s {
          wal =
              write_frame s.wal s.wal_frame_count
                (record { page_num = i; is_commit = c; content = p });
          page_to_wal_frame = update s.page_to_wal_frame i n;
          wal_frame_count = n;
        }))
        count)

module _ (s : Pager) (ok : IsWalOk s) where
  Appended-none : Appended s s []
  unfolding overlay
  Appended-none = record {
    frames = sym (append-nil s.wal.frames);
    torn = omega arith;
    ok = ok;
    view = refl;
    file = refl;
    pages = refl;
    in_progress = refl;
  }

  module _ (i c : ℕ) (p : Page) where
    abbrev frame : Frame
    frame = record { page_num = i; is_commit = c; content = p }

    flushed-frames : (flushed s i c p).wal.frames ≡ s.wal.frames ++ frame ∷ []
    unfolding flushed
    flushed-frames = rw ok.counted (write_frame_end s.wal frame)

    flushed-torn : (flushed s i c p).wal.torn ≤ s.wal.torn
    unfolding flushed write_frame
    flushed-torn = ground arith

    flushed-count : (flushed s i c p).wal_frame_count ≡ length s.wal.frames + 1
    unfolding flushed
    flushed-count = rw ok.counted

    flushed-mapped :
        (flushed s i c p).page_to_wal_frame ≡ update s.page_to_wal_frame i (length s.wal.frames + 1)
    unfolding flushed
    flushed-mapped = rw ok.counted

    flushed-IsWalOk : IsWalOk (flushed s i c p)
    flushed-IsWalOk = record {
      counted =
          rw (flushed-frames, flushed-count)
            (omega (arith, length-append {0} s.wal.frames (frame ∷ [])));
      mapped = λ n.
          rw (flushed-frames, flushed-mapped)
            (ground (arith, ok.mapped n, length-append s.wal.frames (frame ∷ [])));
    }

    flushed-view : wal_view (flushed s i c p) ≡ overlay (wal_view s) (frame ∷ [])
    unfolding overlay
    flushed-view = fun_ext λ n.
        rw (flushed-frames, flushed-mapped)
          (mapped_view-append s.wal.frames frame s.page_to_wal_frame n ok.mapped)

    -- A flush of a cached page appends its frame, and maps the page to it.
    flushed-Appended : Appended s (flushed s i c p) (frame ∷ [])
    unfolding flushed
    flushed-Appended = record {
      frames = flushed-frames;
      torn = flushed-torn;
      ok = flushed-IsWalOk;
      view = flushed-view;
      file = refl;
      pages = refl;
      in_progress = refl;
    }

-- Only the flags from page `i` on count.
dirty_frames_ext :
    (d d' : ℕ → Bool) (pages : ℕ → Option Page) (last n i : ℕ)
    → ((k : ℕ) → i ≤ k → d k ≡ d' k)
    → dirty_frames d pages last n i ≡ dirty_frames d' pages last n i
unfolding dirty_frames
dirty_frames_ext d d' pages last zero i h = refl
dirty_frames_ext d d' pages last (suc n) i h = ground (
  arith,
  h i (omega arith),
  dirty_frames_ext d d' pages last n (i + 1) (λ k l. h k (omega arith)),
)

Appended-trans :
    {s t u : Pager} {fs gs : List Frame}
    → Appended s t fs
    → Appended t u gs
    → Appended s u (fs ++ gs)
Appended-trans {s} {t} {u} {fs} {gs} a b = record {
  frames = b.frames ∙ (ap (λ xs. xs ++ gs) a.frames ∙ append_assoc s.wal.frames fs gs);
  torn = omega (arith, a.torn, b.torn);
  ok = b.ok;
  view = b.view ∙ (ap (λ v. overlay v gs) a.view ∙ sym (overlay-append (wal_view s) fs gs));
  file = b.file ∙ a.file;
  pages = b.pages ∙ a.pages;
  in_progress = b.in_progress ∙ a.in_progress;
}

abbrev pub cleared : (ℕ → Bool) → (n i : ℕ) → ℕ → Bool
cleared dirty n i k = if leb i k && ltb k (i + n) then false else dirty k

abbrev pub Flushed : Pager → (n i last : ℕ) → Unit {0} → Pager → Type 0
Flushed s n i last _ s' =
    Appended s s' (dirty_frames s.page_dirty s.pages last n i)
    × ((k : ℕ) → s'.page_dirty k ≡ cleared s.page_dirty n i k)

module _ (n i last : ℕ) (s : Pager) where
  Flushed-clean :
      (u : Unit {0}) (s' : Pager)
      → s.page_dirty i ≡ false
      → Flushed s n (i + 1) last u s'
      → Flushed s (suc n) i last u s'
  unfolding dirty_frames
  Flushed-clean u s' clean (a, d) = (rw clean a, λ k. ground (arith, clean, d k))

  -- The pager behind a round of the loop on a dirty page with bytes `p`.
  after_flush : Page → Pager
  after_flush p = record (flushed s i (if i == last then 1 else 0) p) {
    page_dirty = update s.page_dirty i false;
  }

  after_flush-Appended :
      IsWalOk s → (p : Page) → Appended s (after_flush p) (page_frame i last p ∷ [])
  unfolding flushed after_flush
  after_flush-Appended ok p =
      let a = flushed-Appended s ok i (if i == last then 1 else 0) p in
      record {
        frames = a.frames;
        torn = a.torn;
        ok = record { counted = a.ok.counted; mapped = a.ok.mapped };
        view = a.view;
        file = refl;
        pages = refl;
        in_progress = refl;
      }

  length-after_flush :
      IsWalOk s
      → length s.wal.frames + suc n < u32_mod
      → (p : Page) → length (after_flush p).wal.frames + n < u32_mod
  length-after_flush ok few p =
      rw (after_flush-Appended ok p).frames
        (omega (arith, length-append {0} s.wal.frames (page_frame i last p ∷ [])))

  after_flush-AllCached :
      (p : Page)
      → AllCached s.page_dirty s.pages
      → AllCached (after_flush p).page_dirty (after_flush p).pages
  unfolding after_flush flushed
  after_flush-AllCached p cached k marked = cached k (ground (arith, marked))

  Flushed-marked :
      (p : Page) (u : Unit {0}) (s' : Pager)
      → IsWalOk s
      → s.page_dirty i ≡ true
      → s.pages i ≡ some p
      → Flushed (after_flush p) n (i + 1) last u s'
      → Flushed s (suc n) i last u s'
  unfolding dirty_frames after_flush flushed
  Flushed-marked p u s' ok marked found (a, d) = (
    rw (marked, found)
        (Appended-trans (after_flush-Appended ok p) (
          subst (Appended (after_flush p) s')
            (dirty_frames_ext (update s.page_dirty i false) s.page_dirty s.pages last n (i + 1)
              λ k l. ground arith)
            a)),
    λ k. ground (arith, marked, d k),
  )

-- The loop appends the frames of the dirty pages, in order, and clears their flags.
pub flush_dirty-Flushed :
    (n i last : ℕ) (s : Pager)
    → IsWalOk s
    → length s.wal.frames + n < u32_mod
    → AllCached s.page_dirty s.pages
    → Returns (Flushed s n i last) (flush_dirty n i last s)
unfolding flush_dirty dirty_frames after_flush flushed
flush_dirty-Flushed zero i last s ok few cached = returns (Appended-none s ok, λ k. ground arith)
flush_dirty-Flushed (suc n) i last s ok few cached = elim (Bool-cases (s.page_dirty i)) [
  | inr clean ↦ rw clean (
      Returns.mono (flush_dirty-Flushed n (i + 1) last s ok (omega arith) cached)
        (λ u s'. Flushed-clean n i last s u s' clean))
  | inl marked ↦ elim (Option-cases (s.pages i)) [
    | inl missing ↦ absurd (cached i marked missing)
    | inr (p, found) ↦
        rw
          (
            marked,
            pager_flush-flushed s i (if i == last then 1 else 0) p (omega (arith, ok.counted))
                found,
          )
          (Returns.mono
            (flush_dirty-Flushed n (i + 1) last (after_flush n i last s p)
              (after_flush-Appended n i last s ok p).ok (length-after_flush n i last s ok few p)
              (after_flush-AllCached n i last s p cached))
            (λ u s'. Flushed-marked n i last s p u s' ok marked found))
  ]
]
