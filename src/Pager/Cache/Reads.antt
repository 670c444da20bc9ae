-- ===== src/Pager/Cache/Reads.antt =====
-- Code that only reads: pages may come into the cache, and nothing else changes.
use sqlyt.Base.{
  ℕ, ◌<◌, ◌≡◌, refl, ◌∙◌, none, some, arith, leb, Bool-cases, Option-cases, inl, inr, leb→le,
  leb→gt,
}
use sqlyt.Page.{Page}
use sqlyt.Node.{table_max_pages}
use sqlyt.Pager.{Pager, fault}
use sqlyt.Pager.Cache.{get_page}
use sqlyt.Pager.Cache.Load.{seen, with_cached, get_page-exited, get_page-done, seen-with_cached}
use sqlyt.Pager.Keeps.{after_done, after_exited, after_fault, Keeps}

-- `s` shows what `s0` showed, has its dirty pages, its files and its mapping, and has what it cached.
pub record Reads (s0 s : Pager) : Type 0 where
  pub shows : (n : ℕ) → seen s n ≡ seen s0 n
  pub keeps_cached : (n : ℕ) (p : Page) → s0.pages n ≡ some p → s.pages n ≡ some p
  pub dirty : s.page_dirty ≡ s0.page_dirty
  pub file : s.file ≡ s0.file
  pub file_length : s.file_length ≡ s0.file_length
  pub wal : s.wal ≡ s0.wal
  pub mapped : s.page_to_wal_frame ≡ s0.page_to_wal_frame
  pub counted : s.wal_frame_count ≡ s0.wal_frame_count
  pub in_progress : s.checkpoint_in_progress ≡ s0.checkpoint_in_progress
  pub master_root : s.master_root_page ≡ s0.master_root_page
  pub next_root : s.next_root_page ≡ s0.next_root_page
  pub free_head : s.free_page_head ≡ s0.free_page_head

pub Reads-refl : (s : Pager) → Reads s s
Reads-refl s = record {
  shows = λ n. refl;
  keeps_cached = λ n p e. e;
  dirty = refl;
  file = refl;
  file_length = refl;
  wal = refl;
  mapped = refl;
  counted = refl;
  in_progress = refl;
  master_root = refl;
  next_root = refl;
  free_head = refl;
}

pub with_cached-Reads :
    (s : Pager) (n : ℕ) (p : Page) → seen s n ≡ some p → Reads s (with_cached s n p)
unfolding with_cached
with_cached-Reads s n p e = record {
  shows = seen-with_cached s n p e;
  keeps_cached = λ m q h. ground arith;
  dirty = ground arith;
  file = ground arith;
  file_length = ground arith;
  wal = ground arith;
  mapped = ground arith;
  counted = ground arith;
  in_progress = ground arith;
  master_root = ground arith;
  next_root = ground arith;
  free_head = ground arith;
}

pub Reads-trans : {s t u : Pager} → Reads s t → Reads t u → Reads s u
Reads-trans a b = record {
  shows = λ n. b.shows n ∙ a.shows n;
  keeps_cached = λ n p h. b.keeps_cached n p (a.keeps_cached n p h);
  dirty = b.dirty ∙ a.dirty;
  file = b.file ∙ a.file;
  file_length = b.file_length ∙ a.file_length;
  wal = b.wal ∙ a.wal;
  mapped = b.mapped ∙ a.mapped;
  counted = b.counted ∙ a.counted;
  in_progress = b.in_progress ∙ a.in_progress;
  master_root = b.master_root ∙ a.master_root;
  next_root = b.next_root ∙ a.next_root;
  free_head = b.free_head ∙ a.free_head;
}

-- A page that cannot be shown is an access outside of the WAL.
get_page-fault : (s : Pager) (n : ℕ) → n < table_max_pages → seen s n ≡ none → get_page n s ≡ fault
unfolding get_page seen
get_page-fault s n h e = ground arith

pub get_page-Reads : {s0 : Pager} (n : ℕ) → Keeps (Reads s0) (get_page n)
get_page-Reads n = record {
  at = λ s h. elim (Bool-cases (leb table_max_pages n)) [
    | inl big ↦ rw (get_page-exited s n (leb→le table_max_pages n big)) after_exited
    | inr small ↦ elim (Option-cases (seen s n)) [
      | inl e ↦ rw (get_page-fault s n (leb→gt table_max_pages n small) e) after_fault
      | inr (p, e) ↦
          rw (get_page-done s n p e (leb→gt table_max_pages n small))
            (after_done (Reads-trans h (with_cached-Reads s n p e)))
    ]
  ];
}
