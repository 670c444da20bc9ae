-- ===== src/Pager/Unwritten.antt =====
-- Code that changes pages in memory only: the two files stay as they were until a commit.
use sqlyt.Base.{
  ℕ, ◌≡◌, refl, ◌∙◌, Bool, true, false, Option, none, some, if◌then◌else◌, update, leb,
}
use sqlyt.Page.{Page}
use sqlyt.Node.{table_max_pages}
use sqlyt.Pager.{Pager, Run, done, fault, M, pure, modify, when}
use sqlyt.Pager.Keeps.{After, after_done, after_exited, after_fault, After-map, Keeps, keeps_rules}
use sqlyt.Pager.Cache.{load_page, cache_page, get_page, mark_page_dirty, peek, poke}
use sqlyt.Pager.Cache.Reads.{Reads, Reads-refl}
use sqlyt.Pager.FreeList.{take_free_page, take_new_page, get_unused_page_num, pager_free_page}

-- `s` has the files of `s0` and what the pager knows of them.
pub record Unwritten (s0 s : Pager) : Type 0 where
  pub file : s.file ≡ s0.file
  pub file_length : s.file_length ≡ s0.file_length
  pub wal : s.wal ≡ s0.wal
  pub counted : s.wal_frame_count ≡ s0.wal_frame_count
  pub in_progress : s.checkpoint_in_progress ≡ s0.checkpoint_in_progress
  pub master_root : s.master_root_page ≡ s0.master_root_page

pub Unwritten-refl : (s : Pager) → Unwritten s s
Unwritten-refl s = record {
  file = refl;
  file_length = refl;
  wal = refl;
  counted = refl;
  in_progress = refl;
  master_root = refl;
}

module _ {A B : Type 0} {Q : B → Pager → Type 0} where
  After-elim :
      (o : Option A) (r : Run B) (f : A → Run B)
      → After Q r
      → ((a : A) → After Q (f a))
      → After Q (elim o [ none ↦ r | some a ↦ f a ])
  After-elim none r f hr hf = hr
  After-elim (some a) r f hr hf = hf a

module _ {B : Type 0} {Q : B → Pager → Type 0} where
  After-if : (b : Bool) (r r' : Run B) → After Q r → After Q r' → After Q (if b then r else r')
  After-if true r r' h h' = h
  After-if false r r' h h' = h'

module _ {s0 : Pager} where
  -- Steps in memory: pages, dirty flags, mapping and the numbers of the header.
  pub in_memory :
      (s : Pager) (pages : ℕ → Option Page) (num_pages : ℕ) (dirty : ℕ → Bool) (mapped : ℕ → ℕ)
      (next_root free_head : ℕ)
      → Unwritten s0 s
      → Unwritten s0 (record s {
        pages = pages;
        num_pages = num_pages;
        page_dirty = dirty;
        page_to_wal_frame = mapped;
        next_root_page = next_root;
        free_page_head = free_head;
      })
  in_memory s pages num_pages dirty mapped next_root free_head h = record {
    file = h.file;
    file_length = h.file_length;
    wal = h.wal;
    counted = h.counted;
    in_progress = h.in_progress;
    master_root = h.master_root;
  }

  pub get_page-Unwritten : (n : ℕ) → Keeps (Unwritten s0) (get_page n)
  unfolding get_page cache_page
  get_page-Unwritten n = record {
    at = λ s h.
        After-if (leb table_max_pages n) _
          (elim (s.pages n) [
            | some p ↦ done p s
            | none ↦ elim (load_page s n) [ none ↦ fault | some p ↦ done p (cache_page n p s) ]
          ])
          after_exited
          (After-elim (s.pages n) _ _
            (After-elim (load_page s n) _ _ after_fault
              (λ p. after_done (in_memory s _ _ _ _ _ _ h)))
            (λ p. after_done h));
  }

  pub peek-Unwritten : (n : ℕ) → Keeps (Unwritten s0) (peek n)
  unfolding peek
  peek-Unwritten n = record {
    at = λ s h. After-elim (s.pages n) _ _ after_fault (λ p. after_done h);
  }

  pub poke-Unwritten : (n : ℕ) (f : Page → Page) → Keeps (Unwritten s0) (poke n f)
  unfolding poke
  poke-Unwritten n f = record {
    at = λ s h. After-elim _ _ _ after_fault (λ p. after_done (in_memory s _ _ _ _ _ _ h));
  }

  pub mark_page_dirty-Unwritten : (n : ℕ) → Keeps (Unwritten s0) (mark_page_dirty n)
  unfolding mark_page_dirty
  mark_page_dirty-Unwritten n = record {
    at = λ s h. After-if _ _ _ (after_done (in_memory s _ _ _ _ _ _ h)) (after_done h);
  }

  pub Keeps-when :
      (b : Bool) (m : M (Unit {0})) → Keeps (Unwritten s0) m → Keeps (Unwritten s0) (when b m)
  unfolding pure
  Keeps-when true m k = k
  Keeps-when false m k = record { at = λ s h. after_done h }

  -- The changes of the fields in `modify`.
  set_free_head-Unwritten :
      (v : ℕ) → Keeps (Unwritten s0) (modify (λ s. record s { free_page_head = v }))
  unfolding modify
  set_free_head-Unwritten v = record { at = λ s h. after_done (in_memory s _ _ _ _ _ _ h) }

  forget_mapping-Unwritten :
      (n : ℕ)
      → Keeps
          (Unwritten s0)
          (modify (λ s. record s { page_to_wal_frame = update s.page_to_wal_frame n 0 }))
  unfolding modify
  forget_mapping-Unwritten n = record { at = λ s h. after_done (in_memory s _ _ _ _ _ _ h) }

pub ruleset memory_rules =
    (keeps_rules, get_page-Unwritten, peek-Unwritten, poke-Unwritten, mark_page_dirty-Unwritten)

module _ {s0 : Pager} where
  take_free_page-Unwritten : (header : Page) → Keeps (Unwritten s0) (take_free_page header)
  unfolding take_free_page
  take_free_page-Unwritten header =
      search (memory_rules, set_free_head-Unwritten, forget_mapping-Unwritten) depth 24

  take_new_page-Unwritten : Keeps (Unwritten s0) take_new_page
  unfolding take_new_page
  take_new_page-Unwritten = search memory_rules

  pub get_unused_page_num-Unwritten : Keeps (Unwritten s0) get_unused_page_num
  unfolding get_unused_page_num
  get_unused_page_num-Unwritten =
      search (memory_rules, take_free_page-Unwritten, take_new_page-Unwritten)

  pub pager_free_page-Unwritten : (n : ℕ) → Keeps (Unwritten s0) (pager_free_page n)
  unfolding pager_free_page
  pager_free_page-Unwritten n = search (memory_rules, set_free_head-Unwritten) depth 24

module _ {A : Type 0} {s0 : Pager} where
  -- Code that only reads writes to no file.
  pub Reads-Unwritten : (m : M A) → ((s : Pager) → Keeps (Reads s) m) → Keeps (Unwritten s0) m
  Reads-Unwritten m reads = record {
    at = λ s h. After-map ((reads s).at s (Reads-refl s)) (λ a s' r. record {
      file = r.file ∙ h.file;
      file_length = r.file_length ∙ h.file_length;
      wal = r.wal ∙ h.wal;
      counted = r.counted ∙ h.counted;
      in_progress = r.in_progress ∙ h.in_progress;
      master_root = r.master_root ∙ h.master_root;
    });
  }
