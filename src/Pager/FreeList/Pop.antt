-- ===== src/Pager/FreeList/Pop.antt =====
-- get_unused_page_num takes the first free page off the list.
use sqlyt.Base.{
  ℕ, ◌<◌, ◌≡◌, refl, ◌∙◌, true, some, List, ◌∷◌, arith, ◌==◌, ==_ne, if◌then◌else◌, update,
}
use sqlyt.Page.{Page, page_size, get_u32, memset}
use sqlyt.Page.Words.{get_u32-put_u32_self, get_u32-put_u32_ne}
use sqlyt.Node.{table_max_pages}
use sqlyt.Pager.{Pager, Run, done, ◌>>=◌, ◌>>◌, modify, pure}
use sqlyt.Pager.Returns.{Returns, returns}
use sqlyt.Pager.Cache.{load_page, mark_page_dirty, poke}
use sqlyt.Pager.Cache.Load.{
  seen, get_page-done, with_cached, with_cached-pages, with_cached-pages_ne, seen-with_cached,
}
use sqlyt.Pager.Header.{version_offset, free_page_head_offset}
use sqlyt.Pager.FreeList.{next_free_offset, set_header_free_page_head, get_unused_page_num}
use sqlyt.Pager.FreeList.Stack.{
  Chain, FreeStack, SameOthers, Chain-frame, Chain-head-lt, with_cached-SameOthers,
  SameOthers-trans,
}

-- The pager behind taking page `x`, with bytes `p`, from a pager that has it and the header cached.
popped : Pager → (x next : ℕ) → (header p : Page) → Pager
popped s x next header p = record s {
  pages =
      update (update s.pages 0 (some (set_header_free_page_head next header))) x
        (some (memset p 0 0 page_size));
  free_page_head = next;
  page_dirty = update (update s.page_dirty 0 true) x true;
  page_to_wal_frame = update s.page_to_wal_frame x 0;
}

abbrev take_steps : (x next : ℕ) → Pager → Run ℕ
take_steps x next = do
  poke 0 (set_header_free_page_head next)
  modify (λ s. record s { free_page_head = next })
  mark_page_dirty 0
  poke x (λ p. memset p 0 0 page_size)
  mark_page_dirty x
  modify (λ s. record s { page_to_wal_frame = update s.page_to_wal_frame x 0 })
  pure x

module _ (s : Pager) (x next : ℕ) (header p : Page) (pos : 0 < x)
    (small : x < table_max_pages) where
  take_steps-popped :
      s.pages 0 ≡ some header
      → s.pages x ≡ some p
      → take_steps x next s ≡ done x (popped s x next header p)
  unfolding poke mark_page_dirty popped pure ◌>>=◌ modify
  take_steps-popped h hx = ground arith

  seen-popped :
      (m : ℕ)
      → seen (popped s x next header p) m ≡ (
          if m == x
          then some (memset p 0 0 page_size)
          else if m == 0
          then some (set_header_free_page_head next header)
          else seen s m)
  unfolding seen popped load_page
  seen-popped m = ground arith

-- What taking the first free page of a pager promises, with the page and the pager behind it.
abbrev pub Popped : Pager → ℕ → List ℕ → ℕ → Pager → Type 0
Popped s x xs r s' =
    (r ≡ x)
    × FreeStack s' xs
    × SameOthers x s s'
    × ((p : Page) × (seen s' x ≡ some p) × ((k : ℕ) → k < page_size → p k ≡ 0))

module _ (s : Pager) (x : ℕ) (xs : List ℕ) (free : FreeStack s (x ∷ xs)) (p : Page)
    (shown : seen s x ≡ some p) where
  abbrev found : Pager
  found = with_cached (with_cached s 0 free.header) x p

  found-shown : seen (with_cached s 0 free.header) x ≡ some p
  found-shown = seen-with_cached s 0 free.header free.shown x ∙ shown

  found-header : found.pages 0 ≡ some free.header
  found-header =
      with_cached-pages_ne (with_cached s 0 free.header) x p 0 (λ q. omega (arith, free.chain.1))
      ∙ with_cached-pages s 0 free.header free.shown

  found-SameOthers : SameOthers x s found
  found-SameOthers =
      SameOthers-trans x s (with_cached s 0 free.header) found
        (with_cached-SameOthers s 0 x free.header free.shown)
        (with_cached-SameOthers (with_cached s 0 free.header) x x p found-shown)

  popped-SameOthers : (next : ℕ) → SameOthers x found (popped found x next free.header p)
  popped-SameOthers next m pos ne =
      ground (arith, seen-popped found x next free.header p free.chain.1 free.chain.2 m)

  popped-Popped :
      Chain s (get_u32 p next_free_offset) xs
      → Popped s x xs x (popped found x (get_u32 p next_free_offset) free.header p)
  popped-Popped rest =
      let next = get_u32 p next_free_offset in
      let same : SameOthers x s (popped found x next free.header p) =
        SameOthers-trans x s found (popped found x next free.header p) found-SameOthers
          (popped-SameOthers next) in
      (
        refl,
        record {
          header = set_header_free_page_head next free.header;
          shown = ground (
            arith,
            seen-popped found x next free.header p free.chain.1 free.chain.2 0,
            free.chain.1,
          );
          version =
              get_u32-put_u32_ne free.header free_page_head_offset next version_offset (omega arith)
              ∙ free.version;
          chain =
              rw
                (get_u32-put_u32_self free.header free_page_head_offset next
                  (omega (arith, Chain-head-lt s next xs rest)))
                (Chain-frame x next xs s _ same free.distinct.0 rest);
          distinct = free.distinct.1;
        },
        same,
        (
          memset p 0 0 page_size,
          ground (arith, seen-popped found x next free.header p free.chain.1 free.chain.2 x),
          unfold memset in λ k h. ground arith,
        ),
      )

-- From a pager with a list of free pages that is not empty, get_unused_page_num returns and takes the
-- first one: that one reads as zeros, the others are still free
-- in their order, and no other page changes.
pub get_unused_page_num-pop :
    (s : Pager) (x : ℕ) (xs : List ℕ)
    → FreeStack s (x ∷ xs)
    → Returns (Popped s x xs) (get_unused_page_num s)
unfolding get_unused_page_num
get_unused_page_num-pop s x xs free =
    let (e, pos, small, (p, shown, rest)) = free.chain in
    rw
      (
        get_page-done s 0 free.header free.shown (omega arith),
        free.version,
        e,
        ==_ne x 0 (λ q. omega arith),
        get_page-done (with_cached s 0 free.header) x p (found-shown s x xs free p shown) small,
        take_steps-popped (found s x xs free p shown) x (get_u32 p next_free_offset) free.header p
            pos small (found-header s x xs free p shown)
            (with_cached-pages (with_cached s 0 free.header) x p (found-shown s x xs free p shown)),
      )
      (returns (popped-Popped s x xs free p shown rest))
