-- ===== src/Pager/FreeList/Push.antt =====
-- pager_free_page puts a page at the front of the list.
use sqlyt.Base.{
  ℕ, ◌<◌, ◌≡◌, ◌≢◌, refl, ◌∙◌, true, false, some, List, ◌∷◌, arith, ◌==◌, ==_ne, gt→leb,
  if◌then◌else◌, update,
}
use sqlyt.Page.{Page, u32_mod, put_u8, get_u32, put_u32, memset}
use sqlyt.Page.Words.{get_u32-put_u32_self, get_u32-put_u32_ne}
use sqlyt.Node.{
  table_max_pages, node_leaf, get_node_type, is_node_root, leaf_node_num_cells, leaf_node_next_leaf,
}
use sqlyt.Pager.{Pager, Run, done, ◌>>=◌, ◌>>◌, modify}
use sqlyt.Pager.Returns.{Returns, returns}
use sqlyt.Pager.Cache.{load_page, mark_page_dirty, poke}
use sqlyt.Pager.Cache.Load.{
  seen, get_page-done, with_cached, with_cached-pages, with_cached-pages_ne, seen-with_cached,
}
use sqlyt.Pager.Header.{version_offset, free_page_head_offset}
use sqlyt.Pager.FreeList.{next_free_offset, set_header_free_page_head, pager_free_page, free_node}
use sqlyt.Pager.FreeList.Stack.{NotIn, FreeStack, SameOthers, Chain-frame, Chain-head-lt}

-- The pager behind freeing page `x`, with bytes `p`, in a pager that has it and the header cached.
pushed : Pager → (x next : ℕ) → (header p : Page) → Pager
pushed s x next header p = record s {
  pages =
      update (update s.pages x (some (free_node next p))) 0
        (some (set_header_free_page_head x header));
  free_page_head = x;
  page_dirty = update (update s.page_dirty x true) 0 true;
}

abbrev free_steps : (x next : ℕ) → Pager → Run (Unit {0})
free_steps x next = do
  poke x (free_node next)
  poke 0 (set_header_free_page_head x)
  modify (λ s. record s { free_page_head = x })
  mark_page_dirty x
  mark_page_dirty 0

module _ (s : Pager) (x next : ℕ) (header p : Page) (pos : 0 < x)
    (small : x < table_max_pages) where
  free_steps-pushed :
      s.pages 0 ≡ some header
      → s.pages x ≡ some p
      → free_steps x next s ≡ done tt (pushed s x next header p)
  unfolding poke mark_page_dirty pushed ◌>>=◌ modify
  free_steps-pushed h hx = ground arith

  seen-pushed :
      (m : ℕ)
      → seen (pushed s x next header p) m ≡ (
          if m == 0
          then some (set_header_free_page_head x header)
          else if m == x
          then some (free_node next p)
          else seen s m)
  unfolding seen pushed load_page
  seen-pushed m = ground arith

-- The freed page names the next free page, and looks like an empty leaf that is no root.
pub record IsFreeNode (next : ℕ) (p : Page) : Type 0 where
  pub link : get_u32 p next_free_offset ≡ next
  pub type : get_node_type p ≡ node_leaf
  pub root : is_node_root p ≡ false
  pub cells : leaf_node_num_cells p ≡ 0
  pub sibling : leaf_node_next_leaf p ≡ 0

free_node-IsFreeNode : (next : ℕ) (p : Page) → next < u32_mod → IsFreeNode next (free_node next p)
unfolding free_node get_node_type is_node_root leaf_node_num_cells leaf_node_next_leaf put_u8
free_node-IsFreeNode next p h = record {
  link = get_u32-put_u32_self _ next_free_offset next h;
  type = unfold put_u32 in refl;
  root = unfold put_u32 in refl;
  cells = unfold put_u32 get_u32 memset in refl;
  sibling = unfold put_u32 get_u32 memset in refl;
}

-- What freeing page `x` promises.
abbrev pub Pushed : Pager → ℕ → List ℕ → Unit {0} → Pager → Type 0
Pushed s x xs _ s' =
    FreeStack s' (x ∷ xs)
    × SameOthers x s s'
    × ((next : ℕ) × (p : Page) × (seen s' x ≡ some p) × IsFreeNode next p)

module _ (s : Pager) (x : ℕ) (xs : List ℕ) (free : FreeStack s xs) (p : Page)
    (shown : seen s x ≡ some p) (pos : 0 < x) (small : x < table_max_pages) (out : NotIn x xs) where
  abbrev found : Pager
  found = with_cached (with_cached s 0 free.header) x p

  abbrev next : ℕ
  next = get_u32 free.header free_page_head_offset

  found-shown : seen (with_cached s 0 free.header) x ≡ some p
  found-shown = seen-with_cached s 0 free.header free.shown x ∙ shown

  found-header : found.pages 0 ≡ some free.header
  found-header =
      with_cached-pages_ne (with_cached s 0 free.header) x p 0 (λ q. omega arith)
      ∙ with_cached-pages s 0 free.header free.shown

  pushed-SameOthers : SameOthers x s (pushed found x next free.header p)
  pushed-SameOthers m positive ne =
      ground (arith, seen-pushed found x next free.header p pos small m)
      ∙ (seen-with_cached (with_cached s 0 free.header) x p found-shown m
          ∙ seen-with_cached s 0 free.header free.shown m)

  pushed-Pushed : Pushed s x xs tt (pushed found x next free.header p)
  pushed-Pushed =
      let at_page = seen-pushed found x next free.header p pos small x in
      let node = free_node-IsFreeNode next p (omega (arith, Chain-head-lt s next xs free.chain)) in
      let link : seen (pushed found x next free.header p) x ≡ some (free_node next p) =
        ground (arith, at_page) in
      (
        record {
          header = set_header_free_page_head x free.header;
          shown = ground (arith, seen-pushed found x next free.header p pos small 0);
          version =
              get_u32-put_u32_ne free.header free_page_head_offset x version_offset (omega arith)
              ∙ free.version;
          chain = (
            get_u32-put_u32_self free.header free_page_head_offset x (omega arith),
            pos,
            small,
            (
              free_node next p,
              link,
              rw node.link (Chain-frame x next xs s _ pushed-SameOthers out free.chain),
            ),
          );
          distinct = (out, free.distinct);
        },
        pushed-SameOthers,
        (next, free_node next p, link, node),
      )

-- From a pager with a list of free pages, pager_free_page returns and puts a readable page that is neither the header, nor the catalog's root, nor free already
-- in front of the free pages; it then looks like an empty leaf, and no other page changes.
pub pager_free_page-push :
    (s : Pager) (x : ℕ) (xs : List ℕ) (p : Page)
    → FreeStack s xs
    → seen s x ≡ some p
    → 0 < x
    → x < table_max_pages
    → x ≢ s.master_root_page
    → NotIn x xs
    → Returns (Pushed s x xs) (pager_free_page x s)
unfolding pager_free_page
pager_free_page-push s x xs p free shown pos small ne out =
    rw
      (
        ==_ne x 0 (λ q. omega arith),
        gt→leb table_max_pages x small,
        ==_ne x s.master_root_page ne,
        get_page-done s 0 free.header free.shown (omega arith),
        free.version,
        get_page-done (with_cached s 0 free.header) x p
            (found-shown s x xs free p shown pos small out) small,
        free_steps-pushed (found s x xs free p shown pos small out) x
            (next s x xs free p shown pos small out) free.header p pos small
            (found-header s x xs free p shown pos small out)
            (with_cached-pages (with_cached s 0 free.header) x p
              (found-shown s x xs free p shown pos small out)),
      )
      (returns (pushed-Pushed s x xs free p shown pos small out))
