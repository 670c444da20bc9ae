-- ===== src/Tree/Merge.antt =====
-- merge_leaves: the rows of two neighbouring leaves go into the first of them.
mod Tests
use sqlyt.Base.{
  ℕ, zero, suc, ◌+◌, ◌-◌, ◌≤◌, ◌<◌, ◌≡◌, ◌≢◌, refl, sym, ap, ◌∙◌, arith, Bool, true, false, Option,
  none, some, ltb, leb, ◌==◌, ◌&&◌, List, [], ◌∷◌, ◌++◌, if◌then◌else◌, update, inl, inr,
}
use sqlyt.Page.{Page, u32_mod, get_u32, put_u32}
use sqlyt.Page.Words.{memcpy_outside, put_u32_outside, get_u32-put_u32_self}
use sqlyt.Node.{
  table_max_pages, leaf_node_header_size, leaf_node_num_cells_offset, leaf_node_next_leaf_offset,
  leaf_node_num_cells, set_leaf_node_num_cells, leaf_node_next_leaf, set_leaf_node_next_leaf,
}
use sqlyt.Pager.{Pager, Run, done, pure, ◌>>=◌, ◌>>◌}
use sqlyt.Pager.Returns.{Returns, returns}
use sqlyt.Pager.Cache.Steps.{mark_page_dirty-done, peek-done, poke-done}
use sqlyt.Table.{Table, tbl_leaf_cell}
use sqlyt.Table.Layout.{IsTable, max_cells-le}
use sqlyt.Leaf.{copy_cell, Row, row_at, rows_from, leaf_rows}
use sqlyt.Leaf.Cells.{header-le-tbl_leaf_cell}
use sqlyt.Leaf.Rows.{row_at_ext}
use sqlyt.Leaf.Insert.{
  rows_from_ext, leaf_node_num_cells_ext, get_set_num_cells, cell_byte-set_leaf_node_num_cells,
}
use sqlyt.Leaf.Split.{row_at-copy_cell}
use sqlyt.Tree.Shrink.{append_cells, merge_leaves}

rows_from-append :
    (t : Table) (p : Page) (n m i : ℕ)
    → rows_from t p (n + m) i ≡ rows_from t p n i ++ rows_from t p m (i + n)
unfolding rows_from
rows_from-append t p zero m i = ground arith
rows_from-append t p (suc n) m i =
    let start : i + suc n ≡ i + 1 + n = omega arith in
    let total : suc n + m ≡ suc (n + m) = omega arith in
    ap (λ k. rows_from t p k i) total
    ∙ ap (λ xs. row_at t p i ∷ xs) (rows_from-append t p n m (i + 1))
    ∙ ap (λ k. row_at t p i ∷ (rows_from t p n (i + 1) ++ rows_from t p m k)) (sym start)

num_cells-next_leaf :
    (p : Page) (v : ℕ) → leaf_node_num_cells (set_leaf_node_next_leaf p v) ≡ leaf_node_num_cells p
unfolding leaf_node_num_cells set_leaf_node_next_leaf get_u32 put_u32
num_cells-next_leaf p v = refl

-- What the merge comes to.
pub record Merged (t : Table) (target source : ℕ) (s s' : Pager) (rows : List Row) : Type 0 where
  pub page : Page
  pub cached : s'.pages target ≡ some page
  pub rows_are : leaf_rows t page ≡ rows
  pub emptied : (q : Page) × (s'.pages source ≡ some q) × (leaf_node_num_cells q ≡ 0)
  pub dirty : (s'.page_dirty target ≡ true) × (s'.page_dirty source ≡ true)
  pub others : (n : ℕ) → n ≢ target → n ≢ source → s'.pages n ≡ s.pages n

module _ (t : Table) (is : IsTable t) where
  module _ (from : Page) (at : ℕ) where
    row_at-append_cells :
        (n i : ℕ) (p : Page) (j : ℕ)
        → row_at t (append_cells t from at n i p) j
          ≡ (if leb (at + i) j && ltb j (at + i + n) then row_at t from (j - at) else row_at t p j)
    unfolding append_cells
    row_at-append_cells zero i p j = ground arith
    row_at-append_cells (suc n) i p j =
        row_at-append_cells n (i + 1) (copy_cell t p (at + i) from i) j
        ∙ ground (arith, row_at-copy_cell t is p (at + i) from i j)

    append_cells-header :
        (n i : ℕ) (p : Page) (k : ℕ)
        → k < leaf_node_header_size
        → append_cells t from at n i p k ≡ p k
    unfolding append_cells
    append_cells-header zero i p k h = refl
    append_cells-header (suc n) i p k h =
        append_cells-header n (i + 1) (copy_cell t p (at + i) from i) k h
        ∙ memcpy_outside p (tbl_leaf_cell t (at + i)) from (tbl_leaf_cell t i) t.cell_size k
            (inl (omega (arith, header-le-tbl_leaf_cell t (at + i))))

  row_at-header :
      (p : Page) (off v j : ℕ)
      → off + 4 ≤ leaf_node_header_size
      → row_at t (put_u32 p off v) j ≡ row_at t p j
  row_at-header p off v j h = row_at_ext t is (put_u32 p off v) p j j (λ b l.
      put_u32_outside p off v (tbl_leaf_cell t j + b)
        (inr (omega (arith, header-le-tbl_leaf_cell t j))))

  module _ (left right : Page)
      (fits : leaf_node_num_cells left + leaf_node_num_cells right ≤ t.max_cells) where
    abbrev nl : ℕ
    nl = leaf_node_num_cells left

    abbrev nr : ℕ
    nr = leaf_node_num_cells right

    -- The first leaf after the merge.
    abbrev pub merged : Page
    merged =
        set_leaf_node_next_leaf
          (set_leaf_node_num_cells (append_cells t right nl nr 0 left) (nl + nr))
          (leaf_node_next_leaf right)

    row_at-merged : (j : ℕ) → row_at t merged j ≡ row_at t (append_cells t right nl nr 0 left) j
    unfolding set_leaf_node_num_cells set_leaf_node_next_leaf
    row_at-merged j =
        row_at-header (set_leaf_node_num_cells (append_cells t right nl nr 0 left) (nl + nr))
          leaf_node_next_leaf_offset (leaf_node_next_leaf right) j (omega arith)
        ∙ row_at-header (append_cells t right nl nr 0 left) leaf_node_num_cells_offset (nl + nr) j
            (omega arith)

    merged-num_cells : leaf_node_num_cells merged ≡ nl + nr
    merged-num_cells =
        num_cells-next_leaf (set_leaf_node_num_cells (append_cells t right nl nr 0 left) (nl + nr))
          (leaf_node_next_leaf right)
        ∙ get_set_num_cells (append_cells t right nl nr 0 left) (nl + nr)
            (omega (arith, max_cells-le t is))

    merged-rows : leaf_rows t merged ≡ leaf_rows t left ++ leaf_rows t right
    unfolding leaf_rows
    merged-rows =
        ap (λ n. rows_from t merged n 0) merged-num_cells
        ∙ rows_from-append t merged nl nr 0
        ∙ ap (λ xs. xs ++ rows_from t merged nr (0 + nl))
            (rows_from_ext t t merged left nl 0 0 (λ k h.
              row_at-merged (0 + k)
              ∙ ground (arith, row_at-append_cells right nl nr 0 left (0 + k))))
        ∙ ap (λ xs. rows_from t left nl 0 ++ xs)
            (rows_from_ext t t merged right nr (0 + nl) 0 (λ k h.
              row_at-merged (0 + nl + k)
              ∙ ground (arith, row_at-append_cells right nl nr 0 left (0 + nl + k))))

    module _ (target source : ℕ) (s : Pager) (apart : target ≢ source)
        (hl : s.pages target ≡ some left) (hr : s.pages source ≡ some right) where
      abbrev filled : Page
      filled = append_cells t right nl nr 0 left

      abbrev counted : Page
      counted = set_leaf_node_num_cells filled (nl + nr)

      abbrev emptied_page : Page
      emptied_page = set_leaf_node_num_cells right 0

      abbrev pages : ℕ → Option Page
      pages =
          update
            (update (update (update s.pages target (some filled)) target (some counted)) target
              (some merged))
            source (some emptied_page)

      abbrev after : Pager
      after = record s {
        pages = pages;
        page_dirty = update (update s.page_dirty source true) target true;
      }

      merge_leaves-run :
          target < table_max_pages
          → source < table_max_pages
          → merge_leaves t target source s ≡ done tt after
      unfolding merge_leaves ◌>>=◌
      merge_leaves-run ht hs =
          let s1 : Pager = record s { pages = update s.pages target (some filled) } in
          let s2 : Pager = record s { pages = update s1.pages target (some counted) } in
          let s3 : Pager = record s { pages = update s2.pages target (some merged) } in
          let s4 : Pager = record s { pages = pages } in
          let s5 : Pager = record s4 { page_dirty = update s.page_dirty source true } in
          let e1 : s1.pages target ≡ some filled = ground arith in
          let e2 : s2.pages target ≡ some counted = ground arith in
          let e3 : s3.pages source ≡ some right = ground arith in
          rw (
            peek-done target s left hl,
            peek-done source s right hr,
            poke-done target (append_cells t right nl nr 0) s left hl,
            poke-done target (λ p. set_leaf_node_num_cells p (nl + nr)) s1 filled e1,
            poke-done target (λ p. set_leaf_node_next_leaf p (leaf_node_next_leaf right)) s2 counted
                e2,
            poke-done source (λ p. set_leaf_node_num_cells p 0) s3 right e3,
            mark_page_dirty-done source s4 hs,
            mark_page_dirty-done target s5 ht,
          )

    -- merge_leaves on two leaves in the cache whose rows fit into one returns: the first leaf then has the rows
    -- of both, in order, the second has none, both are dirty, and no other page of the cache is written.
    pub merge_leaves-Merged :
        (target source : ℕ) (s : Pager)
        → target ≢ source
        → s.pages target ≡ some left
        → s.pages source ≡ some right
        → target < table_max_pages
        → source < table_max_pages
        → Returns
            (λ u s'. Merged t target source s s' (leaf_rows t left ++ leaf_rows t right))
            (merge_leaves t target source s)
    merge_leaves-Merged target source s apart hl hr ht hs =
        rw (merge_leaves-run target source s apart hl hr ht hs) (
          returns (record {
            page = merged;
            cached = ground arith;
            rows_are = merged-rows;
            emptied = (
              emptied_page target source s apart hl hr,
              ground arith,
              get_set_num_cells right 0 (omega arith),
            );
            dirty = (ground arith, ground arith);
            others = λ n a b. ground arith;
          }))
