-- ===== src/Leaf/Delete.antt =====
-- leaf_node_delete on a page: the row leaves its place, and the later rows move down.
use sqlyt.Base.{
  ℕ, zero, suc, ◌+◌, ◌-◌, ◌*◌, ◌≤◌, ◌<◌, ◌≡◌, ◌⊎◌, inl, inr, ap, sym, false, ◌∙◌, arith, ltb, leb,
  ◌&&◌, List, [], ◌∷◌, if◌then◌else◌, Bool-cases,
}
use sqlyt.Page.{Page, u32_mod, memcpy}
use sqlyt.Page.Words.{memcpy_inside, memcpy_outside, put_u32_outside}
use sqlyt.Node.{
  leaf_node_header_size, leaf_node_num_cells_offset, leaf_node_num_cells, set_leaf_node_num_cells,
}
use sqlyt.Table.{Table, tbl_leaf_cell}
use sqlyt.Table.Layout.{IsTable, max_cells-le}
use sqlyt.Leaf.{delete_cell, Row, row_at, rows_from, leaf_rows}
use sqlyt.Leaf.Cells.{cell_byte, header-le-tbl_leaf_cell, tbl_leaf_cell_apart}
use sqlyt.Leaf.Rows.{row_at_ext}
use sqlyt.Leaf.Insert.{
  rows_from_ext, leaf_node_num_cells_ext, cell_byte-set_leaf_node_num_cells, get_set_num_cells,
}

-- A list without the row at place `c`.
unfoldable pub erase_at : ℕ → List Row → List Row
erase_at c [] = []
erase_at zero (x ∷ xs) = xs
erase_at (suc c) (x ∷ xs) = x ∷ erase_at c xs

rows_from-erase :
    (t : Table) (p q : Page) (c : ℕ)
    → ((j : ℕ) → j < c → row_at t q j ≡ row_at t p j)
    → (n d i : ℕ) → c ≡ i + d
    → d ≤ n
    → ((j : ℕ) → c ≤ j → j < i + n → row_at t q j ≡ row_at t p (j + 1))
    → rows_from t q n i ≡ erase_at d (rows_from t p (suc n) i)
unfolding rows_from erase_at
rows_from-erase t p q c before n zero i e le after =
    rows_from_ext t t q p n i (i + 1)
      (λ k h. ground (arith, after (i + k) (omega arith) (omega arith)))
rows_from-erase t p q c before zero (suc d) i e le after = absurd (omega arith)
rows_from-erase t p q c before (suc n) (suc d) i e le after = ground (
  arith,
  before i (omega arith),
  rows_from-erase t p q c before n d (i + 1) (omega arith) (omega arith)
      (λ j a b. after j a (omega arith)),
)

mul_le : (a b w : ℕ) → a ≤ b → a * w ≤ b * w
mul_le a b w h = grind arith

module _ (t : Table) where
  -- Byte `b` of cell `c + d`, counted from the start of cell `c`.
  cell_offset :
      (c d b : ℕ) → tbl_leaf_cell t (c + d) + b ≡ tbl_leaf_cell t c + (d * t.cell_size + b)
  unfolding tbl_leaf_cell
  cell_offset c d b = grind arith

  in_block : (d m w b : ℕ) → d < m → b < w → d * w + b < m * w
  in_block d m w b p q = grind arith

  block_end : (c m j : ℕ) → c + m ≤ j → tbl_leaf_cell t c + m * t.cell_size ≤ tbl_leaf_cell t j
  unfolding tbl_leaf_cell
  block_end c m j h = omega (arith, mul_le (c + m) j t.cell_size h)

  -- A block of `m` cells moved down by one cell.
  moved_down-byte :
      (p : Page) (c m j b : ℕ)
      → b < t.cell_size
      → cell_byte t (memcpy p (tbl_leaf_cell t c) p (tbl_leaf_cell t (c + 1)) (m * t.cell_size)) j b
        ≡ (if leb c j && ltb j (c + m) then cell_byte t p (j + 1) b else cell_byte t p j b)
  moved_down-byte p c m j b h = elim (Bool-cases (leb c j && ltb j (c + m))) [
    | inl inside ↦
        let d = j - c in
        let place : j ≡ c + d = ground arith in
        let source : c + 1 + d ≡ j + 1 = omega arith in
        rw inside (
          ap (λ (i : ℕ). cell_byte t block i b) place
          ∙ (ap block (cell_offset c d b)
              ∙ (memcpy_inside p (tbl_leaf_cell t c) p (tbl_leaf_cell t (c + 1)) (m * t.cell_size)
                    (d * t.cell_size + b) (in_block d m t.cell_size b (ground arith) h)
                  ∙ (ap p (sym (cell_offset (c + 1) d b))
                      ∙ ap (λ (i : ℕ). cell_byte t p i b) source))))
    | inr outside ↦ rw outside (
        memcpy_outside p (tbl_leaf_cell t c) p (tbl_leaf_cell t (c + 1)) (m * t.cell_size)
          (tbl_leaf_cell t j + b) (apart outside))
  ]
    where
      block : Page
      block = memcpy p (tbl_leaf_cell t c) p (tbl_leaf_cell t (c + 1)) (m * t.cell_size)

      apart :
          (leb c j && ltb j (c + m)) ≡ false
          → (tbl_leaf_cell t j + b < tbl_leaf_cell t c)
            ⊎ (tbl_leaf_cell t c + m * t.cell_size ≤ tbl_leaf_cell t j + b)
      apart outside = ground (arith, tbl_leaf_cell_apart t j c, block_end c m j)

module _ (t : Table) (is : IsTable t) (c : ℕ) (p : Page) where
  abbrev n : ℕ
  n = leaf_node_num_cells p

  abbrev moved : Page
  moved =
      if ltb c (n - 1)
      then memcpy p (tbl_leaf_cell t c) p (tbl_leaf_cell t (c + 1)) ((n - c - 1) * t.cell_size)
      else p

  moved-header : (k : ℕ) → k < leaf_node_header_size → moved k ≡ p k
  moved-header k h = ground (
    arith,
    header-le-tbl_leaf_cell t c,
    memcpy_outside p (tbl_leaf_cell t c) p (tbl_leaf_cell t (c + 1)) ((n - c - 1) * t.cell_size) k,
  )

  abbrev counted : Page
  counted = set_leaf_node_num_cells moved (leaf_node_num_cells moved - 1)

  counted-byte :
      (j b : ℕ)
      → b < t.cell_size
      → j < n - 1
      → cell_byte t counted j b ≡ (if ltb j c then cell_byte t p j b else cell_byte t p (j + 1) b)
  counted-byte j b h small = ground (
    arith,
    cell_byte-set_leaf_node_num_cells t is moved (leaf_node_num_cells moved - 1) j b,
    moved_down-byte t p c (n - c - 1) j b h,
  )

  num_cells-counted : n < u32_mod → leaf_node_num_cells counted ≡ n - 1
  num_cells-counted small =
      let same : leaf_node_num_cells moved ≡ n = leaf_node_num_cells_ext moved p moved-header in
      get_set_num_cells moved (leaf_node_num_cells moved - 1) (omega arith) ∙ omega (arith, same)

  row_at-before : (j : ℕ) → j < n - 1 → j < c → row_at t counted j ≡ row_at t p j
  row_at-before j small lt =
      row_at_ext t is counted p j j (λ b h. ground (arith, counted-byte j b h small))

  row_at-after : (j : ℕ) → j < n - 1 → c ≤ j → row_at t counted j ≡ row_at t p (j + 1)
  row_at-after j small le =
      row_at_ext t is counted p j (j + 1) (λ b h. ground (arith, counted-byte j b h small))

  -- leaf_node_delete takes the row of a cell that is in use out of a leaf that is not overfull: the rows before it stay, those behind
  -- it move down by one.
  pub delete_cell-erase_at :
      n ≤ t.max_cells → c < n → leaf_rows t (delete_cell t c p) ≡ erase_at c (leaf_rows t p)
  unfolding leaf_rows delete_cell
  delete_cell-erase_at few in_leaf =
      let all : suc (n - 1) ≡ n = omega arith in
      rw (num_cells-counted (omega (arith, max_cells-le t is))) (
        rows_from-erase t p counted c (λ j h. row_at-before j (omega arith) h) (n - 1) c 0
          (omega arith) (omega arith) (λ j a b. row_at-after j (omega arith) a)
        ∙ ap (λ m. erase_at c (rows_from t p m 0)) all)

  -- The header keeps its bytes before the number of cells, which goes down by one.
  pub delete_cell-header : (k : ℕ) → k < leaf_node_num_cells_offset → delete_cell t c p k ≡ p k
  unfolding delete_cell set_leaf_node_num_cells
  delete_cell-header k h =
      put_u32_outside moved leaf_node_num_cells_offset (leaf_node_num_cells moved - 1) k (inl h)
      ∙ moved-header k (omega arith)

  pub leaf_node_num_cells-delete_cell :
      n ≤ t.max_cells → leaf_node_num_cells (delete_cell t c p) ≡ n - 1
  unfolding delete_cell
  leaf_node_num_cells-delete_cell few = num_cells-counted (omega (arith, max_cells-le t is))
