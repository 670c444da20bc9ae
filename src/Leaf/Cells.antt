-- ===== src/Leaf/Cells.antt =====
-- Copies of cells, byte by byte: cells do not overlap each other or the header.
use sqlyt.Base.{
  ℕ, zero, suc, ◌+◌, ◌-◌, ◌*◌, ◌≤◌, ◌<◌, ◌≡◌, inl, refl, ◌∙◌, arith, ltb, leb, ◌==◌, ◌&&◌,
  if◌then◌else◌,
}
use sqlyt.Page.{Page}
use sqlyt.Page.Words.{memcpy_inside, memcpy_outside}
use sqlyt.Node.{leaf_node_header_size}
use sqlyt.Table.{Table, tbl_leaf_cell}
use sqlyt.Leaf.{copy_cell, shift_cells_up}

-- Byte `b` of cell `i`.
abbrev pub cell_byte : Table → Page → ℕ → ℕ → ℕ
cell_byte t p i b = p (tbl_leaf_cell t i + b)

-- Cells with a smaller number end before.
cells_apart : (i j w : ℕ) → i < j → i * w + w ≤ j * w
cells_apart i j w h = grind arith

module _ (t : Table) where
  pub tbl_leaf_cell_apart : (i j : ℕ) → i < j → tbl_leaf_cell t i + t.cell_size ≤ tbl_leaf_cell t j
  unfolding tbl_leaf_cell
  tbl_leaf_cell_apart i j h = omega (arith, cells_apart i j t.cell_size h)

  pub header-le-tbl_leaf_cell : (i : ℕ) → leaf_node_header_size ≤ tbl_leaf_cell t i
  unfolding tbl_leaf_cell
  header-le-tbl_leaf_cell i = omega arith

  pub cell_byte-copy_cell :
      (p : Page) (to : ℕ) (q : Page) (from j b : ℕ)
      → b < t.cell_size
      → cell_byte t (copy_cell t p to q from) j b
        ≡ (if j == to then cell_byte t q from b else cell_byte t p j b)
  cell_byte-copy_cell p to q from j b h = ground (
    arith,
    memcpy_inside p (tbl_leaf_cell t to) q (tbl_leaf_cell t from) t.cell_size b,
    memcpy_outside p (tbl_leaf_cell t to) q (tbl_leaf_cell t from) t.cell_size
        (tbl_leaf_cell t j + b),
    tbl_leaf_cell_apart j to,
    tbl_leaf_cell_apart to j,
  )

  pub shift_cells_up-byte :
      (n i : ℕ) (p : Page) (j b : ℕ)
      → n ≤ i
      → b < t.cell_size
      → cell_byte t (shift_cells_up t n i p) j b
        ≡ (if ltb (i - n) j && leb j i then cell_byte t p (j - 1) b else cell_byte t p j b)
  unfolding shift_cells_up
  shift_cells_up-byte zero i p j b h hb = ground arith
  shift_cells_up-byte (suc n) i p j b h hb = ground (
    arith,
    shift_cells_up-byte n (i - 1) (copy_cell t p i p (i - 1)) j b,
    cell_byte-copy_cell p i p (i - 1) j b,
    cell_byte-copy_cell p i p (i - 1) (j - 1) b,
  )

  pub shift_cells_up-header :
      (n i : ℕ) (p : Page) (k : ℕ) → k < leaf_node_header_size → shift_cells_up t n i p k ≡ p k
  unfolding shift_cells_up
  shift_cells_up-header zero i p k h = refl
  shift_cells_up-header (suc n) i p k h =
      shift_cells_up-header n (i - 1) (copy_cell t p i p (i - 1)) k h
      ∙ memcpy_outside p (tbl_leaf_cell t i) p (tbl_leaf_cell t (i - 1)) t.cell_size k
          (inl (omega (arith, header-le-tbl_leaf_cell i)))
