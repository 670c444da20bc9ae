-- ===== src/Leaf/Insert.antt =====
-- leaf_node_insert with room: the row is put between the rows before and after its cell.
use sqlyt.Base.{
  ℕ, zero, suc, ◌+◌, ◌-◌, ◌≤◌, ◌<◌, ◌≡◌, inl, inr, refl, ap, ◌∙◌, arith, ltb, leb, ◌&&◌, List, [],
  ◌∷◌, if◌then◌else◌, Bool-cases,
}
use sqlyt.Page.{Page, u32_mod, slice}
use sqlyt.Page.Words.{get_u32_ext, put_u32_outside, get_u32-put_u32_self}
use sqlyt.Node.{
  leaf_node_header_size, leaf_node_num_cells, set_leaf_node_num_cells, leaf_node_num_cells_offset,
}
use sqlyt.Table.{Table, tbl_leaf_cell}
use sqlyt.Table.Layout.{IsTable, max_cells-le}
use sqlyt.Leaf.{shift_cells_up, write_cell, insert_cell, Row, row_at, rows_from, leaf_rows}
use sqlyt.Leaf.Cells.{
  cell_byte, header-le-tbl_leaf_cell, shift_cells_up-byte, shift_cells_up-header,
}
use sqlyt.Leaf.Rows.{row_at_ext, write_cell-outside, row_at-write_cell_self, row_at-write_cell_ne}

-- A row put at place `c` of a list, at the end if the list is shorter.
unfoldable pub insert_at : ℕ → Row → List Row → List Row
insert_at zero r xs = r ∷ xs
insert_at (suc c) r [] = r ∷ []
insert_at (suc c) r (x ∷ xs) = x ∷ insert_at c r xs

-- Pages whose rows are those of another page from some cell on have the same list of rows.
pub rows_from_ext :
    (t u : Table) (p q : Page) (n i j : ℕ)
    → ((k : ℕ) → k < n → row_at t p (i + k) ≡ row_at u q (j + k))
    → rows_from t p n i ≡ rows_from u q n j
unfolding rows_from
rows_from_ext t u p q zero i j same = refl
rows_from_ext t u p q (suc n) i j same = ground (
  arith,
  same 0 (omega arith),
  rows_from_ext t u p q n (i + 1) (j + 1) λ k h. ground (arith, same (suc k) (omega arith)),
)

-- A list of rows that has `r` in cell `c`, and the later rows moved up.
rows_from-insert :
    (t : Table) (p q : Page) (c : ℕ) (r : Row)
    → ((j : ℕ) → j < c → row_at t q j ≡ row_at t p j)
    → row_at t q c ≡ r
    → (n d i : ℕ) → c ≡ i + d
    → d ≤ n
    → ((j : ℕ) → c < j → j ≤ i + n → row_at t q j ≡ row_at t p (j - 1))
    → rows_from t q (suc n) i ≡ insert_at d r (rows_from t p n i)
unfolding rows_from insert_at
rows_from-insert t p q c r before here n zero i e le after =
    let at : c ≡ i = omega arith in
    ground (
      arith,
      ap (row_at t q) at,
      rows_from_ext t t q p n (i + 1) i
          (λ k h. ground (arith, after (i + 1 + k) (omega arith) (omega arith))),
    )
rows_from-insert t p q c r before here zero (suc d) i e le after = absurd (omega arith)
rows_from-insert t p q c r before here (suc n) (suc d) i e le after = ground (
  arith,
  before i (omega arith),
  rows_from-insert t p q c r before here n d (i + 1) (omega arith) (omega arith)
      (λ j a b. after j a (omega arith)),
)

-- A page with other bytes only in the header.
abbrev SameCells : Table → (p q : Page) → Type 0
SameCells t p q = (j b : ℕ) → cell_byte t p j b ≡ cell_byte t q j b

pub leaf_node_num_cells_ext :
    (p q : Page)
    → ((k : ℕ) → k < leaf_node_header_size → p k ≡ q k)
    → leaf_node_num_cells p ≡ leaf_node_num_cells q
unfolding leaf_node_num_cells
leaf_node_num_cells_ext p q same =
    get_u32_ext p q leaf_node_num_cells_offset leaf_node_num_cells_offset
      (λ i h. same (leaf_node_num_cells_offset + i) (omega arith))
      (same leaf_node_num_cells_offset (omega arith))

pub get_set_num_cells :
    (p : Page) (v : ℕ) → v < u32_mod → leaf_node_num_cells (set_leaf_node_num_cells p v) ≡ v
unfolding leaf_node_num_cells set_leaf_node_num_cells
get_set_num_cells p v small = get_u32-put_u32_self p leaf_node_num_cells_offset v small

module _ (t : Table) (is : IsTable t) where
  pub cell_byte-set_leaf_node_num_cells :
      (p : Page) (v j b : ℕ) → cell_byte t (set_leaf_node_num_cells p v) j b ≡ cell_byte t p j b
  unfolding set_leaf_node_num_cells
  cell_byte-set_leaf_node_num_cells p v j b =
      put_u32_outside p leaf_node_num_cells_offset v (tbl_leaf_cell t j + b)
        (inr (omega (arith, header-le-tbl_leaf_cell t j)))

  leaf_node_num_cells-write_cell :
      (c key : ℕ) (value p : Page)
      → leaf_node_num_cells (write_cell t c key value p) ≡ leaf_node_num_cells p
  leaf_node_num_cells-write_cell c key value p =
      leaf_node_num_cells_ext (write_cell t c key value p) p (λ k h.
        write_cell-outside t is c key value p k (inl (omega (arith, header-le-tbl_leaf_cell t c))))

  module _ (c key : ℕ) (value p : Page) where
    abbrev n : ℕ
    n = leaf_node_num_cells p

    abbrev shifted : Page
    shifted = if ltb c n then shift_cells_up t (n - c) n p else p

    shifted-header : (k : ℕ) → k < leaf_node_header_size → shifted k ≡ p k
    shifted-header k h = ground (arith, shift_cells_up-header t (n - c) n p k)

    shifted-byte :
        (j b : ℕ)
        → b < t.cell_size
        → c ≤ n
        → cell_byte t shifted j b
          ≡ (if ltb c j && leb j n then cell_byte t p (j - 1) b else cell_byte t p j b)
    shifted-byte j b h le = ground (arith, shift_cells_up-byte t (n - c) n p j b)

    -- The page before the new cell is written.
    abbrev counted : Page
    counted = set_leaf_node_num_cells shifted (leaf_node_num_cells shifted + 1)

    row_at-counted :
        (j : ℕ)
        → c ≤ n
        → row_at t counted j ≡ (if ltb c j && leb j n then row_at t p (j - 1) else row_at t p j)
    row_at-counted j le = elim (Bool-cases (ltb c j && leb j n)) [
      | inl moved ↦ rw moved (
          row_at_ext t is counted p j (j - 1) (λ b h. ground (
            arith,
            cell_byte-set_leaf_node_num_cells shifted (leaf_node_num_cells shifted + 1) j b,
            shifted-byte j b h le,
          )))
      | inr kept ↦ rw kept (
          row_at_ext t is counted p j j (λ b h. ground (
            arith,
            cell_byte-set_leaf_node_num_cells shifted (leaf_node_num_cells shifted + 1) j b,
            shifted-byte j b h le,
          )))
    ]

    num_cells-counted : n + 1 < u32_mod → leaf_node_num_cells counted ≡ suc n
    num_cells-counted small =
        let same : leaf_node_num_cells shifted ≡ n =
          leaf_node_num_cells_ext shifted p shifted-header in
        get_set_num_cells shifted (leaf_node_num_cells shifted + 1) (omega arith)
        ∙ omega (arith, same)

    -- For a key below 2 ^ 32 and a cell that is not behind the first unused one, leaf_node_insert on a
    -- leaf with room puts the row into its cell: the rows before it stay, those
    -- from that cell on move up by one.
    pub insert_cell-insert_at :
        n < t.max_cells
        → c ≤ n
        → key < u32_mod
        → leaf_rows t (insert_cell t c key value p)
          ≡ insert_at c (record { key = key; value = slice value 0 t.value_size }) (leaf_rows t p)
    unfolding leaf_rows insert_cell
    insert_cell-insert_at room le small =
        rw
          (
            leaf_node_num_cells-write_cell c key value counted,
            num_cells-counted (omega (arith, max_cells-le t is)),
          )
          (rows_from-insert t p (write_cell t c key value counted) c _
            (λ j h.
              row_at-write_cell_ne t is c key value counted j (λ e. omega arith)
              ∙ ground (arith, row_at-counted j le))
            (row_at-write_cell_self t is c key value counted small) n c 0 (omega arith) le
            (λ j a b.
              row_at-write_cell_ne t is c key value counted j (λ e. omega arith)
              ∙ ground (arith, row_at-counted j le)))

    -- The header keeps its bytes before the number of cells, which goes up by one.
    pub insert_cell-header :
        (k : ℕ) → k < leaf_node_num_cells_offset → insert_cell t c key value p k ≡ p k
    unfolding insert_cell set_leaf_node_num_cells
    insert_cell-header k h =
        write_cell-outside t is c key value counted k
          (inl (omega (arith, header-le-tbl_leaf_cell t c)))
        ∙ put_u32_outside shifted leaf_node_num_cells_offset (leaf_node_num_cells shifted + 1) k
            (inl h)
        ∙ shifted-header k (omega arith)

    pub leaf_node_num_cells-insert_cell :
        n < t.max_cells → leaf_node_num_cells (insert_cell t c key value p) ≡ suc n
    unfolding insert_cell
    leaf_node_num_cells-insert_cell room =
        leaf_node_num_cells-write_cell c key value counted
        ∙ num_cells-counted (omega (arith, max_cells-le t is))
