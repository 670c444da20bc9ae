-- ===== src/Leaf/Rows.antt =====
-- Rows as lists: a row depends on the bytes of its cell, and rows given by their index make a list.
use sqlyt.Base.{ℕ, zero, suc, ◌+◌, ◌≤◌, ◌<◌, ◌≡◌, ◌≢◌, ◌⊎◌, refl, ap, ◌∙◌, arith, length}
use sqlyt.Page.{Page, u32_mod, get_u32, put_u32, memcpy, slice}
use sqlyt.Page.Words.{
  get_u32_ext, memcpy_inside, memcpy_outside, put_u32_outside, get_u32-put_u32_self,
}
use sqlyt.Page.Slices.{slice_ext}
use sqlyt.Node.{leaf_node_key_size}
use sqlyt.Table.{Table, tbl_leaf_cell, tbl_leaf_key, tbl_leaf_value}
use sqlyt.Table.Layout.{IsTable}
use sqlyt.Leaf.{write_cell, row_at, rows_from}
use sqlyt.Leaf.Cells.{cell_byte, tbl_leaf_cell_apart}

length-rows_from : (t : Table) (p : Page) (n i : ℕ) → length (rows_from t p n i) ≡ n
unfolding rows_from
length-rows_from t p zero i = refl
length-rows_from t p (suc n) i = ap suc (length-rows_from t p n (i + 1))

module _ (t : Table) (is : IsTable t) where
  pub row_at_ext :
      (p q : Page) (i j : ℕ)
      → ((b : ℕ) → b < t.cell_size → cell_byte t p i b ≡ cell_byte t q j b)
      → row_at t p i ≡ row_at t q j
  unfolding row_at tbl_leaf_key tbl_leaf_value
  row_at_ext p q i j same =
      let key : get_u32 p (tbl_leaf_cell t i) ≡ get_u32 q (tbl_leaf_cell t j) =
        get_u32_ext p q (tbl_leaf_cell t i) (tbl_leaf_cell t j)
          (λ b h. same b (omega (arith, is.cell)))
          (ground (arith, same 0 (omega (arith, is.cell)))) in
      let value : slice p (tbl_leaf_cell t i + leaf_node_key_size) t.value_size
          ≡ slice q (tbl_leaf_cell t j + leaf_node_key_size) t.value_size =
        slice_ext p q (tbl_leaf_cell t i + leaf_node_key_size)
          (tbl_leaf_cell t j + leaf_node_key_size) t.value_size
          (λ b h. ground (arith, same (leaf_node_key_size + b) (omega (arith, is.cell)))) in
      λ k. record { key = key k; value = value k }

  pub write_cell-outside :
      (c key : ℕ) (value p : Page) (k : ℕ)
      → (k < tbl_leaf_cell t c) ⊎ (tbl_leaf_cell t c + t.cell_size ≤ k)
      → write_cell t c key value p k ≡ p k
  unfolding write_cell tbl_leaf_value
  write_cell-outside c key value p k h =
      memcpy_outside (put_u32 p (tbl_leaf_cell t c) key) (tbl_leaf_cell t c + leaf_node_key_size)
        value 0 t.value_size k (omega (arith, is.cell))
      ∙ put_u32_outside p (tbl_leaf_cell t c) key k (omega (arith, is.cell))

  pub row_at-write_cell_self :
      (c key : ℕ) (value p : Page)
      → key < u32_mod
      → row_at t (write_cell t c key value p) c
        ≡ record { key = key; value = slice value 0 t.value_size }
  unfolding row_at tbl_leaf_key tbl_leaf_value write_cell
  row_at-write_cell_self c key value p small =
      let at = tbl_leaf_cell t c in
      let written = put_u32 p at key in
      let key_read : get_u32 (memcpy written (at + leaf_node_key_size) value 0 t.value_size) at
          ≡ key =
        get_u32_ext (memcpy written (at + leaf_node_key_size) value 0 t.value_size) written at at
          (λ b h.
            memcpy_outside written (at + leaf_node_key_size) value 0 t.value_size (at + b)
              (omega arith))
          (memcpy_outside written (at + leaf_node_key_size) value 0 t.value_size at (omega arith))
        ∙ get_u32-put_u32_self p at key small in
      let value_read : slice (memcpy written (at + leaf_node_key_size) value 0 t.value_size)
            (at + leaf_node_key_size) t.value_size
          ≡ slice value 0 t.value_size =
        slice_ext _ value (at + leaf_node_key_size) 0 t.value_size
          (λ b h. memcpy_inside written (at + leaf_node_key_size) value 0 t.value_size b h) in
      λ k. record { key = key_read k; value = value_read k }

  pub row_at-write_cell_ne :
      (c key : ℕ) (value p : Page) (j : ℕ)
      → j ≢ c
      → row_at t (write_cell t c key value p) j ≡ row_at t p j
  row_at-write_cell_ne c key value p j ne =
      row_at_ext (write_cell t c key value p) p j j
        (λ b h. write_cell-outside c key value p (tbl_leaf_cell t j + b) (apart b h))
    where
      apart :
          (b : ℕ)
          → b < t.cell_size
          → (tbl_leaf_cell t j + b < tbl_leaf_cell t c)
            ⊎ (tbl_leaf_cell t c + t.cell_size ≤ tbl_leaf_cell t j + b)
      apart b h = ground (arith, tbl_leaf_cell_apart t j c, tbl_leaf_cell_apart t c j)
