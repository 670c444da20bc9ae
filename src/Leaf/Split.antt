-- ===== src/Leaf/Split.antt =====
-- leaf_node_split_and_insert: the rows of a full leaf and the new row, dealt out to two leaves.
use sqlyt.Base.{
  ℕ, zero, suc, ◌+◌, ◌-◌, ◌≤◌, ◌<◌, ◌≡◌, inl, inr, refl, sym, ap, ◌∙◌, fun_ext, arith, ltb, leb,
  ◌==◌, ◌&&◌, List, [], ◌∷◌, ◌++◌, if◌then◌else◌, Bool-cases, true, false,
}
use sqlyt.Page.{Page, u32_mod, slice, put_u32, memcpy}
use sqlyt.Page.Words.{put_u32_outside}
use sqlyt.Node.{
  leaf_node_num_cells, set_leaf_node_num_cells, set_leaf_node_next_leaf, leaf_node_next_leaf_offset,
  leaf_node_next_leaf, node_parent, set_node_parent, initialize_leaf_node,
}
use sqlyt.Table.{Table, tbl_leaf_cell, tbl_leaf_value}
use sqlyt.Table.Layout.{IsTable, max_cells-le}
use sqlyt.Leaf.{
  copy_cell, write_cell, write_split_cell, split_cell, split_cells, left_split, right_split,
  split_leaf, Row, row_at, rows_from, leaf_rows,
}
use sqlyt.Leaf.Cells.{header-le-tbl_leaf_cell, cell_byte-copy_cell}
use sqlyt.Leaf.Rows.{row_at_ext, row_at-write_cell_self, row_at-write_cell_ne}
use sqlyt.Leaf.Insert.{insert_at, cell_byte-set_leaf_node_num_cells, get_set_num_cells}

module _ (t : Table) (is : IsTable t) where
  -- The key and the value do not overlap.
  write_split_cell-write_cell :
      (c key : ℕ) (value p : Page) → write_split_cell t c key value p ≡ write_cell t c key value p
  unfolding write_split_cell write_cell put_u32 memcpy tbl_leaf_value
  write_split_cell-write_cell c key value p = fun_ext (λ k. ground arith)

  pub row_at-copy_cell :
      (p : Page) (to : ℕ) (q : Page) (from j : ℕ)
      → row_at t (copy_cell t p to q from) j ≡ (if j == to then row_at t q from else row_at t p j)
  row_at-copy_cell p to q from j = elim (Bool-cases (j == to)) [
    | inl e ↦ rw e (
        row_at_ext t is (copy_cell t p to q from) q j from
          (λ b h. ground (arith, cell_byte-copy_cell t p to q from j b h)))
    | inr e ↦ rw e (
        row_at_ext t is (copy_cell t p to q from) p j j
          (λ b h. ground (arith, cell_byte-copy_cell t p to q from j b h)))
  ]

  module _ (c key : ℕ) (value : Page) (small : key < u32_mod) where
    abbrev row : Row
    row = record { key = key; value = slice value 0 t.value_size }

    -- The row at index `k` of the rows with the new one.
    row_after : Page → ℕ → Row
    row_after old k =
        if k == c then row else if ltb c k then row_at t old (k - 1) else row_at t old k

    row_at-split_cell :
        (old : Page) (i to : ℕ) (p : Page) (j : ℕ)
        → row_at t (split_cell t c key value old i to p) j
          ≡ (if j == to then row_after old i else row_at t p j)
    unfolding split_cell row_after
    row_at-split_cell old i to p j = elim (Bool-cases (i == c)) [
      | inl e ↦
          rw (e, write_split_cell-write_cell to key value p)
            (ground (
              arith,
              row_at-write_cell_self t is to key value p small,
              row_at-write_cell_ne t is to key value p j,
            ))
      | inr e ↦ rw e (elim (Bool-cases (ltb c i)) [
        | inl l ↦ rw l (row_at-copy_cell p to old (i - 1) j)
        | inr l ↦ rw l (row_at-copy_cell p to old i j)
      ])
    ]

    row_after_ext :
        (p q : Page) (k : ℕ)
        → ((j : ℕ) → j ≤ k → row_at t p j ≡ row_at t q j)
        → row_after p k ≡ row_after q k
    unfolding row_after
    row_after_ext p q k same = ground (arith, same k, same (k - 1))

    module _ (left : ℕ) where
      split_cells_right :
          (i : ℕ) (old new : Page)
          → leb left i ≡ true
          → split_cells t left c key value (suc i) (old, new)
            ≡ split_cells t left c key value i (old, split_cell t c key value old i (i - left) new)
      unfolding split_cells
      split_cells_right i old new h =
          ap
            (λ b. split_cells t left c key value i (
              if b
              then (old, split_cell t c key value old i (i - left) new)
              else (split_cell t c key value old i i old, new)))
            h

      split_cells_left :
          (i : ℕ) (old new : Page)
          → leb left i ≡ false
          → split_cells t left c key value (suc i) (old, new)
            ≡ split_cells t left c key value i (split_cell t c key value old i i old, new)
      unfolding split_cells
      split_cells_left i old new h =
          ap
            (λ b. split_cells t left c key value i (
              if b
              then (old, split_cell t c key value old i (i - left) new)
              else (split_cell t c key value old i i old, new)))
            h

      -- Writing cell `i` of the old node leaves what the later rounds read.
      row_after-split_cell :
          (old : Page) (i k : ℕ)
          → k < i
          → row_after (split_cell t c key value old i i old) k ≡ row_after old k
      row_after-split_cell old i k h =
          row_after_ext (split_cell t c key value old i i old) old k
            (λ j hj. ground (arith, row_at-split_cell old i i old j))

      -- The loop gives each node its part of the rows with the new one, and leaves the other cells.
      row_at-split_cells_old :
          (n : ℕ) (old new : Page) (j : ℕ)
          → row_at t (split_cells t left c key value n (old, new)).0 j
            ≡ (if ltb j n && ltb j left then row_after old j else row_at t old j)
      unfolding split_cells
      row_at-split_cells_old zero old new j = ground arith
      row_at-split_cells_old (suc i) old new j = elim (Bool-cases (leb left i)) [
        | inl e ↦
            ap (λ pages. row_at t pages.0 j) (split_cells_right i old new e)
            ∙ row_at-split_cells_old i old (split_cell t c key value old i (i - left) new) j
            ∙ ground arith
        | inr e ↦
            ap (λ pages. row_at t pages.0 j) (split_cells_left i old new e)
            ∙ row_at-split_cells_old i (split_cell t c key value old i i old) new j
            ∙ ground (arith, row_at-split_cell old i i old j, row_after-split_cell old i j)
      ]

      row_at-split_cells_new :
          (n : ℕ) (old new : Page) (j : ℕ)
          → row_at t (split_cells t left c key value n (old, new)).1 j
            ≡ (if ltb (j + left) n then row_after old (j + left) else row_at t new j)
      unfolding split_cells
      row_at-split_cells_new zero old new j = ground arith
      row_at-split_cells_new (suc i) old new j = elim (Bool-cases (leb left i)) [
        | inl e ↦
            ap (λ pages. row_at t pages.1 j) (split_cells_right i old new e)
            ∙ row_at-split_cells_new i old (split_cell t c key value old i (i - left) new) j
            ∙ ground (arith, row_at-split_cell old i (i - left) new j)
        | inr e ↦
            ap (λ pages. row_at t pages.1 j) (split_cells_left i old new e)
            ∙ row_at-split_cells_new i (split_cell t c key value old i i old) new j
            ∙ ground (arith, row_after-split_cell old i (j + left))
      ]

    -- The rows `f i`, `f (i + 1)`, up to `n` of them.
    rows_by : (ℕ → Row) → (n i : ℕ) → List Row
    rows_by f zero i = []
    rows_by f (suc n) i = f i ∷ rows_by f n (i + 1)

    rows_from-rows_by :
        (f : ℕ → Row) (p : Page) (n i j : ℕ)
        → ((k : ℕ) → k < n → row_at t p (i + k) ≡ f (j + k))
        → rows_from t p n i ≡ rows_by f n j
    unfolding rows_from rows_by
    rows_from-rows_by f p zero i j same = refl
    rows_from-rows_by f p (suc n) i j same = ground (
      arith,
      same 0 (omega arith),
      rows_from-rows_by f p n (i + 1) (j + 1) (λ k h. ground (arith, same (suc k) (omega arith))),
    )

    rows_by-append :
        (f : ℕ → Row) (n m i : ℕ) → rows_by f n i ++ rows_by f m (i + n) ≡ rows_by f (n + m) i
    unfolding rows_by
    rows_by-append f zero m i = ground arith
    rows_by-append f (suc n) m i =
        let start : i + suc n ≡ i + 1 + n = omega arith in
        let total : suc (n + m) ≡ suc n + m = omega arith in
        ap (λ k. f i ∷ (rows_by f n (i + 1) ++ rows_by f m k)) start
        ∙ ap (λ xs. f i ∷ xs) (rows_by-append f n m (i + 1))
        ∙ ap (λ k. rows_by f k i) total

    row_after-later :
        (old : Page) (i k : ℕ) → c ≡ i + 0 → row_at t old (i + k) ≡ row_after old (i + 1 + k)
    unfolding row_after
    row_after-later old i k e = ground arith

    rows_by-insert_at :
        (old : Page) (n d i : ℕ)
        → c ≡ i + d
        → d ≤ n
        → rows_by (row_after old) (suc n) i ≡ insert_at d row (rows_from t old n i)
    unfolding rows_by insert_at rows_from row_after
    rows_by-insert_at old n zero i e le = ground (
      arith,
      rows_from-rows_by (row_after old) old n i (i + 1) (λ k h. row_after-later old i k e),
    )
    rows_by-insert_at old zero (suc d) i e le = absurd (omega arith)
    rows_by-insert_at old (suc n) (suc d) i e le =
        ground (arith, rows_by-insert_at old n d (i + 1) (omega arith) (omega arith))

    row_at-set_leaf_node_num_cells :
        (p : Page) (v j : ℕ) → row_at t (set_leaf_node_num_cells p v) j ≡ row_at t p j
    row_at-set_leaf_node_num_cells p v j =
        row_at_ext t is (set_leaf_node_num_cells p v) p j j
          (λ b h. cell_byte-set_leaf_node_num_cells t is p v j b)

    row_at-set_leaf_node_next_leaf :
        (p : Page) (v j : ℕ) → row_at t (set_leaf_node_next_leaf p v) j ≡ row_at t p j
    unfolding set_leaf_node_next_leaf
    row_at-set_leaf_node_next_leaf p v j =
        row_at_ext t is (set_leaf_node_next_leaf p v) p j j (λ b h.
          put_u32_outside p leaf_node_next_leaf_offset v (tbl_leaf_cell t j + b)
            (inr (omega (arith, header-le-tbl_leaf_cell t j))))

    module _ (old new : Page) (new_page_num : ℕ) where
      linked : Page
      linked = set_leaf_node_next_leaf old new_page_num

      made : Page
      made =
          set_leaf_node_next_leaf (set_node_parent (initialize_leaf_node new) (node_parent old))
            (leaf_node_next_leaf old)

      dealt : Page × Page
      dealt = split_cells t (left_split t) c key value (t.max_cells + 1) (linked, made)

      split_leaf-dealt : split_leaf t c key value new_page_num (old, new) ≡ (
        set_leaf_node_num_cells dealt.0 (left_split t),
        set_leaf_node_num_cells dealt.1 (right_split t),
      )
      unfolding split_leaf linked made dealt
      split_leaf-dealt = refl

      row_after-linked : (k : ℕ) → row_after linked k ≡ row_after old k
      unfolding linked
      row_after-linked k =
          row_after_ext linked old k (λ j h. row_at-set_leaf_node_next_leaf old new_page_num j)

      rows-old :
          rows_from t (set_leaf_node_num_cells dealt.0 (left_split t)) (left_split t) 0
          ≡ rows_by (row_after old) (left_split t) 0
      unfolding dealt
      rows-old =
          rows_from-rows_by (row_after old) (set_leaf_node_num_cells dealt.0 (left_split t))
            (left_split t) 0 0
            (λ k h.
              row_at-set_leaf_node_num_cells dealt.0 (left_split t) (0 + k)
              ∙ ground (
                arith,
                row_at-split_cells_old (left_split t) (t.max_cells + 1) linked made (0 + k),
                row_after-linked k,
              ))

      rows-new :
          rows_from t (set_leaf_node_num_cells dealt.1 (right_split t)) (right_split t) 0
          ≡ rows_by (row_after old) (right_split t) (left_split t)
      unfolding dealt
      rows-new =
          rows_from-rows_by (row_after old) (set_leaf_node_num_cells dealt.1 (right_split t))
            (right_split t) 0 (left_split t)
            (λ k h.
              row_at-set_leaf_node_num_cells dealt.1 (right_split t) (0 + k)
              ∙ ground (
                arith,
                row_at-split_cells_new (left_split t) (t.max_cells + 1) linked made (0 + k),
                row_after-linked (left_split t + k),
              ))

      leaf_rows-set :
          (p : Page) (v : ℕ)
          → v < u32_mod
          → leaf_rows t (set_leaf_node_num_cells p v)
            ≡ rows_from t (set_leaf_node_num_cells p v) v 0
      unfolding leaf_rows
      leaf_rows-set p v h =
          ap (λ n. rows_from t (set_leaf_node_num_cells p v) n 0) (get_set_num_cells p v h)

      -- For a key below 2 ^ 32 and a cell that is not behind the last one, the split of a full leaf of a
      -- table whose cells fit into a page deals its rows, with the new row in its place, out to the old and the
      -- new node: the rows of the one and then the other are the old rows with the new one inserted.
      pub split_leaf-insert_at :
          leaf_node_num_cells old ≡ t.max_cells
          → c ≤ t.max_cells
          → leaf_rows t (split_leaf t c key value new_page_num (old, new)).0
              ++ leaf_rows t (split_leaf t c key value new_page_num (old, new)).1
            ≡ insert_at c row (leaf_rows t old)
      unfolding leaf_rows
      split_leaf-insert_at full le =
          ap (λ xs. xs ++ leaf_rows t pages.1) old_rows
          ∙ ap (λ xs. rows_by (row_after old) (left_split t) 0 ++ xs) new_rows
          ∙ rows_by-append (row_after old) (left_split t) (right_split t) 0
          ∙ ap (λ n. rows_by (row_after old) n 0) total
          ∙ rows_by-insert_at old t.max_cells c 0 (omega arith) le
          ∙ ap (λ n. insert_at c row (rows_from t old n 0)) (sym full)
        where
          pages : Page × Page
          pages = split_leaf t c key value new_page_num (old, new)

          total : left_split t + right_split t ≡ suc t.max_cells
          total = omega arith

          old_rows : leaf_rows t pages.0 ≡ rows_by (row_after old) (left_split t) 0
          old_rows =
              ap (λ ps. leaf_rows t ps.0) split_leaf-dealt
              ∙ leaf_rows-set dealt.0 (left_split t) (omega (arith, max_cells-le t is))
              ∙ rows-old

          new_rows :
              leaf_rows t pages.1 ≡ rows_by (row_after old) (right_split t) (0 + left_split t)
          new_rows =
              ap (λ ps. leaf_rows t ps.1) split_leaf-dealt
              ∙ leaf_rows-set dealt.1 (right_split t) (omega (arith, max_cells-le t is))
              ∙ rows-new
              ∙ ap (rows_by (row_after old) (right_split t)) (omega arith)
