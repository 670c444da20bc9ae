-- ===== src/Leaf/Keyed.antt =====
-- The rows of a leaf as a table from keys to values: a row put in its place, a row taken out, and
-- the keys that are there. What leaf_node_find finds says where that is.
use sqlyt.Base.{
  ℕ, zero, suc, ◌+◌, ◌≤◌, ◌<◌, ◌≡◌, ◌≢◌, refl, arith, Bool, false, ◌&&◌, ◌||◌, ltb, ◌==◌, List, [],
  ◌∷◌, if◌then◌else◌, Bool-cases, inl, inr, ltb→lt, ltb→ge,
}
use sqlyt.Page.{Page}
use sqlyt.Table.{Table, tbl_leaf_key}
use sqlyt.Leaf.{Row, row_at, rows_from}
use sqlyt.Leaf.Insert.{insert_at}
use sqlyt.Leaf.Delete.{erase_at}
use sqlyt.Search.Bound.{IsAscending, Splits}

abbrev pub has_key : ℕ → List Row → Bool
has_key key [] = false
has_key key (x ∷ xs) = x.key == key || has_key key xs

-- The row before the first one with a larger key.
unfoldable pub place : Row → List Row → List Row
place r [] = r ∷ []
place r (x ∷ xs) = if ltb r.key x.key then r ∷ x ∷ xs else x ∷ place r xs

-- The rows without the first one that has the key.
unfoldable pub remove_key : ℕ → List Row → List Row
remove_key key [] = []
remove_key key (x ∷ xs) = if x.key == key then xs else x ∷ remove_key key xs

-- Every key is above `k`.
abbrev pub AllAbove : ℕ → List Row → Type 0
AllAbove k [] = Unit
AllAbove k (x ∷ xs) = (k < x.key) × AllAbove k xs

-- The keys go up.
abbrev pub IsSorted : List Row → Type 0
IsSorted [] = Unit
IsSorted (x ∷ xs) = AllAbove x.key xs × IsSorted xs

AllAbove-place :
    (k : ℕ) (r : Row) (xs : List Row) → k < r.key → AllAbove k xs → AllAbove k (place r xs)
unfolding place
AllAbove-place k r [] h a = (h, tt)
AllAbove-place k r (x ∷ xs) h a = elim (Bool-cases (ltb r.key x.key)) [
  | inl e ↦ rw e (h, a)
  | inr e ↦ rw e (a.0, AllAbove-place k r xs h a.1)
]

AllAbove-trans : (k m : ℕ) (xs : List Row) → k < m → AllAbove m xs → AllAbove k xs
AllAbove-trans k m [] h a = tt
AllAbove-trans k m (x ∷ xs) h a = (omega (arith, a.0), AllAbove-trans k m xs h a.1)

-- A row with a new key that is put in its place leaves the rows sorted.
pub place-IsSorted :
    (r : Row) (xs : List Row) → has_key r.key xs ≡ false → IsSorted xs → IsSorted (place r xs)
unfolding place
place-IsSorted r [] n s = (tt, tt)
place-IsSorted r (x ∷ xs) n s = elim (Bool-cases (ltb r.key x.key)) [
  | inl e ↦
      rw e ((ltb→lt r.key x.key e, AllAbove-trans r.key x.key xs (ltb→lt r.key x.key e) s.0), s)
  | inr e ↦ rw e (
    AllAbove-place x.key r xs (ground (arith, ltb→ge r.key x.key e)) s.0,
    place-IsSorted r xs (ground arith) s.1,
  )
]

AllAbove-remove_key : (k key : ℕ) (xs : List Row) → AllAbove k xs → AllAbove k (remove_key key xs)
unfolding remove_key
AllAbove-remove_key k key [] a = tt
AllAbove-remove_key k key (x ∷ xs) a = elim (Bool-cases (x.key == key)) [
  | inl e ↦ rw e a.1
  | inr e ↦ rw e (a.0, AllAbove-remove_key k key xs a.1)
]

-- Taking a row out leaves the rows sorted.
pub remove_key-IsSorted : (key : ℕ) (xs : List Row) → IsSorted xs → IsSorted (remove_key key xs)
unfolding remove_key
remove_key-IsSorted key [] s = tt
remove_key-IsSorted key (x ∷ xs) s = elim (Bool-cases (x.key == key)) [
  | inl e ↦ rw e s.1
  | inr e ↦ rw e (AllAbove-remove_key x.key key xs s.0, remove_key-IsSorted key xs s.1)
]

module _ (t : Table) (p : Page) where
  AllAbove-rows_from :
      (k n i : ℕ)
      → ((j : ℕ) → i ≤ j → j < i + n → k < tbl_leaf_key t p j)
      → AllAbove k (rows_from t p n i)
  unfolding rows_from row_at
  AllAbove-rows_from k zero i h = tt
  AllAbove-rows_from k (suc n) i h = (
    h i (omega arith) (omega arith),
    AllAbove-rows_from k n (i + 1) (λ j a b. h j (omega arith) (omega arith)),
  )

  -- Keys that go up with the index give sorted rows, and the other way round.
  IsSorted-rows_from :
      (n i m : ℕ) → IsAscending (tbl_leaf_key t p) m → i + n ≤ m → IsSorted (rows_from t p n i)
  unfolding rows_from row_at
  IsSorted-rows_from zero i m up le = tt
  IsSorted-rows_from (suc n) i m up le = (
    AllAbove-rows_from (tbl_leaf_key t p i) n (i + 1) (λ j a b. up i j (omega arith) (omega arith)),
    IsSorted-rows_from n (i + 1) m up (omega arith),
  )

  AllAbove-at :
      (k n i j : ℕ) → AllAbove k (rows_from t p n i) → i ≤ j → j < i + n → k < tbl_leaf_key t p j
  unfolding rows_from row_at
  AllAbove-at k zero i j a h l = absurd (omega arith)
  AllAbove-at k (suc n) i j a h l = elim (Bool-cases (i == j)) [
    | inl e ↦ let same : i ≡ j = ground arith in rw (← same) a.0
    | inr e ↦ AllAbove-at k n (i + 1) j a.1 (ground arith) (omega arith)
  ]

  pub rows_from-IsAscending :
      (n i : ℕ)
      → IsSorted (rows_from t p n i)
      → (a b : ℕ) → i ≤ a
      → a < b
      → b < i + n
      → tbl_leaf_key t p a < tbl_leaf_key t p b
  unfolding rows_from row_at
  rows_from-IsAscending zero i s a b h l m = absurd (omega arith)
  rows_from-IsAscending (suc n) i s a b h l m = elim (Bool-cases (i == a)) [
    | inl e ↦
        let same : i ≡ a = ground arith in
        rw (← same) (AllAbove-at (tbl_leaf_key t p i) n (i + 1) b s.0 (omega arith) (omega arith))
    | inr e ↦ rows_from-IsAscending n (i + 1) s.1 a b (ground arith) l (omega arith)
  ]

  module _ (key r n : ℕ) (split : Splits (tbl_leaf_key t p) n key r) where
    abbrev key_at : ℕ → ℕ
    key_at = tbl_leaf_key t p

    -- No row from cell `i` on has the key, if the search ends before `i` or finds another key.
    has_key-beyond :
        (m i : ℕ)
        → i + m ≡ n
        → r ≤ i
        → (i ≡ r → r < n → key_at r ≢ key)
        → IsAscending key_at n
        → has_key key (rows_from t p m i) ≡ false
    unfolding rows_from row_at
    has_key-beyond zero i e le other up = refl
    has_key-beyond (suc m) i e le other up =
        let rest : has_key key (rows_from t p m (i + 1)) ≡ false =
          has_key-beyond m (i + 1) (omega arith) (omega arith) (λ a b. absurd (omega arith)) up in
        ground (arith, rest, split.above i, up r i, split.above r)

    -- The key is in the leaf just if it is in the cell that the search finds.
    pub has_key-Splits :
        (m i : ℕ)
        → i + m ≡ n
        → i ≤ r
        → IsAscending key_at n
        → has_key key (rows_from t p m i) ≡ (ltb r n && key_at r == key)
    unfolding rows_from row_at
    has_key-Splits zero i e le up = ground arith
    has_key-Splits (suc m) i e le up = elim (Bool-cases (i == r)) [
      | inl same ↦ elim (Bool-cases (key_at r == key)) [
        | inl found ↦ ground arith
        | inr other ↦
            let rest : has_key key (rows_from t p m (i + 1)) ≡ false =
              has_key-beyond m (i + 1) (omega arith) (ground arith) (λ a b. absurd (ground arith))
                up in
            ground arith
      ]
      | inr less ↦
          ground (arith, split.below i, has_key-Splits m (i + 1) (omega arith) (ground arith) up)
    ]

    -- The cell that the search finds is the place of a row with a new key.
    pub place-insert_at :
        (row : Row) (m i d : ℕ)
        → row.key ≡ key
        → i + m ≡ n
        → r ≡ i + d
        → (r < n → key_at r ≢ key)
        → place row (rows_from t p m i) ≡ insert_at d row (rows_from t p m i)
    unfolding place insert_at rows_from row_at
    place-insert_at row zero i zero k e at other = refl
    place-insert_at row zero i (suc d) k e at other = refl
    place-insert_at row (suc m) i zero k e at other = ground (arith, split.above i, other)
    place-insert_at row (suc m) i (suc d) k e at other =
        ground (
          arith,
          split.below i,
          place-insert_at row m (i + 1) d k (omega arith) (omega arith) other,
        )

    -- The row with the key stands in the cell that the search finds.
    pub remove_key-erase_at :
        (m i d : ℕ)
        → i + m ≡ n
        → r ≡ i + d
        → r < n
        → key_at r ≡ key
        → remove_key key (rows_from t p m i) ≡ erase_at d (rows_from t p m i)
    unfolding remove_key erase_at rows_from row_at
    remove_key-erase_at zero i d e at l found = absurd (omega arith)
    remove_key-erase_at (suc m) i zero e at l found = ground arith
    remove_key-erase_at (suc m) i (suc d) e at l found =
        ground (
          arith,
          split.below i,
          remove_key-erase_at m (i + 1) d (omega arith) (omega arith) l found,
        )
