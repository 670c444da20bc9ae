-- ===== src/Search/Bound.antt =====
-- Both searches end, and on sorted keys find the first index whose key is not below the key.
use sqlyt.Base.{
  ℕ, zero, suc, ◌+◌, ◌/◌, ◌%◌, ◌≤◌, ◌<◌, ◌≡◌, false, Option, some, arith, ltb, leb, ◌==◌,
  Bool-cases, ==_iff, leb→le, leb→gt, inl, inr,
}
use sqlyt.Page.{Page, u32_mod}
use sqlyt.Node.{internal_node_num_keys, internal_node_key, leaf_node_num_cells}
use sqlyt.Table.{Table, tbl_leaf_key}
use sqlyt.Search.{leaf_find_loop, child_find_loop, leaf_find_index, internal_node_find_child}

-- The first `n` keys go up.
abbrev pub IsAscending : (ℕ → ℕ) → ℕ → Type 0
IsAscending keys n = (i j : ℕ) → i < j → j < n → keys i < keys j

-- `r` parts the first `n` keys into those below the key and those not below it.
pub record Splits (keys : ℕ → ℕ) (n key r : ℕ) : Type 0 where
  pub inside : r ≤ n
  pub below : (i : ℕ) → i < r → keys i < key
  pub above : (i : ℕ) → r ≤ i → i < n → key ≤ keys i

pub data Finds (keys : ℕ → ℕ) (n key : ℕ) : Option ℕ → Type 0 where
  finds : {r : ℕ} → Splits keys n key r → Finds keys n key (some r)

module _ (keys : ℕ → ℕ) (n key : ℕ) (sorted : IsAscending keys n) (small : n + n < u32_mod) where
  at_key : (i : ℕ) → i < n → key ≡ keys i → Splits keys n key i
  at_key i h e = record {
    inside = omega arith;
    below = λ j l. omega (arith, sorted j i l h);
    above = up;
  }
    where
      up : (j : ℕ) → i ≤ j → j < n → key ≤ keys j
      up j lo hi = ground (arith, sorted i j)

  -- The invariant of both loops: keys left of the range are below the key, right of it not.
  record Range (lo hi : ℕ) : Type 0 where
    order : lo ≤ hi
    inside : hi ≤ n
    below : (i : ℕ) → i < lo → keys i < key
    above : (i : ℕ) → hi ≤ i → i < n → key ≤ keys i

  abbrev middle : (lo hi : ℕ) → ℕ
  middle lo hi = (lo + hi) % u32_mod / 2

  middle_inside :
      (lo hi : ℕ) → Range lo hi → (hi == lo) ≡ false → (lo ≤ middle lo hi) × (middle lo hi < hi)
  middle_inside lo hi r e = ground (arith, r.order, r.inside)

  at_end : (lo hi : ℕ) → Range lo hi → hi ≡ lo → Splits keys n key lo
  at_end lo hi r e = record {
    inside = omega (arith, r.order, r.inside);
    below = r.below;
    above = λ i a b. r.above i (omega arith) b;
  }

  to_lower : (lo hi i : ℕ) → Range lo hi → lo ≤ i → i < hi → key ≤ keys i → Range lo i
  to_lower lo hi i r a b le = record {
    order = a;
    inside = omega (arith, r.inside);
    below = r.below;
    above = λ j l h. ground (arith, sorted i j);
  }

  to_upper : (lo hi i : ℕ) → Range lo hi → lo ≤ i → i < hi → keys i < key → Range (i + 1) hi
  to_upper lo hi i r a b lt = record {
    order = omega arith;
    inside = r.inside;
    below = λ j l. ground (arith, r.inside, sorted j i);
    above = r.above;
  }

  leaf_find_loop-Finds :
      (fuel lo hi : ℕ)
      → Range lo hi
      → hi < fuel + lo
      → Finds keys n key (leaf_find_loop keys key fuel lo hi)
  unfolding leaf_find_loop
  leaf_find_loop-Finds zero lo hi r enough = absurd (omega (arith, r.order))
  leaf_find_loop-Finds (suc fuel) lo hi r enough = elim (Bool-cases (hi == lo)) [
    | inl e ↦ rw e (finds (at_end lo hi r ((==_iff hi lo).0 e)))
    | inr ne ↦
        let (a, b) = middle_inside lo hi r ne in
        let in_table : middle lo hi < n = omega (arith, r.inside) in
        elim (Bool-cases (key == keys (middle lo hi))) [
          | inl hit ↦ rw (ne, hit) (finds (at_key (middle lo hi) in_table ((==_iff key _).0 hit)))
          | inr miss ↦ elim (Bool-cases (ltb key (keys (middle lo hi)))) [
            | inl less ↦
                rw (ne, miss, less)
                  (leaf_find_loop-Finds fuel lo (middle lo hi)
                    (to_lower lo hi (middle lo hi) r a b (ground arith)) (omega arith))
            | inr more ↦
                rw (ne, miss, more)
                  (leaf_find_loop-Finds fuel (middle lo hi + 1) hi
                    (to_upper lo hi (middle lo hi) r a b (ground arith)) (omega arith))
          ]
        ]
  ]

  child_find_loop-Finds :
      (fuel lo hi : ℕ)
      → Range lo hi
      → hi < fuel + lo
      → Finds keys n key (child_find_loop keys key fuel lo hi)
  unfolding child_find_loop
  child_find_loop-Finds zero lo hi r enough = absurd (omega (arith, r.order))
  child_find_loop-Finds (suc fuel) lo hi r enough = elim (Bool-cases (lo == hi)) [
    | inl e ↦ rw e (finds (at_end lo hi r (ground arith)))
    | inr ne ↦
        let (a, b) = middle_inside lo hi r (ground arith) in
        elim (Bool-cases (leb key (keys (middle lo hi)))) [
          | inl le ↦
              rw (ne, le)
                (child_find_loop-Finds fuel lo (middle lo hi)
                  (to_lower lo hi (middle lo hi) r a b (leb→le _ _ le)) (omega arith))
          | inr gt ↦
              rw (ne, gt)
                (child_find_loop-Finds fuel (middle lo hi + 1) hi
                  (to_upper lo hi (middle lo hi) r a b (leb→gt _ _ gt)) (omega arith))
        ]
  ]

  whole : Range 0 n
  whole = record {
    order = omega arith;
    inside = omega arith;
    below = λ i l. absurd (omega arith);
    above = λ i a b. absurd (omega arith);
  }

-- leaf_node_find ends on every leaf of fewer than 2 ^ 31 cells whose keys go up, and finds where the key is or belongs.
pub leaf_find_index-Finds :
    (t : Table) (node : Page) (key : ℕ)
    → IsAscending (tbl_leaf_key t node) (leaf_node_num_cells node)
    → leaf_node_num_cells node + leaf_node_num_cells node < u32_mod
    → Finds (tbl_leaf_key t node) (leaf_node_num_cells node) key (leaf_find_index t node key)
unfolding leaf_find_index
leaf_find_index-Finds t node key sorted small =
    leaf_find_loop-Finds (tbl_leaf_key t node) (leaf_node_num_cells node) key sorted small
      (leaf_node_num_cells node + 1) 0 (leaf_node_num_cells node)
      (whole (tbl_leaf_key t node) (leaf_node_num_cells node) key sorted small) (omega arith)

-- internal_node_find_child ends on every node of fewer than 2 ^ 31 keys whose keys go up, and finds the child whose key range
-- holds the key.
pub internal_node_find_child-Finds :
    (node : Page) (key : ℕ)
    → IsAscending (internal_node_key node) (internal_node_num_keys node)
    → internal_node_num_keys node + internal_node_num_keys node < u32_mod
    → Finds
        (internal_node_key node)
        (internal_node_num_keys node)
        key
        (internal_node_find_child node key)
unfolding internal_node_find_child
internal_node_find_child-Finds node key sorted small =
    child_find_loop-Finds (internal_node_key node) (internal_node_num_keys node) key sorted small
      (internal_node_num_keys node + 1) 0 (internal_node_num_keys node)
      (whole (internal_node_key node) (internal_node_num_keys node) key sorted small) (omega arith)
