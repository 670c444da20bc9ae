-- ===== src/Exec/Insert/Keys.antt =====
-- The first loop of execute_insert: the keys that it lets through are pairwise different.
use sqlyt.Base.{
  ℕ, ◌+◌, ◌%◌, ◌<◌, ◌≡◌, refl, Bool-cases, inl, inr, arith, Bool, true, false, not, List, [], ◌∷◌,
  ◌==◌, if◌then◌else◌, length,
}
use sqlyt.Page.{u32_mod}
use sqlyt.Leaf.{Row}
use sqlyt.Leaf.Keyed.{has_key}
use sqlyt.Tree.RootLeaf.Scan.{AllAtMost, IsMaxKey}
use sqlyt.Pager.{Pager, Run, done, exited, fault, out_of_fuel, M, and_then, pure, ◌>>=◌}
use sqlyt.Pager.Keeps.{
  After, after_done, after_exited, after_fault, after_out_of_fuel, After-map, After-at,
}
use sqlyt.Table.{Table}
use sqlyt.Parser.Insert.{InsertRow}
use sqlyt.Exec.{
  SqlExecuteResult, sql_exec_ok, sql_exec_wrong_value_count, sql_exec_insert_validation_failed,
  sql_exec_row_pack_failed, sql_exec_duplicate_key, is_ok,
}
use sqlyt.Parser.Values.{parse_u32_tokens_for_insert_values}
use sqlyt.Cursor.{table_has_key}
use sqlyt.Exec.Create.{is_found}
use sqlyt.Exec.Insert.{
  LastKey, row_key, next_last_key, row_values, is_planned, packed_row, validate_rows,
}

-- The keys of the rows, in order.
unfoldable pub keys_of : LastKey → List InsertRow → List ℕ
keys_of last [] = []
keys_of last (row ∷ rows) = row_key last row ∷ keys_of (next_last_key last row) rows

-- No key is planned, and none comes twice.
abbrev pub AllFresh : (planned keys : List ℕ) → Type 0
AllFresh planned [] = Unit
AllFresh planned (k ∷ ks) = (is_planned planned k ≡ false) × AllFresh (k ∷ planned) ks

-- Where the code succeeds, `F` holds.
record Checks (F : Type 0) (m : M SqlExecuteResult) : Type 0 where
  at : (s : Pager) → After (λ r s'. is_ok r ≡ true → F) (m s)

module _ {F : Type 0} where
  Checks-error : (r : SqlExecuteResult) → is_ok r ≡ false → Checks F (pure r)
  unfolding pure
  Checks-error r e = record { at = λ s. after_done (λ ok. absurd cc) }

  Checks-ok : (r : SqlExecuteResult) → F → Checks F (pure r)
  unfolding pure
  Checks-ok r f = record { at = λ s. after_done (λ ok. f) }

  -- A test that ends in an error.
  Checks-unless :
      (b : Bool) (r : SqlExecuteResult)
      → is_ok r ≡ false
      → (m : M SqlExecuteResult) → (b ≡ false → Checks F m)
      → Checks F (if b then pure r else m)
  Checks-unless true r e m cm = Checks-error r e
  Checks-unless false r e m cm = cm refl

  Checks-map : {G : Type 0} {m : M SqlExecuteResult} → (F → G) → Checks F m → Checks G m
  Checks-map f c = record { at = λ s. After-map (c.at s) (λ r s' q ok. f (q ok)) }

  Checks-bind :
      {A : Type 0} (m : M A) (k : A → M SqlExecuteResult)
      → ((a : A) → Checks F (k a))
      → Checks F (m >>= k)
  unfolding ◌>>=◌
  Checks-bind {A = A} m k ck = record { at = λ s. go (m s) }
    where
      go : (r : Run A) → After (λ r s'. is_ok r ≡ true → F) (and_then r k)
      go (done a s) = (ck a).at s
      go exited = after_exited
      go fault = after_fault
      go out_of_fuel = after_out_of_fuel

validate_rows-Checks :
    (t : Table) (rows : List InsertRow) (planned : List ℕ) (last : LastKey)
    → Checks (AllFresh planned (keys_of last rows)) (validate_rows t rows planned last)
unfolding validate_rows keys_of is_ok
validate_rows-Checks t [] planned last = Checks-ok sql_exec_ok tt
validate_rows-Checks t (row ∷ rows) planned last =
    let key : ℕ = row_key last row in
    Checks-unless (not (length row.values == length t.schema.columns)) sql_exec_wrong_value_count
      refl _
      (λ e.
        Checks-unless (not (parse_u32_tokens_for_insert_values (row_values row key) t.schema key))
          sql_exec_insert_validation_failed refl _
          (λ e.
            Checks-unless (not (is_found (packed_row t row key))) sql_exec_row_pack_failed refl _
              (λ e. Checks-unless (is_planned planned key) sql_exec_duplicate_key refl _ (λ new.
                Checks-bind (table_has_key t key) _ (λ taken.
                  Checks-unless taken sql_exec_duplicate_key refl _ (λ e.
                    Checks-map (λ fresh. (new, fresh))
                      (validate_rows-Checks t rows (key ∷ planned) (next_last_key last row))))))))

-- If the first loop of execute_insert lets the rows of a statement through, their keys, the automatic ones
-- included, are pairwise different.
pub validate_rows-AllFresh :
    (t : Table) (rows : List InsertRow) (last : LastKey) (s s' : Pager)
    → validate_rows t rows [] last s ≡ done sql_exec_ok s'
    → AllFresh [] (keys_of last rows)
unfolding is_ok
validate_rows-AllFresh t rows last s s' run =
    After-at ((validate_rows-Checks t rows [] last).at s) run refl

has_key_above : (k : ℕ) (rows : List Row) → AllAtMost k rows → has_key (k + 1) rows ≡ false
has_key_above k [] most = refl
has_key_above k (x ∷ xs) most = ground (arith, has_key_above k xs most.1, most.0)

-- An automatic key is one that no row has, if it comes from the largest key of the rows, as
-- find_table_max_key finds it, and that is not the largest of all 32-bit numbers.
pub row_key_new :
    (last : LastKey) (row : InsertRow) (rows : List Row)
    → row.auto_id ≡ true
    → last.max_key + 1 < u32_mod
    → IsMaxKey (last.max_key, last.has_rows) rows
    → has_key (row_key last row) rows ≡ false
unfolding row_key
row_key_new last row rows auto small max = elim (Bool-cases last.has_rows) [
  | inl some_row ↦
      let next : (last.max_key + 1) % u32_mod ≡ last.max_key + 1 = omega arith in
      rw (auto, some_row, next) (has_key_above last.max_key rows (max.largest some_row))
  | inr no_row ↦ rw (max.none_if_empty no_row)
]
