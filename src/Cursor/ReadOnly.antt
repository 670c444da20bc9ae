-- ===== src/Cursor/ReadOnly.antt =====
-- Searches and scans only read.
use sqlyt.Base.{ℕ, zero, suc, Option, none, some}
use sqlyt.Pager.{Pager}
use sqlyt.Pager.Keeps.{Keeps, keeps_rules}
use sqlyt.Pager.Cache.Reads.{Reads, get_page-Reads}
use sqlyt.Table.{Text, Table}
use sqlyt.Cursor.{
  Cursor, or_exit, or_out_of_fuel, leaf_node_find, internal_node_find, table_find, table_start,
  cursor_value, cursor_advance, cursor_key, fold_keys, find_table_max_key, table_has_key,
  find_in_master, master_find_table,
}

module _ {s0 : Pager} where
  pub or_exit-Reads : {A : Type 0} (o : Option A) → Keeps (Reads s0) (or_exit o)
  unfolding or_exit
  or_exit-Reads none = search keeps_rules
  or_exit-Reads (some a) = search keeps_rules

  pub or_out_of_fuel-Reads : {A : Type 0} (o : Option A) → Keeps (Reads s0) (or_out_of_fuel o)
  unfolding or_out_of_fuel
  or_out_of_fuel-Reads none = search keeps_rules
  or_out_of_fuel-Reads (some a) = search keeps_rules

pub ruleset read_rules = (keeps_rules, get_page-Reads, or_exit-Reads, or_out_of_fuel-Reads)

module _ {s0 : Pager} where
  leaf_node_find-Reads : (t : Table) (n key : ℕ) → Keeps (Reads s0) (leaf_node_find t n key)
  unfolding leaf_node_find
  leaf_node_find-Reads t n key = search read_rules

  internal_node_find-Reads :
      (fuel : ℕ) (t : Table) (n key : ℕ) → Keeps (Reads s0) (internal_node_find fuel t n key)
  unfolding internal_node_find
  internal_node_find-Reads zero t n key = search read_rules
  internal_node_find-Reads (suc fuel) t n key =
      search (read_rules, leaf_node_find-Reads, internal_node_find-Reads fuel t) depth 12

  pub table_find-Reads : (t : Table) (key : ℕ) → Keeps (Reads s0) (table_find t key)
  unfolding table_find
  table_find-Reads t key = search (read_rules, leaf_node_find-Reads, internal_node_find-Reads)

  pub table_start-Reads : (t : Table) → Keeps (Reads s0) (table_start t)
  unfolding table_start
  table_start-Reads t = search (read_rules, table_find-Reads)

  pub cursor_advance-Reads : (c : Cursor) → Keeps (Reads s0) (cursor_advance c)
  unfolding cursor_advance
  cursor_advance-Reads c = search read_rules

  cursor_key-Reads : (c : Cursor) → Keeps (Reads s0) (cursor_key c)
  unfolding cursor_key
  cursor_key-Reads c = search read_rules

  pub cursor_value-Reads : (c : Cursor) → Keeps (Reads s0) (cursor_value c)
  unfolding cursor_value
  cursor_value-Reads c = search read_rules

  fold_keys-Reads :
      {A : Type 0} (fuel : ℕ) (step : ℕ → A → A) (c : Cursor) (acc : A)
      → Keeps (Reads s0) (fold_keys fuel step c acc)
  unfolding fold_keys
  fold_keys-Reads zero step c acc = search read_rules
  fold_keys-Reads (suc fuel) step c acc =
      search (read_rules, cursor_key-Reads, cursor_advance-Reads, fold_keys-Reads fuel step) depth
        12

  pub find_table_max_key-Reads : (t : Table) → Keeps (Reads s0) (find_table_max_key t)
  unfolding find_table_max_key
  find_table_max_key-Reads t = search (read_rules, table_start-Reads, fold_keys-Reads)

  pub table_has_key-Reads : (t : Table) (key : ℕ) → Keeps (Reads s0) (table_has_key t key)
  unfolding table_has_key
  table_has_key-Reads t key = search (read_rules, table_find-Reads)

  find_in_master-Reads :
      (fuel : ℕ) (name : Text) (c : Cursor) → Keeps (Reads s0) (find_in_master fuel name c)
  unfolding find_in_master
  find_in_master-Reads zero name c = search read_rules
  find_in_master-Reads (suc fuel) name c =
      search
        (
          read_rules,
          cursor_key-Reads,
          cursor_value-Reads,
          cursor_advance-Reads,
          find_in_master-Reads fuel name,
        )
        depth 16

  pub master_find_table-Reads : (name : Text) → Keeps (Reads s0) (master_find_table name)
  unfolding master_find_table
  master_find_table-Reads name = search (read_rules, table_start-Reads, find_in_master-Reads)
