-- ===== src/Exec/Refused.antt =====
-- Statements that are refused change nothing: the rules for code that only reads before it refuses,
-- and what holds of each statement.
pub mod Insert
pub mod Statement
use sqlyt.Base.{ℕ, ◌≡◌, refl, Bool, true, false, Option, none, some, if◌then◌else◌}
use sqlyt.Pager.{Pager, Run, done, exited, fault, out_of_fuel, M, and_then, pure, spent, ◌>>=◌}
use sqlyt.Pager.Keeps.{
  After, after_done, after_exited, after_fault, after_out_of_fuel, After-map, After-bind, Keeps,
}
use sqlyt.Pager.Cache.Reads.{Reads}
use sqlyt.Table.{SqlSchema, Table}
use sqlyt.Tree.Grow.{ExecuteResult, execute_success, execute_duplicate_key}
use sqlyt.Exec.{
  SqlExecuteResult, sql_exec_ok, sql_exec_duplicate_key, sql_exec_row_pack_failed, with_layout,
  with_table,
}
use sqlyt.Exec.Create.{result_of}

-- The errors that are found before anything is written.
unfoldable pub is_refused : SqlExecuteResult → Bool
is_refused sql_exec_ok = false
is_refused sql_exec_duplicate_key = false
is_refused sql_exec_row_pack_failed = false
is_refused _ = true

-- From a state that shows what `s0` showed, a refusal comes with such a state.
pub record Refuses (s0 : Pager) (m : M SqlExecuteResult) : Type 0 where
  pub at : (s : Pager) → Reads s0 s → After (λ r s'. is_refused r ≡ true → Reads s0 s') (m s)

-- Code that does not refuse.
pub record Accepts (m : M SqlExecuteResult) : Type 0 where
  pub at : (s : Pager) → After (λ r s'. is_refused r ≡ false) (m s)

module _ {A : Type 0} where
  pub Accepts-bind :
      (m : M A) (k : A → M SqlExecuteResult) → ((a : A) → Accepts (k a)) → Accepts (m >>= k)
  unfolding ◌>>=◌
  Accepts-bind m k accepts = record { at = λ s. go (m s) }
    where
      go : (r : Run A) → After (λ r s'. is_refused r ≡ false) (and_then r k)
      go (done a s) = (accepts a).at s
      go exited = after_exited
      go fault = after_fault
      go out_of_fuel = after_out_of_fuel

pub Accepts-then :
    (m : M SqlExecuteResult) (k : SqlExecuteResult → M SqlExecuteResult)
    → Accepts m
    → ((r : SqlExecuteResult) → is_refused r ≡ false → Accepts (k r))
    → Accepts (m >>= k)
unfolding ◌>>=◌
Accepts-then m k am ak = record { at = λ s. After-bind (am.at s) (λ r s' e. (ak r e).at s') }

pub Accepts-pure : (r : SqlExecuteResult) → is_refused r ≡ false → Accepts (pure r)
unfolding pure
Accepts-pure r e = record { at = λ s. after_done e }

pub Accepts-if :
    (b : Bool) (m n : M SqlExecuteResult) → Accepts m → Accepts n → Accepts (if b then m else n)
Accepts-if true m n am an = am
Accepts-if false m n am an = an

pub result_of-Accepts : (r : ExecuteResult) → Accepts (pure (result_of r))
unfolding result_of is_refused
result_of-Accepts execute_success = Accepts-pure sql_exec_ok refl
result_of-Accepts execute_duplicate_key = Accepts-pure sql_exec_duplicate_key refl

pub ok-Accepts : Accepts (pure sql_exec_ok)
unfolding is_refused
ok-Accepts = Accepts-pure sql_exec_ok refl

module _ {s0 : Pager} where
  pub Refuses-pure : (r : SqlExecuteResult) → Refuses s0 (pure r)
  unfolding pure
  Refuses-pure r = record { at = λ s h. after_done (λ e. h) }

  pub Refuses-spent : Refuses s0 spent
  unfolding spent
  Refuses-spent = record { at = λ s h. after_out_of_fuel }

  pub Refuses-if :
      (b : Bool) (m n : M SqlExecuteResult)
      → Refuses s0 m
      → Refuses s0 n
      → Refuses s0 (if b then m else n)
  Refuses-if true m n rm rn = rm
  Refuses-if false m n rm rn = rn

  pub Refuses-bind :
      {A : Type 0} (m : M A) (k : A → M SqlExecuteResult)
      → Keeps (Reads s0) m
      → ((a : A) → Refuses s0 (k a))
      → Refuses s0 (m >>= k)
  unfolding ◌>>=◌
  Refuses-bind m k km rk = record {
    at = λ s h. After-bind (km.at s h) (λ a s' h'. (rk a).at s' h');
  }

  pub Refuses-Accepts : (m : M SqlExecuteResult) → Accepts m → Refuses s0 m
  Refuses-Accepts m am = record { at = λ s h. After-map (am.at s) (λ r s' e e'. absurd (cc)) }

  pub with_layout-Refuses :
      (a : SqlExecuteResult) (run : Table → M SqlExecuteResult)
      → ((t : Table) → Refuses s0 (run t))
      → (t : Option Table) → Refuses s0 (with_layout a run t)
  unfolding with_layout
  with_layout-Refuses a run refuses none = Refuses-pure a
  with_layout-Refuses a run refuses (some t) = refuses t

  pub with_table-Refuses :
      (a b : SqlExecuteResult) (run : Table → M SqlExecuteResult)
      → ((t : Table) → Refuses s0 (run t))
      → (found : Option (SqlSchema × ℕ)) → Refuses s0 (with_table a b run found)
  unfolding with_table
  with_table-Refuses a b run refuses none = Refuses-pure a
  with_table-Refuses a b run refuses (some (schema, root)) = with_layout-Refuses b run refuses _

pub ruleset refuse_rules =
    (Refuses-pure, Refuses-if, Refuses-bind, with_layout-Refuses, with_table-Refuses)
