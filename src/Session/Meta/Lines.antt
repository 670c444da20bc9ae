-- ===== src/Session/Meta/Lines.antt =====
-- What an SQL line of src/app.c does within a transaction.
use sqlyt.Base.{
  ◌≡◌, refl, sym, subst, ap, ◌∙◌, arith, Bool, true, not, ◌&&◌, Option, none, some, Bool-cases, inl,
  inr,
}
use sqlyt.Pager.{Pager, Run}
use sqlyt.Pager.Keeps.{After, after_done, after_exited, after_fault, after_out_of_fuel}
use sqlyt.Pager.Unwritten.{Unwritten, Unwritten-refl}
use sqlyt.Table.{Text}
use sqlyt.Parser.Statements.{SqlStatement}
use sqlyt.Exec.{SqlExecuteResult, sql_exec_ok}
use sqlyt.Exec.Statement.{execute_sql}
use sqlyt.Exec.Unwritten.Statement.{execute_sql-Unwritten}
use sqlyt.Session.{
  Database, Session, Outcome, returned, ended, faulted, unfinished, on_run, then_do,
  is_create_database, run_statement, run_on_database, execute_create_database, create_database,
}
use sqlyt.Session.Meta.{LineResult, sql_line, is_open}

-- An outcome that did not return, or whose value and session satisfy `Q`.
data Leads {A : Type 0} (Q : A → Session → Type 0) : Outcome A → Type 0 where
  leads_returned : {a : A} {s : Session} → Q a s → Leads Q (returned a s)
  leads_ended : Leads Q ended
  leads_faulted : Leads Q faulted
  leads_unfinished : Leads Q unfinished

module _ {A : Type 0} where
  Leads-at :
      {Q : A → Session → Type 0} {o : Outcome A} {a : A} {s : Session}
      → Leads Q o
      → o ≡ returned a s
      → Q a s
  Leads-at {Q = Q} {a = a} {s = s} h e = invert (subst (Leads Q) e h)
    where
      invert : Leads Q (returned a s) → Q a s
      invert (leads_returned q) = q

module _ {A B : Type 0} where
  Leads-then :
      {R : A → Session → Type 0} {Q : B → Session → Type 0} {o : Outcome A}
      {k : A → Session → Outcome B}
      → Leads R o
      → ((a : A) (s : Session) → R a s → Leads Q (k a s))
      → Leads Q (then_do o k)
  unfolding then_do
  Leads-then (leads_returned q) next = next _ _ q
  Leads-then leads_ended next = leads_ended
  Leads-then leads_faulted next = leads_faulted
  Leads-then leads_unfinished next = leads_unfinished

  Leads-run :
      {R : A → Pager → Type 0} {Q : B → Session → Type 0} {r : Run A} {k : A → Pager → Outcome B}
      → After R r
      → ((a : A) (s : Pager) → R a s → Leads Q (k a s))
      → Leads Q (on_run r k)
  unfolding on_run
  Leads-run (after_done q) next = next _ _ q
  Leads-run after_exited next = leads_ended
  Leads-run after_fault next = leads_faulted
  Leads-run after_out_of_fuel next = leads_unfinished

-- Nothing is asked of an outcome.
Leads-any : {A : Type 0} (o : Outcome A) → Leads (λ a s. Unit {0}) o
Leads-any (returned a s) = leads_returned tt
Leads-any ended = leads_ended
Leads-any faulted = leads_faulted
Leads-any unfinished = leads_unfinished

-- The database of `s'` has the files of the pager `p`, and the transaction is still open.
pub record StillOpen (p : Pager) (s' : Session) : Type 0 where
  pub open_database : Database
  is_database : s'.database ≡ some open_database
  unwritten : Unwritten p open_database.pager
  pub in_transaction : s'.options.in_transaction ≡ true

run_on_database-Leads :
    (created : SqlExecuteResult) (stmt : SqlStatement) (s : Session) (d : Database)
    → s.database ≡ some d
    → s.options.in_transaction ≡ true
    → Leads (λ out s'. StillOpen d.pager s') (run_on_database created stmt s)
unfolding run_on_database
run_on_database-Leads created stmt s d e tx =
    rw (run_on_database, e)
      (Leads-run
        (subst
          (λ b.
            After (λ out p. Unwritten d.pager p)
              (execute_sql s.options.quiet b created d.catalog stmt d.pager))
          (sym tx)
          ((execute_sql-Unwritten s.options.quiet created d.catalog stmt).at d.pager
            (Unwritten-refl d.pager)))
        (λ out p k. leads_returned (record {
          open_database = record { catalog = d.catalog; pager = p };
          is_database = refl;
          unwritten = k;
          in_transaction = tx;
        })))

-- Making a directory touches neither the open database nor the options.
create_database_keeps :
    (can_make : Text → Bool) (name : Text) (s : Session)
    → ((create_database can_make name s).1.database ≡ s.database)
      × ((create_database can_make name s).1.options ≡ s.options)
unfolding create_database
create_database_keeps can_make name s = ground arith

module _ (can_make : Text → Bool) (s : Session) (d : Database) (e : s.database ≡ some d)
    (tx : s.options.in_transaction ≡ true) where
  run_statement-Leads :
      (stmt : SqlStatement) → Leads (λ out s'. StillOpen d.pager s') (run_statement can_make stmt s)
  unfolding run_statement execute_create_database
  run_statement-Leads stmt =
      let (same, options) = create_database_keeps can_make stmt.table_name s in
      elim (Bool-cases (is_create_database stmt.type)) [
        | inl c ↦
            rw c (
              run_on_database-Leads _ stmt _ d (same ∙ e) (ap (λ o. o.in_transaction) options ∙ tx))
        | inr c ↦ rw c (run_on_database-Leads sql_exec_ok stmt s d e tx)
      ]

  sql_line-StillOpen :
      (stmt : Option SqlStatement) → Leads (λ r s'. StillOpen d.pager s') (sql_line can_make stmt s)
  unfolding sql_line
  sql_line-StillOpen none = leads_returned unchanged
    where
      unchanged : StillOpen d.pager s
      unchanged = record {
        open_database = d;
        is_database = e;
        unwritten = Unwritten-refl d.pager;
        in_transaction = tx;
      }
  sql_line-StillOpen (some stmt) =
      elim (Bool-cases (not (is_create_database stmt.type) && not (is_open s))) [
        | inl c ↦ rw c (
            leads_returned (record {
              open_database = d;
              is_database = e;
              unwritten = Unwritten-refl d.pager;
              in_transaction = tx;
            }))
        | inr c ↦ rw c (Leads-then (run_statement-Leads stmt) (λ out s' h. leads_returned h))
      ]

  -- Between .begin and .commit, an SQL line, also one that fails or that makes a database, leaves the transaction open
  -- and writes to neither file of the open database.
  pub sql_line-in_transaction :
      (stmt : Option SqlStatement) (r : LineResult × Text) (s' : Session)
      → sql_line can_make stmt s ≡ returned r s'
      → StillOpen d.pager s'
  sql_line-in_transaction stmt r s' run = Leads-at (sql_line-StillOpen stmt) run
