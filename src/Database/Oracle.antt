-- ===== src/Database/Oracle.antt =====
-- A database that no one else writes to: what the program asks of PostgreSQL.
use pdf_generator.Prelude.{ℕ, String, ◌≡◌, refl, ◌∙◌, false, ◌∷◌, none, some}
use pdf_generator.Go.{ok}
use pdf_generator.Domain.{Job}
use pdf_generator.World.Sql.{Statement, insert_job}
use pdf_generator.World.{Outside, Act, Log, executed}
use pdf_generator.World.Extends.{Extends, same, more}
use pdf_generator.Database.Table.{Table, apply, is_statement}

-- `table` is the table after each log. A statement that is answered without an error has been applied,
-- nothing but statements changes the table, and a row that is read is that of the table. An INSERT is
-- answered without an error only where the primary key is new.
pub record IsDatabase (o : Outside) (table : Log → Table) : Type 0 where
  pub passed : (a : Act) (log : Log) → is_statement a ≡ false → table (a ∷ log) ≡ table log
  pub applied :
      (s : Statement) (n : ℕ) (log : Log) → table (executed s (ok n) ∷ log) ≡ apply s (table log)
  pub inserted :
      (log : Log) (job : Job) (n : ℕ) → o.exec log (insert_job job) ≡ ok n → table log job.id ≡ none
  pub read :
      (log : Log) (id : String) (job : Job) → o.query_row log id ≡ ok job → table log id ≡ some job

-- Acts that are no statements.
abbrev pub IsNoStatement : Act → Type 0
IsNoStatement a = is_statement a ≡ false

pub Extends-table :
    {o : Outside} {table : Log → Table} {log log' : Log}
    → IsDatabase o table
    → Extends IsNoStatement log log'
    → table log' ≡ table log
Extends-table db same = refl
Extends-table db (more {log'} a h e) = db.passed a log' h ∙ Extends-table db e
