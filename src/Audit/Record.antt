-- ===== src/Audit/Record.antt =====
-- What a recorded audit event has done to the state: one row more, and a reason of 10 to 500.
use semcomp2026_gameficacao.Prelude.{◌≡◌, none, false, arith}
use semcomp2026_gameficacao.Text.{trim}
use semcomp2026_gameficacao.Database.{Prisma}
use semcomp2026_gameficacao.Database.Schema.{Key, Date}
use semcomp2026_gameficacao.Database.Failure.{ok}
use semcomp2026_gameficacao.Database.Tx.{Db, ◌>>=◌}
use semcomp2026_gameficacao.Audit.{AuditInput, event_of, invalid_reason, write_audit, record_audit}
use semcomp2026_gameficacao.Audit.Contract.{AuditEvent}

module _ ⦃P : Prisma⦄ where
  pub record Recorded (id : Key) (now : Date) (input : AuditInput) (db : Db) (r : AuditEvent)
      (db' : Db) : Type 0 where
    pub row : r ≡ event_of id now input
    pub reason : invalid_reason (trim input.reason) ≡ false
    pub fresh : P.find_unique id db.audit_events ≡ none
    pub state :
        db' ≡ record db { audit_events = P.create id (event_of id now input) db.audit_events }

  pub record_audit-ok :
      (id : Key) (now : Date) (input : AuditInput) (db : Db) (r : AuditEvent) (db' : Db)
      → record_audit id now input db ≡ ok (r, db')
      → Recorded id now input db r db'
  unfolding record_audit write_audit ◌>>=◌
  record_audit-ok id now input db r db' h = ground arith
