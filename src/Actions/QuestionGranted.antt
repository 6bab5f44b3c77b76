-- ===== src/Actions/QuestionGranted.antt =====
-- What `grantQuestionAction` has done when its transaction returned.
use semcomp2026_gameficacao.Prelude.{◌≡◌, true, none, arith, ==→eq}
use semcomp2026_gameficacao.Database.{Prisma}
use semcomp2026_gameficacao.Database.Schema.{Key, Fresh, Action, PointEvent}
use semcomp2026_gameficacao.Database.Failure.{ok}
use semcomp2026_gameficacao.Database.Tx.{Db}
use semcomp2026_gameficacao.Database.Inversion.{
  >>=-elim, reads-elim, or_throw-elim, reject_if-elim, pure-ok,
}
use semcomp2026_gameficacao.Audit.Contract.{OperationContext}
use semcomp2026_gameficacao.Audit.Record.{record_audit-ok}
use semcomp2026_gameficacao.Ledger.{conflicts, credited, event_checks}
use semcomp2026_gameficacao.Ledger.Posting.{Posting}
use semcomp2026_gameficacao.Ledger.Statements.{create_point_event-ok, increment_balance-ok}
use semcomp2026_gameficacao.Actions.Repository.{action_event}
use semcomp2026_gameficacao.Actions.Question.{
  QuestionGrant, is_question, question_input, grant_question_tx,
}

module _ ⦃P : Prisma⦄ where
  abbrev pub question_event : Action → Key → OperationContext → Fresh → PointEvent
  question_event action participant_id context fresh =
      action_event (question_input action participant_id context fresh fresh.audit_event_id)

  pub record QuestionGranted (participant_id : Key) (context : OperationContext) (fresh : Fresh)
      (db db' : Db) : Type 0 where
    pub action : Action
    pub is_a_question : is_question action.type ≡ true
    pub posting : Posting (question_event action participant_id context fresh) db db'
    pub checked : event_checks (question_event action participant_id context fresh) ≡ true
    pub unique :
        P.find_first
          (conflicts (question_event action participant_id context fresh))
          db.point_events
        ≡ none
    pub redemptions : db'.redemptions ≡ db.redemptions
    pub claim_codes : db'.claim_codes ≡ db.claim_codes

  pub grant_question_tx-ok :
      (action_id participant_id : Key) (context : OperationContext) (fresh : Fresh) (db : Db)
      (r : QuestionGrant) (db' : Db)
      → grant_question_tx action_id participant_id context fresh db ≡ ok (r, db')
      → QuestionGranted participant_id context fresh db db'
  unfolding grant_question_tx
  grant_question_tx-ok action_id participant_id context fresh db r db' h = reads-elim _ _ _ h λ h0.
      or_throw-elim _ _ _ _ h0 λ action found h1. reject_if-elim _ _ _ _ h1 λ is_a_question h2.
        reject_if-elim _ _ _ _ h2 λ active h3. reads-elim _ _ _ h3 λ h4.
          or_throw-elim _ _ _ _ h4 λ user locked h5. reject_if-elim _ _ _ _ h5 λ user_active h6.
            >>=-elim _ _ _ h6 λ audit db1 run1 h7. >>=-elim _ _ _ h7 λ event db2 run2 h8.
              >>=-elim _ _ _ h8 λ progress db3 run3 h9.
                let a = record_audit-ok _ _ _ db audit db1 run1 in
                let c = create_point_event-ok _ db1 event db2 run2 in
                let i = increment_balance-ok _ _ _ db2 progress db3 run3 in
                let last = pure-ok _ db3 h9 in
                let e = question_event action participant_id context fresh in
                let update = credited action.points action.points in
                record {
                  action = action;
                  is_a_question = ground arith;
                  posting = record {
                    user = i.user;
                    found = ground (arith, i.found, c.state, a.state);
                    users = λ j. ground (
                      arith,
                      a.state,
                      c.state,
                      i.state,
                      i.found,
                      last,
                      P.find_unique-update_many participant_id j (λ _. true) update db.users,
                      ==→eq participant_id j,
                    );
                    events = ground (
                      arith,
                      a.row,
                      a.state,
                      c.state,
                      i.state,
                      last,
                      P.find_many-create e.id e db.point_events,
                    );
                  };
                  checked = ground (arith, c.checked, a.row);
                  unique = ground (arith, c.unique, a.row, a.state);
                  redemptions = ground (arith, a.state, c.state, i.state, last);
                  claim_codes = ground (arith, a.state, c.state, i.state, last);
                }
