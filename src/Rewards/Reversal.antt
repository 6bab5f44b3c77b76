-- ===== src/Rewards/Reversal.antt =====
-- What `deliverRedemption` and `cancelRedemption` have done when they returned.
use semcomp2026_gameficacao.Prelude.{
  ◌≡◌, refl, true, none, some, arith, ◌==◌, if◌then◌else◌, pos, ==→eq,
}
use semcomp2026_gameficacao.Text.{Text}
use semcomp2026_gameficacao.Database.{Prisma}
use semcomp2026_gameficacao.Database.Schema.{
  Key, Fresh, Reward, RewardRedemption, PointEvent, delivered, cancelled,
}
use semcomp2026_gameficacao.Database.Failure.{ok}
use semcomp2026_gameficacao.Database.Tx.{Db}
use semcomp2026_gameficacao.Database.Inversion.{
  >>=-elim, reads-elim, or_throw-elim, reject_if-elim, pure-ok,
}
use semcomp2026_gameficacao.Audit.Contract.{OperationContext}
use semcomp2026_gameficacao.Audit.Record.{record_audit-ok}
use semcomp2026_gameficacao.Ledger.Posting.{Posting}
use semcomp2026_gameficacao.Ledger.{credited, conflicts, event_checks}
use semcomp2026_gameficacao.Ledger.Statements.{increment_balance-ok}
use semcomp2026_gameficacao.Rewards.Repository.{
  CancellationState, lock_cancellation_state, more, reward_event, transitioned,
}
use semcomp2026_gameficacao.Rewards.Service.{
  refund_input, deliver_redemption_tx, cancel_redemption_tx,
}
use semcomp2026_gameficacao.Rewards.Statements.{
  increment_reward_stock-ok, create_reward_point_event-ok,
}
use semcomp2026_gameficacao.Rewards.Transitions.{Transitioned, transition-ok}

module _ ⦃P : Prisma⦄ where
  abbrev pub refund_event : CancellationState → Key → Fresh → PointEvent
  refund_event state redemption_id fresh = reward_event (refund_input state redemption_id fresh)

  pub record Delivered (id : Key) (context : OperationContext) (fresh : Fresh) (db : Db)
      (r : RewardRedemption) (db' : Db) : Type 0 where
    pub moved :
        Transitioned id delivered context.actor_admin_id fresh.now db
          (record db { redemptions = db'.redemptions })
    pub returned : r ≡ transitioned delivered context.actor_admin_id fresh.now moved.redemption
    pub frame : db' ≡ record db { redemptions = db'.redemptions; audit_events = db'.audit_events }

  pub deliver_redemption_tx-ok :
      (id : Key) (reason : Text) (context : OperationContext) (fresh : Fresh) (db : Db)
      (r : RewardRedemption) (db' : Db)
      → deliver_redemption_tx id reason context fresh db ≡ ok (r, db')
      → Delivered id context fresh db r db'
  unfolding deliver_redemption_tx
  deliver_redemption_tx-ok id reason context fresh db r db' h = reads-elim _ _ _ h λ h0.
      or_throw-elim _ _ _ _ h0 λ redemption found h1. reject_if-elim _ _ _ _ h1 λ open_before h2.
        >>=-elim _ _ _ h2 λ done db1 run1 h3. reads-elim _ _ _ h3 λ h4.
          or_throw-elim _ _ _ _ h4 λ after found_after h5. >>=-elim _ _ _ h5 λ event db2 run2 h6.
            let moved = transition-ok _ _ _ _ db done db1 run1 in
            let recorded = record_audit-ok _ _ _ db1 event db2 run2 in
            let last = pure-ok _ db2 h6 in
            record {
              moved = record {
                redemption = moved.redemption;
                found = moved.found;
                pending = moved.pending;
                redemptions = λ j. ground (arith, moved.redemptions j, recorded.state, last);
                frame = refl;
              };
              returned = ground (arith, moved.redemptions id, found_after, last);
              frame = ground (arith, moved.frame, recorded.state, last);
            }

  pub record Cancelled (id : Key) (context : OperationContext) (fresh : Fresh) (db : Db)
      (r : RewardRedemption) (db' : Db) : Type 0 where
    pub state : CancellationState
    pub found : lock_cancellation_state id db ≡ some state
    pub posting : Posting (refund_event state id fresh) db db'
    pub checked : event_checks (refund_event state id fresh) ≡ true
    pub unique : P.find_first (conflicts (refund_event state id fresh)) db.point_events ≡ none
    pub moved :
        Transitioned id cancelled context.actor_admin_id fresh.now db
          (record db { redemptions = db'.redemptions })
    pub claim_codes : db'.claim_codes ≡ db.claim_codes
    pub reward : Reward
    pub reward_found : P.find_unique state.redemption.reward_id db.rewards ≡ some reward
    pub rewards :
        (j : Key)
        → P.find_unique j db'.rewards ≡ (
            if state.redemption.reward_id == j
            then some (more reward)
            else P.find_unique j db.rewards)
    pub returned : r ≡ transitioned cancelled context.actor_admin_id fresh.now moved.redemption

  pub cancel_redemption_tx-ok :
      (id : Key) (reason : Text) (context : OperationContext) (fresh : Fresh) (db : Db)
      (r : RewardRedemption) (db' : Db)
      → cancel_redemption_tx id reason context fresh db ≡ ok (r, db')
      → Cancelled id context fresh db r db'
  unfolding cancel_redemption_tx
  cancel_redemption_tx-ok id reason context fresh db r db' h = reads-elim _ _ _ h λ h0.
      or_throw-elim _ _ _ _ h0 λ state found h1. reject_if-elim _ _ _ _ h1 λ open_before h2.
        >>=-elim _ _ _ h2 λ done db1 run1 h3. >>=-elim _ _ _ h3 λ user db2 run2 h4.
          >>=-elim _ _ _ h4 λ reward db3 run3 h5. >>=-elim _ _ _ h5 λ refund db4 run4 h6.
            reads-elim _ _ _ h6 λ h7. or_throw-elim _ _ _ _ h7 λ after found_after h8.
              >>=-elim _ _ _ h8 λ event db5 run5 h9.
                let moved = transition-ok _ _ _ _ db done db1 run1 in
                let balance = increment_balance-ok _ _ _ db1 user db2 run2 in
                let restocked = increment_reward_stock-ok _ db2 reward db3 run3 in
                let created = create_reward_point_event-ok _ db3 refund db4 run4 in
                let recorded = record_audit-ok _ _ _ db4 event db5 run5 in
                let last = pure-ok _ db5 h9 in
                let e = refund_event state id fresh in
                record {
                  state = state;
                  found = found;
                  posting = record {
                    user = balance.user;
                    found = ground (arith, balance.found, moved.frame);
                    users = λ j. ground (
                      arith,
                      balance.found,
                      balance.state,
                      moved.frame,
                      restocked.frame,
                      created.state,
                      recorded.state,
                      last,
                      P.find_unique-update_many e.user_id j (λ _. true) (credited e.points (pos 0))
                          db.users,
                      ==→eq e.user_id j,
                    );
                    events = ground (
                      arith,
                      balance.state,
                      moved.frame,
                      restocked.frame,
                      created.state,
                      recorded.state,
                      last,
                      P.find_many-create e.id e db.point_events,
                    );
                  };
                  checked = created.checked;
                  unique =
                      ground (arith, created.unique, balance.state, moved.frame, restocked.frame);
                  moved = record {
                    redemption = moved.redemption;
                    found = moved.found;
                    pending = moved.pending;
                    redemptions = λ j. ground (
                      arith,
                      moved.redemptions j,
                      balance.state,
                      restocked.frame,
                      created.state,
                      recorded.state,
                      last,
                    );
                    frame = refl;
                  };
                  claim_codes = ground (
                    arith, balance.state, moved.frame, restocked.frame, created.state,
                    recorded.state, last,
                  );
                  reward = restocked.reward;
                  reward_found = ground (arith, restocked.found, balance.state, moved.frame);
                  rewards = λ j. ground (
                    arith,
                    restocked.rewards j,
                    balance.state,
                    moved.frame,
                    created.state,
                    recorded.state,
                    last,
                  );
                  returned = ground (
                    arith,
                    moved.redemptions id,
                    found_after,
                    balance.state,
                    restocked.frame,
                    created.state,
                    last,
                  );
                }
