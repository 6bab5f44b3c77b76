-- ===== src/Rewards/Purchase.antt =====
-- What `redeem` has done when it returned: a debit that the balance covered, one unit of stock
-- less, one pending redemption.
use semcomp2026_gameficacao.Prelude.{
  ◌≡◌, refl, true, false, none, some, arith, ◌==◌, if◌then◌else◌, pos, leb_ℤ,
}
use semcomp2026_gameficacao.Database.{Prisma}
use semcomp2026_gameficacao.Database.Schema.{Key, Fresh, Reward, RewardRedemption, PointEvent}
use semcomp2026_gameficacao.Database.Failure.{ok}
use semcomp2026_gameficacao.Database.Tx.{Db}
use semcomp2026_gameficacao.Database.Inversion.{
  >>=-elim, reads-elim, or_throw-elim, reject_if-elim, pure-ok,
}
use semcomp2026_gameficacao.Ledger.{conflicts, event_checks}
use semcomp2026_gameficacao.Ledger.Posting.{Posting}
use semcomp2026_gameficacao.Rewards.Repository.{fewer, reward_event}
use semcomp2026_gameficacao.Rewards.Service.{purchase_input, redeem_tx}
use semcomp2026_gameficacao.Rewards.Statements.{
  debited-eq-credited, debit_user_points-ok, decrement_reward_stock-ok,
  create_reward_point_event-ok,
}
use semcomp2026_gameficacao.Rewards.Transitions.{Opened, create_redemption-ok}

module _ ⦃P : Prisma⦄ where
  abbrev pub purchase_event : Reward → Key → Fresh → PointEvent
  purchase_event reward user_id fresh = reward_event (purchase_input reward user_id fresh)

  pub record Purchased (reward_id user_id : Key) (fresh : Fresh) (db : Db) (r : RewardRedemption)
      (db' : Db) : Type 0 where
    pub reward : Reward
    pub found : P.find_unique reward_id db.rewards ≡ some reward
    pub active : reward.is_active ≡ true
    pub in_stock : leb_ℤ reward.stock (pos 0) ≡ false
    pub posting : Posting (purchase_event reward user_id fresh) db db'
    pub checked : event_checks (purchase_event reward user_id fresh) ≡ true
    pub unique :
        P.find_first (conflicts (purchase_event reward user_id fresh)) db.point_events ≡ none
    pub covered : leb_ℤ reward.cost_in_points posting.user.points ≡ true
    pub stocked : Reward
    pub stocked_found : P.find_unique reward.id db.rewards ≡ some stocked
    pub rewards :
        (j : Key)
        → P.find_unique j db'.rewards
          ≡ (if reward.id == j then some (fewer stocked) else P.find_unique j db.rewards)
    pub opened :
        Opened fresh.entity_id user_id reward.id reward.cost_in_points db r
          (record db { redemptions = db'.redemptions })
    pub claim_codes : db'.claim_codes ≡ db.claim_codes

  pub redeem_tx-ok :
      (reward_id user_id : Key) (fresh : Fresh) (db : Db) (r : RewardRedemption) (db' : Db)
      → redeem_tx reward_id user_id fresh db ≡ ok (r, db')
      → Purchased reward_id user_id fresh db r db'
  unfolding redeem_tx
  redeem_tx-ok reward_id user_id fresh db r db' h = reads-elim _ _ _ h λ h0.
      or_throw-elim _ _ _ _ h0 λ reward found h1. reject_if-elim _ _ _ _ h1 λ active h2.
        reject_if-elim _ _ _ _ h2 λ in_stock h3. >>=-elim _ _ _ h3 λ n1 db1 run1 h4.
          reject_if-elim _ _ _ _ h4 λ some_user h5. >>=-elim _ _ _ h5 λ n2 db2 run2 h6.
            reject_if-elim _ _ _ _ h6 λ some_reward h7. >>=-elim _ _ _ h7 λ redemption db3 run3 h8.
              >>=-elim _ _ _ h8 λ event db4 run4 h9.
                let debit = debit_user_points-ok _ _ db n1 db1 run1 some_user in
                let stock = decrement_reward_stock-ok _ db1 n2 db2 run2 some_reward in
                let opened = create_redemption-ok _ _ _ _ _ db2 redemption db3 run3 in
                let created = create_reward_point_event-ok _ db3 event db4 run4 in
                let last = pure-ok _ db4 h9 in
                let e = purchase_event reward user_id fresh in
                record {
                  reward = reward;
                  found = found;
                  active = ground arith;
                  in_stock = in_stock;
                  posting = record {
                    user = debit.user;
                    found = debit.found;
                    users = λ j. ground (
                      arith,
                      debit.users j,
                      stock.frame,
                      opened.frame,
                      created.state,
                      last,
                      debited-eq-credited reward.cost_in_points debit.user,
                    );
                    events = ground (
                      arith,
                      debit.frame,
                      stock.frame,
                      opened.frame,
                      created.state,
                      last,
                      P.find_many-create e.id e db.point_events,
                    );
                  };
                  checked = created.checked;
                  unique = ground (arith, created.unique, debit.frame, stock.frame, opened.frame);
                  covered = debit.enough;
                  stocked = stock.reward;
                  stocked_found = ground (arith, stock.found, debit.frame);
                  rewards = λ j.
                      ground
                        (arith, stock.rewards j, debit.frame, opened.frame, created.state, last);
                  claim_codes =
                      ground (arith, debit.frame, stock.frame, opened.frame, created.state, last);
                  opened = record {
                    row_id = ground (arith, opened.row_id, last);
                    status = ground (arith, opened.status, last);
                    user = ground (arith, opened.user, last);
                    reward = ground (arith, opened.reward, last);
                    points_spent = ground (arith, opened.points_spent, last);
                    fresh = ground (arith, opened.fresh, debit.frame, stock.frame);
                    redemptions = λ j. ground (
                      arith,
                      opened.redemptions j,
                      debit.frame,
                      stock.frame,
                      created.state,
                      last,
                    );
                    frame = refl;
                  };
                }
