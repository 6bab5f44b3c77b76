-- ===== src/System/CodeRequests.antt =====
-- The effect of the requests that change claim codes.
use semcomp2026_gameficacao.Prelude.{ℕ, ◌≡◌, arith}
use semcomp2026_gameficacao.Text.{Text}
use semcomp2026_gameficacao.Database.{Prisma}
use semcomp2026_gameficacao.Database.Schema.{Key, Fresh, ClaimCodeBulkOperation}
use semcomp2026_gameficacao.Database.Tx.{Db}
use semcomp2026_gameficacao.Audit.Contract.{OperationContext}
use semcomp2026_gameficacao.ClaimCodes.Status.{UpdateStatusDto, update_status, update_status_tx}
use semcomp2026_gameficacao.ClaimCodes.Bulk.{
  BulkStatusDto, bulk_update_status, bulk_update_status_tx,
}
use semcomp2026_gameficacao.ClaimCodes.Generate.{GenerateDto, generate_batch, generate_batch_tx}
use semcomp2026_gameficacao.ClaimCodes.Settled.{update_status_tx-ok}
use semcomp2026_gameficacao.ClaimCodes.Switched.{
  BulkDone, BulkDone-find_unique, bulk_update_status_tx-ok,
}
use semcomp2026_gameficacao.ClaimCodes.Batch.{generate_batch_tx-ok}
use semcomp2026_gameficacao.System.Effect.{
  UsedStay, quiet, Served, Moves-same, with_transaction-Served,
}

module _ ⦃P : Prisma⦄ where
  -- The codes change, and nothing that the balances or the redemptions are made of.
  Served-same :
      (db db' : Db)
      → db'.users ≡ db.users
      → db'.point_events ≡ db.point_events
      → db'.redemptions ≡ db.redemptions
      → UsedStay db db'
      → Served db db'
  Served-same db db' users events redemptions codes = record {
    effect = quiet users events;
    moves = Moves-same db db' redemptions;
    codes = codes;
  }

  pub update_status-Served :
      (id : Key) (dto : UpdateStatusDto) (context : OperationContext) (fresh : Fresh) (db : Db)
      → Served db (update_status id dto context fresh db).1
  unfolding update_status
  update_status-Served id dto context fresh db =
      with_transaction-Served (update_status_tx id dto context fresh) db λ r db' h.
        let s = update_status_tx-ok id dto context fresh db r db' h in
        Served-same db db' (ground (arith, s.frame)) (ground (arith, s.frame))
          (ground (arith, s.frame)) s.kept

  BulkDone-UsedStay :
      (dto : BulkStatusDto) (context : OperationContext) (fresh : Fresh) (db : Db)
      (r : ClaimCodeBulkOperation) (db' : Db)
      → BulkDone dto context fresh db r db'
      → UsedStay db db'
  BulkDone-UsedStay dto context fresh db r db' b j c found is_used =
      let switched = BulkDone-find_unique dto context fresh db r db' b j in
      ground (arith, switched, found, is_used)

  pub bulk_update_status-Served :
      (dto : BulkStatusDto) (context : OperationContext) (fresh : Fresh) (db : Db)
      → Served db (bulk_update_status dto context fresh db).1
  unfolding bulk_update_status
  bulk_update_status-Served dto context fresh db =
      with_transaction-Served (bulk_update_status_tx dto context fresh) db λ r db' h.
        let b = bulk_update_status_tx-ok dto context fresh db r db' h in
        Served-same db db' (ground (arith, b.frame)) (ground (arith, b.frame))
          (ground (arith, b.frame)) (BulkDone-UsedStay dto context fresh db r db' b)

  pub generate_batch-Served :
      (draw : ℕ → Text) (cuid : ℕ → Key) (action_id : Key) (dto : GenerateDto)
      (context : OperationContext) (fresh : Fresh) (db : Db)
      → Served db (generate_batch draw cuid action_id dto context fresh db).1
  unfolding generate_batch
  generate_batch-Served draw cuid action_id dto context fresh db =
      with_transaction-Served (generate_batch_tx draw cuid action_id dto context fresh) db
        λ r db' h.
          let g = generate_batch_tx-ok draw cuid action_id dto context fresh db r db' h in
          Served-same db db' (ground (arith, g.3)) (ground (arith, g.3)) (ground (arith, g.3))
            λ j c found is_used. g.2 j c found
