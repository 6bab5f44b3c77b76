-- ===== src/Ranking/Tests.antt =====
-- The ranking of two sample participants.
use semcomp2026_gameficacao.Prelude.{◌≡◌, ◌+◌, refl, none, some, [], ◌∷◌, pos}
use semcomp2026_gameficacao.Database.Memory.{memory}
use semcomp2026_gameficacao.Database.Schema.{User, PointEvent, credit, action_redeem, direct}
use semcomp2026_gameficacao.Database.Tx.{Db}
use semcomp2026_gameficacao.Samples.{ana, start}
use semcomp2026_gameficacao.Ranking.{
  RankingUser, ranking_user, compare_ranking_users, is_ahead, find_eligible_user, general_ranking,
  count_users_ahead, to_ranking_entry, period_ranking, action_credit_total,
}
use semcomp2026_gameficacao.Ranking.Position.{ahead_of}
use semcomp2026_gameficacao.Ranking.Order.{compare_ranking_users-is_ahead}
use semcomp2026_gameficacao.Ranking.Me.{general_ranking-me, period_users, period_ranking-me}
use semcomp2026_gameficacao.Prelude.{ltb_ℤ, ◌+ℤ◌}

abbrev bia : User
bia = record ana { id = 2; xp = pos 40 }

abbrev caio : User
caio = record ana { id = 3; xp = pos 70 }

abbrev crowd : Db ⦃P = memory⦄
crowd = record start { users = (1, ana) ∷ (2, bia) ∷ (3, caio) ∷ [] }

compare_ranking_users-is_ahead_example :
    ltb_ℤ (compare_ranking_users (ranking_user bia) (ranking_user caio)) (pos 0)
    ≡ is_ahead (ranking_user bia) (ranking_user caio)
compare_ranking_users-is_ahead_example =
    compare_ranking_users-is_ahead (ranking_user bia) (ranking_user caio)

-- Bia is second, though the top shows one participant.
general_ranking-me_example :
    (general_ranking ⦃P = memory⦄ 2 1 crowd).me
    ≡ some (
        to_ranking_entry
          (ranking_user bia)
          (count_users_ahead ⦃P = memory⦄ (ranking_user bia) crowd + 1))
unfolding find_eligible_user
general_ranking-me_example =
    general_ranking-me ⦃P = memory⦄ 2 1 crowd (ranking_user bia)
      ((refl, (refl, tt)), ((refl, tt), (tt, tt))) refl

-- What an event of the day gives Bia.
abbrev visit : PointEvent
visit = record {
  id = 900;
  user_id = 2;
  action_id = some 10;
  points = pos 30;
  xp_delta = pos 30;
  kind = credit;
  source = action_redeem;
  redemption_method = some direct;
  claim_code_id = none;
  audit_event_id = none;
  reward_redemption_id = none;
  actor_admin_id = none;
  idempotency_key = none;
  reversed_event_id = none;
  description = none;
  created_at = 1000;
}

abbrev busy : Db ⦃P = memory⦄
busy = record crowd { point_events = (900, visit) ∷ [] }

abbrev bia_today : RankingUser
bia_today = record (ranking_user bia) { xp = pos 30 }

period_ranking-me_example :
    (period_ranking ⦃P = memory⦄ 2 10 500 1500 busy).me
    ≡ some (
        to_ranking_entry bia_today
          (1 + ahead_of bia_today (period_users ⦃P = memory⦄ 500 1500 busy)))
unfolding action_credit_total ◌+ℤ◌
period_ranking-me_example =
    period_ranking-me ⦃P = memory⦄ 10 500 1500 busy bia_today
      ((refl, (refl, tt)), ((refl, tt), (tt, tt))) refl
