-- ===== src/Ranking/Order.antt =====
-- The order of `rankingOrder`, of `countUsersAhead` and of `compareRankingUsers`.
use semcomp2026_gameficacao.Prelude.{◌≡◌, true, false, ◌==◌, arith, pos, ltb_ℤ, ◌-ℤ◌}
use semcomp2026_gameficacao.Ranking.{
  RankingUser, is_ahead, ranking_order, compare_ranking_users, sorts_before,
}

-- The order of the general ranking is the one that counts the users ahead.
pub ranking_order-is_ahead : (a b : RankingUser) → ranking_order a b ≡ is_ahead a b
ranking_order-is_ahead a b = ground arith

pub is_ahead_irrefl : (a : RankingUser) → is_ahead a a ≡ false
is_ahead_irrefl a = ground arith

pub is_ahead_trans :
    (a b c : RankingUser) → is_ahead a b ≡ true → is_ahead b c ≡ true → is_ahead a c ≡ true
is_ahead_trans a b c h k = ground arith

pub is_ahead_asymm : (a b : RankingUser) → is_ahead a b ≡ true → is_ahead b a ≡ false
is_ahead_asymm a b h = ground arith

-- Of two users with different ids one is ahead.
pub is_ahead_total :
    (a b : RankingUser) → (a.id == b.id) ≡ false → is_ahead a b ≡ false → is_ahead b a ≡ true
is_ahead_total a b different h = ground arith

-- The comparator of the daily ranking puts one user before another exactly when the database's order
-- of the general ranking does.
pub compare_ranking_users-is_ahead :
    (a b : RankingUser) → ltb_ℤ (compare_ranking_users a b) (pos 0) ≡ is_ahead a b
unfolding compare_ranking_users ◌-ℤ◌
compare_ranking_users-is_ahead a b = ground arith

pub sorts_before-is_ahead :
    (a b : RankingUser) → (a.id == b.id) ≡ false → sorts_before a b ≡ is_ahead a b
unfolding compare_ranking_users ◌-ℤ◌
sorts_before-is_ahead a b different = ground arith
