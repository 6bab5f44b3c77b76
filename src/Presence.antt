-- ===== src/Presence.antt =====
-- The daily summaries that apps/api/src/presence/presence.service.ts reduces to its overall peak and
-- its latest collection.
pub mod Peak
mod Tests
use semcomp2026_gameficacao.Prelude.{
  ℕ, ◌==◌, Bool, true, false, Option, none, some, List, [], ◌∷◌, ltb, if◌then◌else◌,
}
use semcomp2026_gameficacao.Database.Schema.{Date}

-- `PresenceSummaryRecord`
pub record PresenceSummary : Type 0 where
  pub operational_date : Date
  pub last_observed_online_participants : ℕ
  pub registered_participants_at_last_observation : ℕ
  pub last_collected_at : Date
  pub peak_online_participants : ℕ
  pub peak_at : Option Date
  pub registered_participants_at_peak : ℕ
  pub unique_participant_logins : ℕ
  pub new_participant_registrations : ℕ

-- The end of the reducer of `findOverallPeak`: an earlier day wins.
abbrev is_earlier_day : PresenceSummary → PresenceSummary → Bool
is_earlier_day candidate current = ltb candidate.operational_date current.operational_date

abbrev is_earlier_peak : Option Date → Option Date → Bool → Bool
is_earlier_peak (some new) (some old) otherwise = if new == old then otherwise else ltb new old
is_earlier_peak (some new) none otherwise = true
is_earlier_peak none (some old) otherwise = false
is_earlier_peak none none otherwise = otherwise

-- Whether the reducer of `findOverallPeak` takes the candidate.
abbrev pub is_higher_peak : PresenceSummary → PresenceSummary → Bool
is_higher_peak candidate current =
    if candidate.peak_online_participants == current.peak_online_participants
    then is_earlier_peak candidate.peak_at current.peak_at (is_earlier_day candidate current)
    else ltb current.peak_online_participants candidate.peak_online_participants

-- Whether the reducer of `findLatestCollection` takes the candidate.
abbrev pub is_later_collection : PresenceSummary → PresenceSummary → Bool
is_later_collection candidate current =
    if candidate.last_collected_at == current.last_collected_at
    then ltb current.operational_date candidate.operational_date
    else ltb current.last_collected_at candidate.last_collected_at

-- `reduce`, with `null` at first.
pub reduce :
    (PresenceSummary → PresenceSummary → Bool)
    → Option PresenceSummary
    → List PresenceSummary
    → Option PresenceSummary
reduce takes current [] = current
reduce takes none (s ∷ ss) = reduce takes (some s) ss
reduce takes (some current) (s ∷ ss) =
    reduce takes (some (if takes s current then s else current)) ss

unfoldable pub find_overall_peak : List PresenceSummary → Option PresenceSummary
unfolding reduce
find_overall_peak summaries = reduce is_higher_peak none summaries

unfoldable pub find_latest_collection : List PresenceSummary → Option PresenceSummary
unfolding reduce
find_latest_collection summaries = reduce is_later_collection none summaries
