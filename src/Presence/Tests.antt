-- ===== src/Presence/Tests.antt =====
-- Two days with the same peak.
use semcomp2026_gameficacao.Prelude.{refl, some, [], ◌∷◌, All}
use mathlib.Core.List.{Mem}
use semcomp2026_gameficacao.Presence.{PresenceSummary, find_overall_peak}
use semcomp2026_gameficacao.Presence.Peak.{IsHighest, find_overall_peak-All}

abbrev monday : PresenceSummary
monday = record {
  operational_date = 10;
  last_observed_online_participants = 3;
  registered_participants_at_last_observation = 20;
  last_collected_at = 19;
  peak_online_participants = 8;
  peak_at = some 15;
  registered_participants_at_peak = 20;
  unique_participant_logins = 9;
  new_participant_registrations = 2;
}

abbrev tuesday : PresenceSummary
tuesday = record monday { operational_date = 20; last_collected_at = 29; peak_at = some 25 }

find_overall_peak-All_example :
    Mem monday (tuesday ∷ monday ∷ []) × All (IsHighest monday) (tuesday ∷ monday ∷ [])
unfolding find_overall_peak
find_overall_peak-All_example = find_overall_peak-All (tuesday ∷ monday ∷ []) monday refl
