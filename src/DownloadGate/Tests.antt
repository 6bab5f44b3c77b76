-- ===== src/DownloadGate/Tests.antt =====
-- A QR download under way.
use semcomp2026_gameficacao.Prelude.{◌≡◌, ◌≤◌, none, some, refl}
use semcomp2026_gameficacao.DownloadGate.{qr, download_capacity, enter}
use semcomp2026_gameficacao.DownloadGate.Runs.{
  State, running, Reach, here, next, starts, refused, Reach-capacity, Reach-enter,
}

abbrev one_qr : State
one_qr = record {
  gate = record { qr_entry = some 1; csv_entry = none };
  running_qr = 1;
  running_csv = 0;
}

abbrev reached : Reach one_qr
unfolding enter
reached = next (next here (starts qr refl)) (refused qr refl)

Reach-capacity_example : running qr one_qr ≤ download_capacity qr
Reach-capacity_example = Reach-capacity qr one_qr reached

Reach-enter_example :
    (enter qr one_qr.gate ≡ none → running qr one_qr ≡ download_capacity qr)
    × (running qr one_qr ≡ download_capacity qr → enter qr one_qr.gate ≡ none)
Reach-enter_example = Reach-enter qr one_qr reached
