-- ===== src/DownloadGate/Runs.antt =====
-- Any interleaving of downloads that start, are refused and finish.
use semcomp2026_gameficacao.Prelude.{
  ℕ, ◌+◌, ◌-◌, ◌≡◌, ◌≤◌, ◌<◌, Option, none, some, ltb, arith, if◌then◌else◌,
}
use semcomp2026_gameficacao.DownloadGate.{
  DownloadKind, qr, csv, download_capacity, Gate, enter, leave,
}

-- The gate, and how many works of each kind are under way.
pub record State : Type 0 where
  pub gate : Gate
  pub running_qr : ℕ
  pub running_csv : ℕ

abbrev pub running : DownloadKind → State → ℕ
running qr s = s.running_qr
running csv s = s.running_csv

abbrev pub set_running : DownloadKind → ℕ → State → State
set_running qr n s = record s { running_qr = n }
set_running csv n s = record s { running_csv = n }

pub data Step (s : State) : State → Type 0 where
  starts :
      (kind : DownloadKind) {gate : Gate}
      → enter kind s.gate ≡ some gate
      → Step s (set_running kind (running kind s + 1) (record s { gate = gate }))
  refused : (kind : DownloadKind) → enter kind s.gate ≡ none → Step s s
  -- The work returned or threw.
  finishes :
      (kind : DownloadKind)
      → 0 < running kind s
      → Step s (set_running kind (running kind s - 1) (record s { gate = leave kind s.gate }))

abbrev pub idle : State
idle = record {
  gate = record { qr_entry = none; csv_entry = none };
  running_qr = 0;
  running_csv = 0;
}

pub data Reach : State → Type 0 where
  here : Reach idle
  next : {s t : State} → Reach s → Step s t → Reach t

-- The entry of a kind is what runs, and no entry is zero.
abbrev pub stored : ℕ → Option ℕ
stored n = if ltb 0 n then some n else none

pub record IsCounted (s : State) : Type 0 where
  pub qr_counted : s.gate.qr_entry ≡ stored s.running_qr
  pub csv_counted : s.gate.csv_entry ≡ stored s.running_csv
  pub qr_capacity : s.running_qr ≤ 1
  pub csv_capacity : s.running_csv ≤ 2

Step-IsCounted : {s t : State} → Step s t → IsCounted s → IsCounted t
unfolding enter leave
Step-IsCounted (starts qr h) c = ground arith
Step-IsCounted (starts csv h) c = ground arith
Step-IsCounted (refused kind h) c = c
Step-IsCounted (finishes qr h) c = ground arith
Step-IsCounted (finishes csv h) c = ground arith

Reach-IsCounted : {s : State} → Reach s → IsCounted s
Reach-IsCounted here = ground arith
Reach-IsCounted (next r step) = Step-IsCounted step (Reach-IsCounted r)

-- After any interleaving, at most one QR artifact and two CSV files are being made.
pub Reach-capacity :
    (kind : DownloadKind) (s : State) → Reach s → running kind s ≤ download_capacity kind
Reach-capacity qr s r = (Reach-IsCounted r).qr_capacity
Reach-capacity csv s r = (Reach-IsCounted r).csv_capacity

-- After any interleaving, a download is refused exactly when as many of its kind run as may: no
-- finished one holds its place.
pub Reach-enter :
    (kind : DownloadKind) (s : State)
    → Reach s
    → (enter kind s.gate ≡ none → running kind s ≡ download_capacity kind)
      × (running kind s ≡ download_capacity kind → enter kind s.gate ≡ none)
unfolding enter
Reach-enter qr s r = let c = Reach-IsCounted r in (λ h. ground (arith, c), λ h. ground (arith, c))
Reach-enter csv s r = let c = Reach-IsCounted r in (λ h. ground (arith, c), λ h. ground (arith, c))
