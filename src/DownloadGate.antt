-- ===== src/DownloadGate.antt =====
-- DownloadGate of apps/api/src/common/download-gate.ts: how many downloads of a kind may run at once.
-- Requests interleave where `run` awaits its work, so a run is two steps, `enter` and `leave`.
pub mod Runs
mod Tests
use semcomp2026_gameficacao.Prelude.{ℕ, ◌+◌, ◌-◌, Option, none, some, leb, ltb, if◌then◌else◌}

-- `DownloadKind`
pub data DownloadKind : Type 0 where
  qr csv : DownloadKind

-- `DOWNLOAD_CAPACITY`
abbrev pub download_capacity : DownloadKind → ℕ
download_capacity qr = 1
download_capacity csv = 2

-- `activeDownloads`: the entry of each kind, if it has one.
pub record Gate : Type 0 where
  pub qr_entry : Option ℕ
  pub csv_entry : Option ℕ

abbrev pub entry : DownloadKind → Gate → Option ℕ
entry qr gate = gate.qr_entry
entry csv gate = gate.csv_entry

abbrev pub with_entry : DownloadKind → Option ℕ → Gate → Gate
with_entry qr n gate = record gate { qr_entry = n }
with_entry csv n gate = record gate { csv_entry = n }

-- `??`
abbrev pub or_else : Option ℕ → ℕ → ℕ
or_else none d = d
or_else (some n) d = n

abbrev pub active : DownloadKind → Gate → ℕ
active kind gate = or_else (entry kind gate) 0

-- What `run` does before it awaits the work; `none` is the DownloadCapacityError.
unfoldable pub enter : DownloadKind → Gate → Option Gate
enter kind gate =
    if leb (download_capacity kind) (active kind gate)
    then none
    else some (with_entry kind (some (active kind gate + 1)) gate)

-- The `finally`.
unfoldable pub leave : DownloadKind → Gate → Gate
leave kind gate =
    let remaining = or_else (entry kind gate) 1 - 1 in
    if ltb 0 remaining then with_entry kind (some remaining) gate else with_entry kind none gate
