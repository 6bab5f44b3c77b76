-- ===== src/Reconciliation/Divergent.antt =====
-- The list of the divergent participants.
use semcomp2026_gameficacao.Prelude.{ℕ, ◌≡◌, none}
use semcomp2026_gameficacao.Database.{Prisma}
use semcomp2026_gameficacao.Text.{Text}
use semcomp2026_gameficacao.Reconciliation.Snapshot.{divergent}
use semcomp2026_gameficacao.Reconciliation.Listing.{ListDto, ReconciliationResponse, divergent_only}

abbrev pub IsShownDivergent : ReconciliationResponse → Type 0
IsShownDivergent r = r.status ≡ divergent

module _ ⦃P : Prisma⦄ where
  abbrev pub divergent_query : (page limit : ℕ) → ListDto
  divergent_query page limit = record {
    page = page;
    limit = limit;
    search = none;
    filter_by = divergent_only;
  }
